-- ===== src/Patricia/Commitment.antt =====
-- Computing the hash of a root (`full_calculate` of
-- starkware/starkware_utils/commitment_tree/calculation.py, and `commit`).
use pip_cairo_lang.Prelude.{ℕ, zero, suc, ◌+◌, ◌^◌, ◌<◌, ◌≡◌, ◌≢◌, refl, lt→ltb, [], ◌∷◌}
use pip_cairo_lang.Result.{Result, ok}
use pip_cairo_lang.Exec.{Exec, ◌>>=◌}
use pip_cairo_lang.Patricia.Nodes.{
  NodeFact, HashFunction, Storage, verify_path_value, binary_node, edge_node, to_bytes, hash_of,
  AnyFact, NodeFactDict,
}
use pip_cairo_lang.Patricia.Calculation.{
  HashCalculation, constant, leaf_fact, binary, edge, note, calculate, full_calculate,
}
use pip_cairo_lang.Patricia.CalculationNode.{VirtualCalculationNode, commit}
use pip_cairo_lang.Patricia.Utils.{hash_node}
use pip_cairo_lang.Patricia.Canonic.{value, triplet, IsStorage, IsProper}
use pip_cairo_lang.Patricia.VirtualNode.{commit as commit_node}
use pip_cairo_lang.Patricia.VirtualNode.Parts.{virtual_node-legal}
use pip_cairo_lang.Patricia.Root.{calculate_node, commit_root}
use pip_cairo_lang.Patricia.Decommit.{node, nonzero_eq}
use pip_cairo_lang.Patricia.Triplets.{commit-hash_node}

pub binary-made : (l r : ℕ) → l ≢ 0 → r ≢ 0 → binary_node l r ≡ ok (NodeFact.binary l r)
unfolding binary_node
binary-made l r hl hr = rw (nonzero_eq l hl, nonzero_eq r hr) refl

pub edge-made : (b p l : ℕ) → 0 < l → p < 2 ^ l → edge_node b p l ≡ ok (NodeFact.edge b p l)
unfolding edge_node verify_path_value
edge-made b p l positive legal = rw (lt→ltb 0 l positive, lt→ltb p (2 ^ l) legal) refl

module _ (hash : HashFunction) where
  -- The classes of the facts accept what is computed: a binary node has no empty child, an edge has a
  -- path of its length, and both its path and its hash have 32 bytes.
  unfoldable pub IsLegal : HashCalculation → Type 0
  IsLegal (constant v) = Unit
  IsLegal (leaf_fact fact) = Unit
  IsLegal (binary l r) = IsLegal l × IsLegal r × (value hash l ≢ 0) × (value hash r ≢ 0)
  IsLegal (edge b p l) =
      IsLegal b × (0 < l) × (p < 2 ^ l) × (p < 2 ^ 256) × (hash (value hash b) p + l < 2 ^ 256)

  abbrev IsNotedAs : ℕ → AnyFact → Type 0
  IsNotedAs k (AnyFact.leaf fact) = k ≡ fact.leaf_hash
  IsNotedAs k (AnyFact.inner fact) = hash_of hash fact ≡ ok k

  -- Each fact is under its hash.
  unfoldable pub IsNoted : NodeFactDict → Type 0
  IsNoted [] = Unit
  IsNoted ((k, fact) ∷ d) = IsNotedAs k fact × IsNoted d

  -- A run that gives a value, and keeps each fact under its hash.
  abbrev pub Computes : Exec NodeFactDict ℕ → ℕ → NodeFactDict → Type 0
  Computes action v d = (d' : NodeFactDict) × (action d ≡ (ok v, d')) × IsNoted d'

  noted :
      (made : Result NodeFact) (fact : NodeFact) (v : ℕ) (d : NodeFactDict)
      → made ≡ ok fact
      → hash_of hash fact ≡ ok v
      → IsNoted d
      → Computes (note hash made) v d
  unfolding note IsNoted ◌>>=◌
  noted made fact v d e h clean = ((v, AnyFact.inner fact) ∷ d, rw (e, h) refl, (h, clean))

  edge-hash :
      (b p l : ℕ)
      → p < 2 ^ 256
      → hash b p + l < 2 ^ 256
      → hash_of hash (NodeFact.edge b p l) ≡ ok (hash b p + l)
  unfolding hash_of to_bytes
  edge-hash b p l small fits =
      rw (lt→ltb p (2 ^ 256) small, lt→ltb (hash b p + l) (2 ^ 256) fits) refl

  full_calculate-value :
      (b : HashCalculation) (d : NodeFactDict)
      → IsLegal b
      → IsNoted d
      → Computes (full_calculate hash b) (value hash b) d
  unfolding full_calculate calculate value IsLegal IsNoted hash_of ◌>>=◌
  full_calculate-value (constant v) d legal clean = (d, refl, clean)
  full_calculate-value (leaf_fact fact) d legal clean =
      ((fact.leaf_hash, AnyFact.leaf fact) ∷ d, refl, (refl, clean))
  full_calculate-value (binary l r) d (legal_l, legal_r, hl, hr) clean =
      let (d1, e1, clean1) = full_calculate-value l d legal_l clean in
      let (d2, e2, clean2) = full_calculate-value r d1 legal_r clean1 in
      let (d3, e3, clean3) =
        noted (binary_node (value hash l) (value hash r)) _ _ d2
          (binary-made (value hash l) (value hash r) hl hr) refl clean2 in
      (d3, rw (e1, e2) e3, clean3)
  full_calculate-value (edge b p l) d (legal_b, positive, legal, small, fits) clean =
      let (d1, e1, clean1) = full_calculate-value b d legal_b clean in
      let (d2, e2, clean2) =
        noted (edge_node (value hash b) p l) _ _ d1 (edge-made (value hash b) p l positive legal)
          (edge-hash (value hash b) p l small fits) clean1 in
      (d2, rw e1 e2, clean2)

  parts-Computes :
      (b : HashCalculation) (p l h : ℕ) (d : NodeFactDict)
      → p < 2 ^ l
      → IsLegal (commit (node b p l h))
      → IsNoted d
      → Computes (commit_root hash (node b p l h)) (value hash (commit (node b p l h))) d
  unfolding commit_root calculate_node commit_node IsLegal value ◌>>=◌
  parts-Computes b p zero h d path legal clean =
      let (d1, e1, clean1) = full_calculate-value b d legal clean in
      (d1, rw (e1, virtual_node-legal (value hash b) p 0 h path) refl, clean1)
  parts-Computes b p (suc l) h d path (legal_b, positive, legal, small, fits) clean =
      let (d1, e1, clean1) = full_calculate-value b d legal_b clean in
      let (d2, e2, clean2) =
        noted (edge_node (value hash b) p (suc l)) _ _ d1
          (edge-made (value hash b) p (suc l) positive legal)
          (edge-hash (value hash b) p (suc l) small fits) clean1 in
      (d2, rw (e1, virtual_node-legal (value hash b) p (suc l) h path) e2, clean2)

  -- The hash of a well-formed root, computed and committed, is the one that the reference has for the
  -- node which it stands for, and each fact that is written on the way is under its own hash, as were
  -- those before. The classes of the facts accept the numbers, and the edges in the storage are well
  -- formed.
  pub commit_root-hash_node :
      (storage : Storage) (c : VirtualCalculationNode) (d : NodeFactDict)
      → IsStorage hash storage
      → IsProper hash storage c
      → IsLegal (commit c)
      → IsNoted d
      → (d' : NodeFactDict) × (commit_root hash c d
          ≡ (ok (hash_node hash (triplet hash storage c)), d'))
        × IsNoted d'
  commit_root-hash_node storage c d good proper legal clean =
      let (d', e, clean') =
        parts-Computes c.bottom_calculation c.path c.length c.height d proper.legal legal clean in
      (d', rw (← commit-hash_node hash storage c good proper) e, clean')
