-- ===== src/Patricia/Triplets.antt =====
-- The nodes of the reference that empty and full nodes stand for, and their hashes, for
-- starkware/starkware_utils/commitment_tree/patricia_tree/virtual_calculation_node.py.
use pip_cairo_lang.Prelude.{
  ℕ, zero, suc, ◌+◌, ◌<◌, ◌≡◌, ◌≢◌, refl, sym, ap, ◌∙◌, arith, true, false, Option, none, some,
  ==_iff,
}
use pip_cairo_lang.Patricia.Nodes.{NodeFact, HashFunction, Storage}
use pip_cairo_lang.Patricia.Calculation.{HashCalculation, constant, leaf_fact, binary, edge}
use pip_cairo_lang.Patricia.CalculationNode.{VirtualCalculationNode, has_no_value, commit}
use pip_cairo_lang.Patricia.Utils.{empty_triplet, is_empty_triplet, hash_node, canonic, back_of}
use pip_cairo_lang.Patricia.Canonic.{value, triplet, IsStorage, IsBottom, IsSolid, IsProper}
use pip_cairo_lang.Patricia.Decommit.{node, decommit-Opens}

-- No two numbers hash to that of the empty node.
abbrev pub IsNonzero : HashFunction → Type 0
IsNonzero hash = (a b : ℕ) → hash a b ≢ 0

pub filled : (l p b : ℕ) → b ≢ 0 → is_empty_triplet (l, p, b) ≡ false
filled zero zero zero h = absurd (h refl)
filled zero zero (suc b) h = refl
filled zero (suc p) b h = refl
filled (suc l) p b h = refl

module _ (hash : HashFunction) (storage : Storage) where
  pub bottom_nonzero :
      (b : HashCalculation) → IsNonzero hash → IsBottom hash storage b → value hash b ≢ 0
  unfolding value
  bottom_nonzero (constant v) nonzero h = h.0
  bottom_nonzero (leaf_fact fact) nonzero h = h.1
  bottom_nonzero (binary x y) nonzero h = nonzero (value hash x) (value hash y)
  bottom_nonzero (edge x p l) nonzero h = absurd h

  pub bottom_full : (b : HashCalculation) → IsBottom hash storage b → has_no_value b ≡ false
  bottom_full (constant v) h = let k = h.0 in ground arith
  bottom_full (leaf_fact fact) h = h.0
  bottom_full (binary x y) h = refl
  bottom_full (edge x p l) h = absurd h

  pub bottom-IsSolid : (b : HashCalculation) → IsBottom hash storage b → IsSolid hash storage b
  bottom-IsSolid (constant v) h = tt
  bottom-IsSolid (leaf_fact fact) h = let k = h.0 in let m = h.1 in ground arith
  bottom-IsSolid (binary x y) h = tt
  bottom-IsSolid (edge x p l) h = absurd h

  -- A node that is not empty is one of the reference that is not empty.
  pub full-triplet :
      (c : VirtualCalculationNode)
      → IsNonzero hash
      → IsStorage hash storage
      → IsProper hash storage c
      → has_no_value c.bottom_calculation ≡ false
      → is_empty_triplet (triplet hash storage c) ≡ false
  full-triplet c nonzero good proper full =
      let (c', e, o) = decommit-Opens hash storage c good proper full in
      ap is_empty_triplet o.same
      ∙ filled c'.length c'.path (value hash c'.bottom_calculation)
          (bottom_nonzero c'.bottom_calculation nonzero o.bottom)

  pub canonic_zero : IsStorage hash storage → canonic storage 0 ≡ (0, 0, 0)
  canonic_zero good = at (storage 0) refl
    where
      at : (o : Option NodeFact) → storage 0 ≡ o → back_of o 0 ≡ (0, 0, 0)
      at none e = refl
      at (some NodeFact.empty) e = refl
      at (some (NodeFact.binary a b)) e = refl
      at (some (NodeFact.edge b p l)) e = absurd ((good.edges 0 b p l e).nonzero refl)

  bare :
      (b : HashCalculation) (h : ℕ)
      → IsStorage hash storage
      → IsSolid hash storage b
      → has_no_value b ≡ true
      → triplet hash storage (node b 0 0 h) ≡ empty_triplet
  unfolding value
  bare (constant v) zero good solid vain = rw ((==_iff v 0).0 vain) refl
  bare (constant v) (suc h) good solid vain = rw ((==_iff v 0).0 vain) (canonic_zero good)
  bare (leaf_fact fact) zero good solid vain =
      ap (λ (t : ℕ). (0, 0, t)) ((==_iff fact.leaf_hash 0).0 (sym solid ∙ vain))
  bare (leaf_fact fact) (suc h) good solid vain =
      ap (λ (t : ℕ). (0, 0, t)) ((==_iff fact.leaf_hash 0).0 (sym solid ∙ vain))
  bare (binary x y) h good solid vain = absurd (cc vain)
  bare (edge x p l) h good solid vain = absurd (cc vain)

  parts_empty :
      (b : HashCalculation) (p l h : ℕ)
      → IsStorage hash storage
      → IsProper hash storage (node b p l h)
      → has_no_value b ≡ true
      → triplet hash storage (node b p l h) ≡ empty_triplet
  parts_empty b p zero h good proper vain = bare b h good proper.solid vain
  parts_empty b p (suc l) h good proper vain =
      absurd (cc (sym (bottom_full b (proper.edged (λ z. absurd (omega arith)))) ∙ vain))

  -- An empty node is the empty one of the reference.
  pub empty-triplet :
      (c : VirtualCalculationNode)
      → IsStorage hash storage
      → IsProper hash storage c
      → has_no_value c.bottom_calculation ≡ true
      → triplet hash storage c ≡ empty_triplet
  empty-triplet c good proper vain =
      parts_empty c.bottom_calculation c.path c.length c.height good proper vain

  hash_node-edge : (l p b : ℕ) → 0 < l → hash_node hash (l, p, b) ≡ hash b p + l
  hash_node-edge zero p b h = absurd (omega arith)
  hash_node-edge (suc l) p b h = refl

  hash_node-canonic : (v : ℕ) → IsStorage hash storage → v ≡ hash_node hash (canonic storage v)
  hash_node-canonic v good = at (storage v) refl
    where
      at : (o : Option NodeFact) → storage v ≡ o → v ≡ hash_node hash (back_of o v)
      at none e = refl
      at (some NodeFact.empty) e = refl
      at (some (NodeFact.binary a b)) e = refl
      at (some (NodeFact.edge b p l)) e =
          let stored = good.edges v b p l e in
          stored.key ∙ sym (hash_node-edge l p b stored.positive)

  parts_commit :
      (b : HashCalculation) (p l h : ℕ)
      → IsStorage hash storage
      → IsSolid hash storage b
      → value hash (commit (node b p l h)) ≡ hash_node hash (triplet hash storage (node b p l h))
  unfolding value
  parts_commit b p (suc l) h good solid = refl
  parts_commit b p zero zero good solid = refl
  parts_commit (constant v) p zero (suc h) good solid = hash_node-canonic v good
  parts_commit (leaf_fact fact) p zero (suc h) good solid = refl
  parts_commit (binary x y) p zero (suc h) good solid = refl
  parts_commit (edge x q m) p zero (suc h) good solid =
      sym (hash_node-edge m q (value hash x) solid.0)

  -- The hash of a node is that of the reference.
  pub commit-hash_node :
      (c : VirtualCalculationNode)
      → IsStorage hash storage
      → IsProper hash storage c
      → value hash (commit c) ≡ hash_node hash (triplet hash storage c)
  commit-hash_node c good proper =
      parts_commit c.bottom_calculation c.path c.length c.height good proper.solid
