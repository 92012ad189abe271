-- ===== src/Patricia/Decommit.antt =====
-- Opening the edge of a node (`_decommit` of
-- starkware/starkware_utils/commitment_tree/patricia_tree/virtual_calculation_node.py).
use pip_cairo_lang.Prelude.{
  ℕ, zero, suc, ◌^◌, ◌<◌, ◌≡◌, ◌≢◌, refl, ap, ◌∙◌, arith, false, ◌==◌, lt→ltb, some,
}
use pip_cairo_lang.Result.{ok}
use pip_cairo_lang.Patricia.Nodes.{
  NodeFact, HashFunction, Storage, verify_path_value, read_node_fact, found,
}
use pip_cairo_lang.Patricia.Calculation.{HashCalculation, constant, leaf_fact, binary, edge}
use pip_cairo_lang.Patricia.CalculationNode.{
  VirtualCalculationNode, calculation_node, has_no_value, decommit, decommit_fact,
}
use pip_cairo_lang.Patricia.Canonic.{value, triplet, IsStorage, IsBottom, IsProper}

-- a node of these parts
abbrev pub node : HashCalculation → ℕ → ℕ → ℕ → VirtualCalculationNode
node b p l h = record { bottom_calculation = b; path = p; length = l; height = h }

-- A path of its length makes a node.
pub calculation_node-legal :
    (b : HashCalculation) (p l h : ℕ) → p < 2 ^ l → calculation_node b p l h ≡ ok (node b p l h)
unfolding calculation_node verify_path_value
calculation_node-legal b p l h legal = rw (lt→ltb p (2 ^ l) legal) refl

pub nonzero_eq : (v : ℕ) → v ≢ 0 → (v == 0) ≡ false
nonzero_eq v h = ground arith

pub no_edge : (p : ℕ) → p < 2 ^ 0 → p ≡ 0
no_edge p h = omega arith

module _ (hash : HashFunction) (storage : Storage) where
  -- An open node has its edge in its path and length.
  pub record IsOpened (c c' : VirtualCalculationNode) : Type 0 where
    pub legal : c'.path < 2 ^ c'.length
    pub bottom : IsBottom hash storage c'.bottom_calculation
    pub height : c'.height ≡ c.height
    pub same : triplet hash storage c ≡ (c'.length, c'.path, value hash c'.bottom_calculation)

  abbrev Opens : VirtualCalculationNode → Type 0
  Opens c = (c' : VirtualCalculationNode) × (decommit storage c ≡ ok c') × IsOpened c c'

  pub read_node_fact-ok :
      (v : ℕ) (fact : NodeFact) → storage v ≡ some fact → read_node_fact storage v ≡ ok fact
  unfolding read_node_fact
  read_node_fact-ok v fact e = ap found e

  decommit-read :
      (v p h : ℕ) (fact : NodeFact)
      → v ≢ 0
      → storage v ≡ some fact
      → decommit storage (node (constant v) p 0 (suc h))
        ≡ decommit_fact (node (constant v) p 0 (suc h)) fact
  unfolding decommit
  decommit-read v p h fact nonzero e = rw (nonzero_eq v nonzero, read_node_fact-ok v fact e) refl

  stored :
      (v p h : ℕ) (fact : NodeFact)
      → IsStorage hash storage
      → p < 2 ^ 0
      → v ≢ 0
      → storage v ≡ some fact
      → Opens (node (constant v) p 0 (suc h))
  unfolding value
  stored v p h (NodeFact.edge b q m) good legal nonzero e =
      let stored = good.edges v b q m e in
      (
        node (constant b) q m (suc h),
        decommit-read v p h _ nonzero e
            ∙ calculation_node-legal (constant b) q m (suc h) stored.legal,
        record {
          legal = stored.legal;
          bottom = (stored.bottom, stored.single);
          height = refl;
          same = rw e refl;
        },
      )
  stored v p h (NodeFact.binary a b) good legal nonzero e = (
    node (constant v) p 0 (suc h),
    decommit-read v p h _ nonzero e,
    record {
      legal = legal;
      bottom = (nonzero, rw e refl);
      height = refl;
      same = rw (e, no_edge p legal) refl;
    },
  )
  stored v p h NodeFact.empty good legal nonzero e = (
    node (constant v) p 0 (suc h),
    decommit-read v p h _ nonzero e,
    record {
      legal = legal;
      bottom = (nonzero, rw e refl);
      height = refl;
      same = rw (e, no_edge p legal) refl;
    },
  )

  -- A node that is open already.
  opened :
      (b : HashCalculation) (p l h : ℕ)
      → p < 2 ^ l
      → IsBottom hash storage b
      → decommit storage (node b p l h) ≡ ok (node b p l h)
      → triplet hash storage (node b p l h) ≡ (l, p, value hash b)
      → Opens (node b p l h)
  opened b p l h legal bottom e same =
      (node b p l h, e, record { legal = legal; bottom = bottom; height = refl; same = same })

  inner-Opens :
      (b : HashCalculation) (p h : ℕ)
      → IsStorage hash storage
      → IsProper hash storage (node b p 0 (suc h))
      → has_no_value b ≡ false
      → Opens (node b p 0 (suc h))
  unfolding decommit value
  inner-Opens (constant v) p h good proper full =
      let nonzero : v ≢ 0 = λ z. absurd (ground arith) in
      let (fact, e) = proper.known (λ z. absurd (omega arith)) refl nonzero in
      stored v p h fact good proper.legal nonzero e
  inner-Opens (leaf_fact fact) p h good proper full =
      let bottom : IsBottom hash storage (leaf_fact fact) =
        (full, λ z. absurd (ground (arith, proper.solid))) in
      opened (leaf_fact fact) p 0 (suc h) proper.legal bottom (rw full refl)
        (rw (no_edge p proper.legal) refl)
  inner-Opens (binary x y) p h good proper full =
      opened (binary x y) p 0 (suc h) proper.legal tt refl (rw (no_edge p proper.legal) refl)
  inner-Opens (edge x q m) p h good proper full =
      let (positive, legal, bottom) = proper.solid in
      (
        node x q m (suc h),
        calculation_node-legal x q m (suc h) legal,
        record { legal = legal; bottom = bottom; height = refl; same = refl },
      )

  parts-Opens :
      (b : HashCalculation) (p l h : ℕ)
      → IsStorage hash storage
      → IsProper hash storage (node b p l h)
      → has_no_value b ≡ false
      → Opens (node b p l h)
  unfolding decommit
  parts-Opens b p zero zero good proper full =
      opened b p 0 0 proper.legal (proper.leaf refl full) refl (rw (no_edge p proper.legal) refl)
  parts-Opens b p zero (suc h) good proper full = inner-Opens b p h good proper full
  parts-Opens b p (suc l) zero good proper full =
      opened b p (suc l) 0 proper.legal (proper.edged (λ z. absurd (omega arith))) refl refl
  parts-Opens b p (suc l) (suc h) good proper full =
      opened b p (suc l) (suc h) proper.legal (proper.edged (λ z. absurd (omega arith)))
        (rw full refl) refl

  -- A node that is not empty can be opened, and is the same node.
  pub decommit-Opens :
      (c : VirtualCalculationNode)
      → IsStorage hash storage
      → IsProper hash storage c
      → has_no_value c.bottom_calculation ≡ false
      → (c' : VirtualCalculationNode) × (decommit storage c ≡ ok c') × IsOpened c c'
  decommit-Opens c good proper full =
      parts-Opens c.bottom_calculation c.path c.length c.height good proper full
