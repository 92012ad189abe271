-- ===== src/Patricia/Children.antt =====
-- The children of a node (`get_children` of
-- starkware/starkware_utils/commitment_tree/patricia_tree/virtual_patricia_node.py) against those of
-- starkware/cairo/common/patricia_utils.py.
use native.Mathlib.Nat.{pow-suc, div-add-mod, mod-lt}
use pip_cairo_lang.Prelude.Mod.{nat_unique}
use pip_cairo_lang.Prelude.{
  ==_iff, ◌≤◌, ℕ, zero, suc, ◌+◌, ◌-◌, ◌/◌, ◌%◌, ◌^◌, ◌<◌, ◌≡◌, ◌≢◌, refl, sym, ap, ◌∙◌, arith,
  ◌==◌, eqb_zero, ◌*◌, Bool-cases, inl, inr, if◌then◌else◌, some,
}
use pip_cairo_lang.Prelude.Bits.{bit_and-mask, pow_pos}
use pip_cairo_lang.Result.{Result, ok}
use pip_cairo_lang.Patricia.Nodes.{NodeFact, HashFunction, Storage}
use pip_cairo_lang.Patricia.VirtualNode.{
  VirtualPatriciaNode, empty_node, edge_children, children_of, inner_children, get_children,
}
use pip_cairo_lang.Patricia.Utils.{Triplet, canonic, back_of, get_children as reference_children}
use pip_cairo_lang.Patricia.Decommit.{no_edge, nonzero_eq, read_node_fact-ok}
use pip_cairo_lang.Patricia.Canonic.{IsStorage}
use pip_cairo_lang.Patricia.VirtualNode.Parts.{vnode, virtual_node-legal}
use pip_cairo_lang.Patricia.Triplets.{canonic_zero}

-- The rest of a path whose first step is to the left, or to the right.
rest_left : (p d : ℕ) → p / d ≡ 0 → p % d ≡ p
rest_left p d e = omega (arith, div-add-mod p d, ap (λ (t : ℕ). d * t) e)

at_least : (p d q : ℕ) → q ≢ 0 → d * q + p % d ≡ p → d ≤ p
at_least p d zero h e = absurd (h refl)
at_least p d (suc q) h e = omega (arith, e)

rest_right : (p d : ℕ) → p < d + d → p / d ≢ 0 → p % d ≡ p - d
rest_right p d h turn =
    let le = at_least p d (p / d) turn (div-add-mod p d) in
    nat_unique p d (p - d) 1 (omega (arith, le)) (omega (arith, le))

twice : (p m : ℕ) → p < 2 ^ suc m → p < 2 ^ m + 2 ^ m
twice p m h = omega (arith, pow-suc 2 m)

both_ok :
    {A B : Type 0} {a a' : A} {b b' : B}
    → a ≡ a'
    → b ≡ b'
    → ◌≡◌ {A = Result (A × B)} (ok (a, b)) (ok (a', b'))
both_ok e f = rw (e, f) refl

module _ (hash : HashFunction) (storage : Storage) where
  -- the node as the reference has it
  abbrev pub as_triplet : VirtualPatriciaNode → Triplet
  as_triplet n =
      if eqb_zero n.length then canonic storage n.bottom_node else (n.length, n.path, n.bottom_node)

  -- An open node is the reference's.
  open-triplet :
      (b q m h : ℕ)
      → q < 2 ^ m
      → canonic storage b ≡ (0, 0, b)
      → (m, q, b) ≡ as_triplet (vnode b q m h)
  open-triplet b q zero h legal single = rw (no_edge q legal) (sym single)
  open-triplet b q (suc m) h legal single = refl

  -- The two children of a node, as the production code and as the reference have them.
  abbrev Agree :
      Result (VirtualPatriciaNode × VirtualPatriciaNode) → Result (Triplet × Triplet) → Type 0
  Agree children pair =
      (l : VirtualPatriciaNode) × (r : VirtualPatriciaNode) × (children ≡ ok (l, r))
      × (pair ≡ ok (as_triplet l, as_triplet r))

  edge-Agree :
      (b p m h : ℕ)
      → IsStorage hash storage
      → p < 2 ^ suc m
      → canonic storage b ≡ (0, 0, b)
      → Agree (edge_children (vnode b p (suc m) h)) (reference_children storage (suc m, p, b))
  unfolding edge_children reference_children
  edge-Agree b p m h good legal single =
      let d = 2 ^ m in
      let small : p % d < d = mod-lt p (pow_pos m) in
      let q = p % d in
      let masked = bit_and-mask m p in
      let made = virtual_node-legal b q m (h - 1) small in
      let less : suc m - 1 ≡ m = omega arith in
      elim (Bool-cases (p / d == 0)) [
        | inl t ↦
            let rest = rest_left p d ((==_iff (p / d) 0).0 t) in
            (
              vnode b q m (h - 1),
              empty_node (h - 1),
              rw (less, masked, made, t) refl,
              rw (less, t)
                  (both_ok
                    (ap (λ (x : ℕ). (m, x, b)) (sym rest) ∙ open-triplet b q m (h - 1) small single)
                    (sym (canonic_zero hash storage good))),
            )
        | inr f ↦
            let rest = rest_right p d (twice p m legal) (λ z. absurd (ground arith)) in
            (
              empty_node (h - 1),
              vnode b q m (h - 1),
              rw (less, masked, made, f) refl,
              rw (less, f)
                  (both_ok (sym (canonic_zero hash storage good)) (
                    ap (λ (x : ℕ). (m, x, b)) (sym rest)
                    ∙ open-triplet b q m (h - 1) small single)),
            )
      ]

  -- A node is well formed: an edge has a path of its length, and no edge or empty node under it; a
  -- hash without an edge, of a node that is not empty, is that of an edge or a binary node in the
  -- storage.
  pub record IsVirtual (n : VirtualPatriciaNode) : Type 0 where
    pub legal : n.path < 2 ^ n.length
    pub edged :
        n.length ≢ 0 → (n.bottom_node ≢ 0) × (canonic storage n.bottom_node ≡ (0, 0, n.bottom_node))
    pub known :
        n.length ≡ 0
        → n.bottom_node ≢ 0
        → (fact : NodeFact) × (storage n.bottom_node ≡ some fact) × (fact ≢ NodeFact.empty)

  fact-Agree :
      (b h : ℕ) (fact : NodeFact)
      → IsStorage hash storage
      → b ≢ 0
      → storage b ≡ some fact
      → fact ≢ NodeFact.empty
      → Agree (children_of fact h) (reference_children storage (back_of (some fact) b))
  unfolding children_of reference_children
  fact-Agree b h NodeFact.empty good nonzero e full = absurd (full refl)
  fact-Agree b h (NodeFact.binary x y) good nonzero e full =
      (vnode x 0 0 (h - 1), vnode y 0 0 (h - 1), refl, rw (nonzero_eq b nonzero, e) refl)
  fact-Agree b h (NodeFact.edge x q zero) good nonzero e full =
      let positive = (good.edges b x q 0 e).positive in absurd (omega arith)
  fact-Agree b h (NodeFact.edge x q (suc m)) good nonzero e full =
      let stored = good.edges b x q (suc m) e in
      let (l, r, e1, e2) = edge-Agree x q m h good stored.legal stored.single in
      (l, r, rw (virtual_node-legal x q (suc m) h stored.legal) e1, e2)

  bare-Agree :
      (b p h : ℕ)
      → IsStorage hash storage
      → IsVirtual (vnode b p 0 (suc h))
      → Agree
          (get_children storage (vnode b p 0 (suc h)))
          (reference_children storage (canonic storage b))
  unfolding get_children inner_children reference_children
  bare-Agree b p h good well = elim (Bool-cases (b == 0)) [
    | inl t ↦
        let zero_root = canonic_zero hash storage good in
        (
          empty_node (suc h - 1),
          empty_node (suc h - 1),
          rw t refl,
          rw ((==_iff b 0).0 t, zero_root) (both_ok zero_root zero_root),
        )
    | inr f ↦
        let nonzero : b ≢ 0 = λ z. absurd (ground arith) in
        let (fact, e, full) = well.known refl nonzero in
        let (l, r, e1, e2) = fact-Agree b (suc h) fact good nonzero e full in
        (l, r, rw (f, read_node_fact-ok hash storage b fact e) e1, rw e e2)
  ]

  parts-Agree :
      (b p l h : ℕ)
      → IsStorage hash storage
      → IsVirtual (vnode b p l h)
      → h ≢ 0
      → Agree
          (get_children storage (vnode b p l h))
          (reference_children storage (as_triplet (vnode b p l h)))
  unfolding get_children
  parts-Agree b p l zero good well inner = absurd (inner refl)
  parts-Agree b p zero (suc h) good well inner = bare-Agree b p h good well
  parts-Agree b p (suc m) (suc h) good well inner =
      let (nonzero, single) = well.edged (λ z. absurd (omega arith)) in
      let (l, r, e1, e2) = edge-Agree b p m (suc h) good well.legal single in
      (l, r, rw (nonzero_eq b nonzero) e1, e2)

  -- A well-formed node above the leaves has two children, and they stand for the children that the
  -- reference gives for the node which it stands for: those of an empty node, of a binary node or of
  -- an edge, committed or not. The edges in the storage are well formed.
  pub get_children-Agree :
      (n : VirtualPatriciaNode)
      → IsStorage hash storage
      → IsVirtual n
      → n.height ≢ 0
      → (l : VirtualPatriciaNode) × (r : VirtualPatriciaNode) × (get_children storage n ≡ ok (l, r))
        × (reference_children storage (as_triplet n) ≡ ok (as_triplet l, as_triplet r))
  get_children-Agree n good well inner =
      parts-Agree n.bottom_node n.path n.length n.height good well inner
