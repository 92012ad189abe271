-- ===== src/Patricia/UpdateTree/Leaves.antt =====
-- The leaves of an update tree (`build_update_tree` of
-- starkware/starkware_utils/commitment_tree/update_tree.py).
use native.Mathlib.Nat.{pow-suc, div-div-eq-div-mul, div-eq_of_lt}
use pip_cairo_lang.Prelude.{
  ℕ, zero, suc, ◌+◌, ◌*◌, ◌/◌, ◌%◌, ◌^◌, ◌<◌, ◌≡◌, refl, sym, ap, subst, ◌∙◌, arith, ◌==◌, ==_iff,
  Bool-cases, inl, inr, Option, none, some, [], ◌∷◌, length, if◌then◌else◌,
}
use pip_cairo_lang.Result.{ok, assert, top_layer, ◌>>◌}
use pip_cairo_lang.Patricia.Nodes.{LeafFact}
use pip_cairo_lang.Patricia.UpdateTree.{
  UpdateTree, absent, leaf, pair, Modifications, Layer, get_tree, put_tree, dict_of, member,
  parents, next_layer, layers, root_of, build_update_tree,
}
use pip_cairo_lang.Patricia.UpdateTree.Layers.{
  get_tree-map, get_tree-parents, IsBelow, IsLayer, next_layer-IsLayer, one_item,
}
use pip_cairo_lang.Patricia.UpdateTree.Dict.{
  modified, or_tree, get_tree-dict_of, AreBelow, dict_of-IsLayer, first-IsLayer,
}

-- The leaf at an index, by the bits of the index from the highest one down.
unfoldable pub leaf_of : ℕ → ℕ → UpdateTree → Option LeafFact
leaf_of zero i (leaf fact) = some fact
leaf_of (suc k) i (pair l r) = if i / 2 ^ k % 2 == 0 then leaf_of k i l else leaf_of k i r
leaf_of _ i _ = none

leaf_of-absent : (k i : ℕ) → leaf_of k i absent ≡ none
unfolding leaf_of
leaf_of-absent zero i = refl
leaf_of-absent (suc k) i = refl

half : (i k : ℕ) → i / 2 ^ suc k ≡ i / 2 ^ k / 2
half i k =
    let e : 2 ^ suc k ≡ 2 ^ k * 2 = omega (arith, pow-suc 2 k) in
    ap (λ (t : ℕ). i / t) e ∙ sym (div-div-eq-div-mul i (2 ^ k) 2)

module _ (ms : Modifications) where
  -- The trees of a layer hold the modifications, at the height of the layer.
  Holds : ℕ → Layer → Type 0
  Holds k d = (i : ℕ) → leaf_of k i (get_tree (i / 2 ^ k) d) ≡ modified i ms

  dict-Holds : Holds 0 (dict_of [] ms)
  unfolding Holds leaf_of get_tree
  dict-Holds i =
      let e : i / 1 ≡ i = omega arith in
      ap (λ (j : ℕ). leaf_of 0 i (get_tree j (dict_of [] ms))) e
      ∙ (ap (λ t. leaf_of 0 i t) (get_tree-dict_of i [] ms) ∙ at (modified i ms))
    where
      at : (o : Option LeafFact) → leaf_of 0 i (or_tree o absent) ≡ o
      at none = refl
      at (some fact) = refl

  next-Holds : (k : ℕ) (d : Layer) → Holds k d → Holds (suc k) (next_layer d)
  unfolding Holds next_layer leaf_of
  next-Holds k d h i =
      let q = i / 2 ^ k in
      ap (λ (j : ℕ). leaf_of (suc k) i (get_tree j (next_layer d))) (half i k)
      ∙ (ap (λ t. leaf_of (suc k) i t) (get_tree-map (q / 2) d (parents d))
          ∙ elim (Bool-cases (member (q / 2) (parents d))) [
            | inl t ↦ rw t (elim (Bool-cases (q % 2 == 0)) [
              | inl z ↦
                  let e : q / 2 * 2 ≡ q = omega (arith, (==_iff (q % 2) 0).0 z) in
                  rw z (ap (λ (j : ℕ). leaf_of k i (get_tree j d)) e ∙ h i)
              | inr z ↦
                  let e : q / 2 * 2 + 1 ≡ q = ground arith in
                  rw z (ap (λ (j : ℕ). leaf_of k i (get_tree j d)) e ∙ h i)
            ])
            | inr f ↦ rw f (
                sym (leaf_of-absent k i)
                ∙ (ap (λ t. leaf_of k i t) (sym (get_tree-parents q d f)) ∙ h i))
          ])

  layers-Holds :
      (n k h : ℕ) (d : Layer)
      → n + k ≡ h
      → Holds k d
      → IsLayer (2 ^ n) d
      → IsLayer 1 (layers n d) × Holds h (layers n d)
  unfolding layers
  layers-Holds zero k h d e holds good =
      let level : k ≡ h = omega (arith, e) in (good, subst (λ (t : ℕ). Holds t d) level holds)
  layers-Holds (suc n) k h d e holds good =
      let p : 2 ^ suc n ≡ 2 * 2 ^ n = omega (arith, pow-suc 2 n) in
      layers-Holds n (suc k) h (next_layer d) (omega (arith, e)) (next-Holds k d holds)
        (next_layer-IsLayer (2 ^ n) d (subst (λ (t : ℕ). IsLayer t d) p good))

  top-Holds :
      (h : ℕ) (d : Layer) (t : UpdateTree) (i : ℕ)
      → d ≡ (0, t) ∷ []
      → Holds h d
      → i < 2 ^ h
      → leaf_of h i t ≡ modified i ms
  unfolding Holds get_tree
  top-Holds h d t i e holds small =
      sym (ap (λ (j : ℕ). leaf_of h i (get_tree j ((0, t) ∷ []))) (div-eq_of_lt small))
      ∙ (ap (λ x. leaf_of h i (get_tree (i / 2 ^ h) x)) (sym e) ∙ holds i)

single :
    (d : Layer) (t : UpdateTree)
    → d ≡ (0, t) ∷ []
    → (assert (length d == 1) top_layer >> root_of d) ≡ ok t
unfolding root_of
single d t e = rw e refl

-- Modifications of leaves below 2 ^ height build a tree, and the leaf that the tree has at an index is
-- the last modification of the index, or none where there is no modification.
pub build_update_tree-leaves :
    (height : ℕ) (ms : Modifications)
    → AreBelow (2 ^ height) ms
    → (t : UpdateTree) × (build_update_tree height ms ≡ ok t)
      × ((i : ℕ) → i < 2 ^ height → leaf_of height i t ≡ modified i ms)
unfolding build_update_tree modified dict_of IsBelow
build_update_tree-leaves height [] below = (absent, refl, λ i small. leaf_of-absent height i)
build_update_tree-leaves height ((k, fact) ∷ ms) (small, below) =
    let all = (k, fact) ∷ ms in
    let bottom =
      dict_of-IsLayer (2 ^ height) (put_tree k (leaf fact) []) ms
        (first-IsLayer (2 ^ height) k fact small) below in
    let (good, holds) =
      layers-Holds all height 0 height (dict_of [] all) (omega arith) (dict-Holds all) bottom in
    let (t, e) = one_item (layers height (dict_of [] all)) good in
    (t, single _ t e, λ i h. top-Holds all height _ t i e holds h)
