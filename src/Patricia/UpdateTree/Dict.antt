-- ===== src/Patricia/UpdateTree/Dict.antt =====
-- The bottom layer of an update tree (starkware/starkware_utils/commitment_tree/update_tree.py).
use pip_cairo_lang.Prelude.{
  ℕ, ◌<◌, ◌≡◌, refl, sym, ap, ◌∙◌, arith, Bool, true, false, ◌||◌, ◌==◌, ==_iff, Bool-cases, inl,
  inr, Option, none, some, [], ◌∷◌, map, if◌then◌else◌,
}
use pip_cairo_lang.Patricia.Nodes.{LeafFact}
use pip_cairo_lang.Patricia.UpdateTree.{
  UpdateTree, leaf, Modifications, Layer, get_tree, put_tree, dict_of, member,
}
use pip_cairo_lang.Patricia.UpdateTree.Layers.{
  get_tree-put_tree, keys, IsDistinct, IsBelow, IsFilled, IsLayer,
}

abbrev or_before : Option LeafFact → Option LeafFact → Option LeafFact
or_before (some fact) earlier = some fact
or_before none earlier = earlier

-- the last modification of an index
unfoldable pub modified : ℕ → Modifications → Option LeafFact
modified i [] = none
modified i ((k, fact) ∷ ms) = or_before (modified i ms) (if i == k then some fact else none)

abbrev pub or_tree : Option LeafFact → UpdateTree → UpdateTree
or_tree (some fact) t = leaf fact
or_tree none t = t

-- The last modification of an index is in the dictionary.
pub get_tree-dict_of :
    (i : ℕ) (d : Layer) (ms : Modifications)
    → get_tree i (dict_of d ms) ≡ or_tree (modified i ms) (get_tree i d)
unfolding dict_of modified
get_tree-dict_of i d [] = refl
get_tree-dict_of i d ((k, fact) ∷ ms) =
    get_tree-dict_of i (put_tree k (leaf fact) d) ms
    ∙ (ap (λ t. or_tree (modified i ms) t) (get_tree-put_tree i k (leaf fact) d)
        ∙ at (modified i ms) (i == k))
  where
    at :
        (o : Option LeafFact) (b : Bool)
        → or_tree o (if b then leaf fact else get_tree i d)
          ≡ or_tree (or_before o (if b then some fact else none)) (get_tree i d)
    at (some f) b = refl
    at none true = refl
    at none false = refl

member-put_tree :
    (j k : ℕ) (t : UpdateTree) (d : Layer)
    → member j (keys (put_tree k t d)) ≡ ((j == k) || member j (keys d))
unfolding member put_tree
member-put_tree j k t [] = refl
member-put_tree j k t ((i, u) ∷ d) = elim (Bool-cases (k == i)) [
  | inl e ↦ rw (e, (==_iff k i).0 e) (sym (twice (j == i) (member j (keys d))))
  | inr f ↦ rw (f, member-put_tree j k t d) (swap (j == i) (j == k) (member j (keys d)))
]
  where
    twice : (a b : Bool) → (a || (a || b)) ≡ (a || b)
    twice true b = refl
    twice false b = refl

    swap : (a b c : Bool) → (a || (b || c)) ≡ (b || (a || c))
    swap true true c = refl
    swap true false c = refl
    swap false true c = refl
    swap false false c = refl

put_tree-IsBelow :
    (n k : ℕ) (t : UpdateTree) (d : Layer)
    → k < n
    → IsBelow n (keys d)
    → IsBelow n (keys (put_tree k t d))
unfolding put_tree IsBelow
put_tree-IsBelow n k t [] small h = (small, tt)
put_tree-IsBelow n k t ((i, u) ∷ d) small (hi, h) = elim (Bool-cases (k == i)) [
  | inl e ↦ rw e (hi, h)
  | inr f ↦ rw f (hi, put_tree-IsBelow n k t d small h)
]

put_tree-IsDistinct :
    (k : ℕ) (t : UpdateTree) (d : Layer) → IsDistinct (keys d) → IsDistinct (keys (put_tree k t d))
unfolding put_tree IsDistinct member
put_tree-IsDistinct k t [] h = (refl, tt)
put_tree-IsDistinct k t ((i, u) ∷ d) (hi, h) = elim (Bool-cases (k == i)) [
  | inl e ↦ rw e (hi, h)
  | inr f ↦
      let g : (i == k) ≡ false = ground arith in
      rw f (member-put_tree i k t d ∙ rw g hi, put_tree-IsDistinct k t d h)
]

put_tree-IsFilled : (k : ℕ) (t : UpdateTree) (d : Layer) → IsFilled (keys (put_tree k t d))
unfolding put_tree
put_tree-IsFilled k t [] = tt
put_tree-IsFilled k t ((i, u) ∷ d) = elim (Bool-cases (k == i)) [
  | inl e ↦ rw e tt
  | inr f ↦ rw f tt
]

-- The modified indices are below a bound.
abbrev pub AreBelow : ℕ → Modifications → Type 0
AreBelow n ms = IsBelow n (map (λ (m : ℕ × LeafFact). m.0) ms)

put_tree-IsLayer :
    (n k : ℕ) (t : UpdateTree) (d : Layer)
    → k < n
    → IsDistinct (keys d)
    → IsBelow n (keys d)
    → IsLayer n (put_tree k t d)
put_tree-IsLayer n k t d small distinct below = record {
  distinct = put_tree-IsDistinct k t d distinct;
  below = put_tree-IsBelow n k t d small below;
  filled = put_tree-IsFilled k t d;
}

pub dict_of-IsLayer :
    (n : ℕ) (d : Layer) (ms : Modifications)
    → IsLayer n d
    → AreBelow n ms
    → IsLayer n (dict_of d ms)
unfolding dict_of IsBelow
dict_of-IsLayer n d [] h below = h
dict_of-IsLayer n d ((k, fact) ∷ ms) h (small, below) =
    dict_of-IsLayer n (put_tree k (leaf fact) d) ms
      (put_tree-IsLayer n k (leaf fact) d small h.distinct h.below) below

pub first-IsLayer : (n k : ℕ) (fact : LeafFact) → k < n → IsLayer n (put_tree k (leaf fact) [])
unfolding IsDistinct IsBelow
first-IsLayer n k fact small = put_tree-IsLayer n k (leaf fact) [] small tt tt
