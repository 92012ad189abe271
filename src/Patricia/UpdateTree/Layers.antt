-- ===== src/Patricia/UpdateTree/Layers.antt =====
-- The layers of an update tree (starkware/starkware_utils/commitment_tree/update_tree.py).
use pip_cairo_lang.Prelude.{
  ℕ, zero, suc, ◌+◌, ◌*◌, ◌/◌, ◌<◌, ◌≡◌, refl, sym, ap, subst, ◌∙◌, arith, Bool, true, false, ◌||◌,
  ◌==◌, ==_iff, Bool-cases, inl, inr, List, [], ◌∷◌, map, if◌then◌else◌,
}
use pip_cairo_lang.Patricia.UpdateTree.{
  UpdateTree, absent, pair, Layer, get_tree, put_tree, member, add_to_set, parents, with_children,
  next_layer,
}

pub get_tree-put_tree :
    (i k : ℕ) (t : UpdateTree) (d : Layer)
    → get_tree i (put_tree k t d) ≡ (if i == k then t else get_tree i d)
unfolding get_tree put_tree
get_tree-put_tree i k t [] = refl
get_tree-put_tree i k t ((j, u) ∷ d) = ground (arith, get_tree-put_tree i k t d)

member_of_eq : (i k : ℕ) (js : List ℕ) → (i == k) ≡ true → member i js ≡ member k js
member_of_eq i k js e = ap (λ (t : ℕ). member t js) ((==_iff i k).0 e)

pub member-add_to_set :
    (i k : ℕ) (js : List ℕ) → member i (add_to_set k js) ≡ ((i == k) || member i js)
unfolding member
member-add_to_set i k js = elim (Bool-cases (member k js)) [
  | inl t ↦
      rw t (elim (Bool-cases (i == k)) [
        | inl e ↦ rw e (member_of_eq i k js e ∙ t)
        | inr e ↦ rw e refl
      ])
  | inr f ↦ rw f refl
]

pub get_tree-map :
    (i : ℕ) (d : Layer) (js : List ℕ)
    → get_tree i (map (with_children d) js)
      ≡ (if member i js then pair (get_tree (i * 2) d) (get_tree (i * 2 + 1) d) else absent)
unfolding get_tree member
get_tree-map i d [] = refl
get_tree-map i d (j ∷ js) = elim (Bool-cases (i == j)) [
  | inl e ↦ rw (e, (==_iff i j).0 e) refl
  | inr e ↦ rw e (get_tree-map i d js)
]

pub either_false : (a b : Bool) → (a || b) ≡ false → (a ≡ false) × (b ≡ false)
either_false true b h = absurd (cc h)
either_false false b h = (refl, h)

-- What is not under a parent is not there.
pub get_tree-parents :
    (k : ℕ) (d : Layer) → member (k / 2) (parents d) ≡ false → get_tree k d ≡ absent
unfolding get_tree parents
get_tree-parents k [] h = refl
get_tree-parents k ((j, t) ∷ d) h =
    let (other, rest) =
      either_false (k / 2 == j / 2) (member (k / 2) (parents d))
        (sym (member-add_to_set (k / 2) (j / 2) (parents d)) ∙ h) in
    let e : (k == j) ≡ false = ground arith in rw e (get_tree-parents k d rest)

-- The keys of a layer: each once, and below a bound.
abbrev pub keys : Layer → List ℕ
keys d = map (λ (item : ℕ × UpdateTree). item.0) d

unfoldable pub IsDistinct : List ℕ → Type 0
IsDistinct [] = Unit
IsDistinct (k ∷ ks) = (member k ks ≡ false) × IsDistinct ks

unfoldable pub IsBelow : ℕ → List ℕ → Type 0
IsBelow n [] = Unit
IsBelow n (k ∷ ks) = (k < n) × IsBelow n ks

abbrev pub IsFilled : List ℕ → Type 0
IsFilled [] = ⊥
IsFilled (k ∷ ks) = Unit

pub record IsLayer (n : ℕ) (d : Layer) : Type 0 where
  pub distinct : IsDistinct (keys d)
  pub below : IsBelow n (keys d)
  pub filled : IsFilled (keys d)

add-IsDistinct : (k : ℕ) (js : List ℕ) → IsDistinct js → IsDistinct (add_to_set k js)
unfolding IsDistinct
add-IsDistinct k js h = elim (Bool-cases (member k js)) [ inl t ↦ rw t h | inr f ↦ rw f (f, h) ]

add-IsBelow : (n k : ℕ) (js : List ℕ) → k < n → IsBelow n js → IsBelow n (add_to_set k js)
unfolding IsBelow
add-IsBelow n k js small h = elim (Bool-cases (member k js)) [
  | inl t ↦ rw t h
  | inr f ↦ rw f (small, h)
]

add-IsFilled : (k : ℕ) (js : List ℕ) → IsFilled (add_to_set k js)
unfolding member
add-IsFilled k [] = tt
add-IsFilled k (j ∷ js) = elim (Bool-cases (member k (j ∷ js))) [
  | inl t ↦ rw t tt
  | inr f ↦ rw f tt
]

parents-IsDistinct : (d : Layer) → IsDistinct (parents d)
unfolding parents IsDistinct
parents-IsDistinct [] = tt
parents-IsDistinct ((j, t) ∷ d) = add-IsDistinct (j / 2) (parents d) (parents-IsDistinct d)

parents-IsBelow : (n : ℕ) (d : Layer) → IsBelow (2 * n) (keys d) → IsBelow n (parents d)
unfolding parents IsBelow
parents-IsBelow n [] h = tt
parents-IsBelow n ((j, t) ∷ d) (small, h) =
    add-IsBelow n (j / 2) (parents d) (omega arith) (parents-IsBelow n d h)

parents-IsFilled : (d : Layer) → IsFilled (keys d) → IsFilled (parents d)
unfolding parents
parents-IsFilled [] h = absurd h
parents-IsFilled ((j, t) ∷ d) h = add-IsFilled (j / 2) (parents d)

keys-map : (d : Layer) (js : List ℕ) → keys (map (with_children d) js) ≡ js
keys-map d [] = refl
keys-map d (j ∷ js) = ap (λ (t : List ℕ). j ∷ t) (keys-map d js)

pub next_layer-IsLayer : (n : ℕ) (d : Layer) → IsLayer (2 * n) d → IsLayer n (next_layer d)
unfolding next_layer
next_layer-IsLayer n d h =
    let e = sym (keys-map d (parents d)) in
    record {
      distinct = subst IsDistinct e (parents-IsDistinct d);
      below = subst (IsBelow n) e (parents-IsBelow n d h.below);
      filled = subst IsFilled e (parents-IsFilled d h.filled);
    }

-- A layer of one index has one item.
pub one_item : (d : Layer) → IsLayer 1 d → (t : UpdateTree) × (d ≡ (0, t) ∷ [])
unfolding IsDistinct IsBelow member
one_item d h = items d h.distinct h.below h.filled
  where
    items :
        (d : Layer)
        → IsDistinct (keys d)
        → IsBelow 1 (keys d)
        → IsFilled (keys d)
        → (t : UpdateTree) × (d ≡ (0, t) ∷ [])
    items [] distinct below filled = absurd filled
    items ((zero, t) ∷ []) distinct below filled = (t, refl)
    items ((suc k, t) ∷ d) distinct below filled = absurd (let small = below.0 in omega arith)
    items ((zero, t) ∷ (zero, u) ∷ d) distinct below filled = absurd (cc (distinct.0))
    items ((zero, t) ∷ (suc k, u) ∷ d) distinct below filled =
        absurd (let small = below.1.0 in omega arith)
