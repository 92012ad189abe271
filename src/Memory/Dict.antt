-- ===== src/Memory/Dict.antt =====
-- A Python dict from addresses to values, as the list of its items in the order of insertion.
use pip_cairo_lang.Prelude.{
  ◌≡◌, refl, Bool, true, false, Option, none, some, List, [], ◌∷◌, arith, if◌then◌else◌,
}
use pip_cairo_lang.Value.{MaybeRelocatable, eqb, eqb_iff}

abbrev pub Cells : Type 0
Cells = List (MaybeRelocatable × MaybeRelocatable)

-- `data.get(addr)`
unfoldable pub lookup : MaybeRelocatable → Cells → Option MaybeRelocatable
lookup a [] = none
lookup a ((b, v) ∷ d) = if eqb a b then some v else lookup a d

-- `addr in data`
abbrev pub contains : MaybeRelocatable → Cells → Bool
contains a d = elim (lookup a d) [ none ↦ false | some _ ↦ true ]

-- `data[addr] = value`: a new key goes to the end, an old one keeps its place.
unfoldable pub store : MaybeRelocatable → MaybeRelocatable → Cells → Cells
store a v [] = (a, v) ∷ []
store a v ((b, w) ∷ d) = if eqb a b then (b, v) ∷ d else (b, w) ∷ store a v d

pub eqb_refl : (a : MaybeRelocatable) → eqb a a ≡ true
eqb_refl a = (eqb_iff a a).1 refl

pub lookup-store :
    (k a v : MaybeRelocatable) (d : Cells)
    → lookup k (store a v d) ≡ (if eqb k a then some v else lookup k d)
unfolding lookup store
lookup-store k a v [] = refl
lookup-store k a v ((b, w) ∷ d) =
    ground (arith, eqb_iff k a, eqb_iff k b, eqb_iff a b, lookup-store k a v d)
