-- ===== src/RegTracking/Laws.antt =====
-- What a tracked change says of the change at run time
-- (starkware/cairo/lang/compiler/preprocessor/reg_tracking.py).
use pip_cairo_lang.Prelude.{◌≡◌, refl, sym, ap, ◌∙◌, ◌↔◌, false, Bool-cases, inl, inr}
use pip_cairo_lang.Prelude.Int.{ℤ, ◌+ℤ◌, ◌-ℤ◌, eqb_ℤ, eqb_ℤ_iff, int_laws}
use pip_cairo_lang.Prelude.Mod.{parts_of_eq}
use pip_cairo_lang.Result.{ok}
use pip_cairo_lang.RegTracking.{
  RegChange, unconstrained, unknown, known, meet, add, RegTrackingData, sub_tracking,
}

-- The changes that a RegChange allows: none where no path comes, any, or one.
abbrev pub Admits : RegChange → ℤ → Type 0
Admits unconstrained x = ⊥
Admits unknown x = Unit {0}
Admits (known n) x = x ≡ n

-- `c` allows whatever `a` does.
abbrev pub Covers : RegChange → RegChange → Type 0
Covers c a = (x : ℤ) → Admits a x → Admits c x

Covers-known : (c : RegChange) (n : ℤ) → Admits c n → Covers c (known n)
Covers-known c n h x e = rw e h

-- A change that covers two different ones covers all.
Covers-unknown :
    (c : RegChange) (m n : ℤ) → eqb_ℤ m n ≡ false → Admits c m → Admits c n → Covers c unknown
Covers-unknown unconstrained m n t h k x u = h
Covers-unknown unknown m n t h k x u = tt
Covers-unknown (known k) m n t h g x u = absurd (cc (t, (eqb_ℤ_iff m n).1 (h ∙ sym g)))

-- `a & b` is the least change that covers both a and b, so it is what is known at a point that two
-- paths lead to.
pub meet-Covers : (a b c : RegChange) → Covers c (meet a b) ↔ (Covers c a × Covers c b)
unfolding meet
meet-Covers unconstrained b c = (λ h. (λ x u. absurd u, h), λ h. h.1)
meet-Covers unknown b c = (λ h. (h, λ x u. h x tt), λ h. h.0)
meet-Covers (known m) unknown c = (λ h. (λ x u. h x tt, h), λ h. h.1)
meet-Covers (known m) unconstrained c = (λ h. (h, λ x u. absurd u), λ h. h.0)
meet-Covers (known m) (known n) c = elim (Bool-cases (eqb_ℤ m n)) [
  | inl t ↦ let e : m ≡ n = (eqb_ℤ_iff m n).0 t in rw t (λ h. (h, λ x u. h x (u ∙ sym e)), λ h. h.0)
  | inr t ↦
      rw t
        (λ h. (λ x u. h x tt, λ x u. h x tt), λ h. Covers-unknown c m n t (h.0 m refl) (h.1 n refl))
]

-- Two changes one after the other make the sum, and `+` does not fail on changes that happen.
pub add-Admits :
    (a b : RegChange) (x y : ℤ)
    → Admits a x
    → Admits b y
    → (c : RegChange) × (add a b ≡ ok c) × Admits c (x +ℤ y)
unfolding add
add-Admits unconstrained b x y h k = absurd h
add-Admits unknown b x y h k = (unknown, refl, tt)
add-Admits (known m) (known n) x y h k = (known (m +ℤ n), refl, rw (h, k) refl)
add-Admits (known m) unknown x y h k = (unknown, refl, tt)
add-Admits (known m) unconstrained x y h k = absurd k

-- A register has the value `v`, where `start` is what it was when each group began.
abbrev pub Tracks : (ℤ → ℤ) → RegTrackingData → ℤ → Type 0
Tracks start t v = v ≡ start t.group +ℤ t.offset

-- The difference of two tracked values is one that `a - b` allows.
pub sub_tracking-Admits :
    (start : ℤ → ℤ) (a b : RegTrackingData) (v w : ℤ)
    → Tracks start a v
    → Tracks start b w
    → Admits (sub_tracking a b) (v -ℤ w)
unfolding sub_tracking
sub_tracking-Admits start a b v w h k = elim (Bool-cases (eqb_ℤ a.group b.group)) [
  | inl t ↦
      let same : start a.group ≡ start b.group = ap start ((eqb_ℤ_iff _ _).0 t) in
      rw t (omega (int_laws, parts_of_eq h, parts_of_eq k, parts_of_eq same))
  | inr t ↦ rw t tt
]
