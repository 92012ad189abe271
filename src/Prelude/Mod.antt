-- ===== src/Prelude/Mod.antt =====
-- Python's integers as a ring, and congruence modulo a positive number.
use Prim.Native.Nat.{ℕ, ◌+◌, ◌-◌, ◌*◌, ◌/◌, ◌%◌, ◌<◌}
use mathlib.Core.Path.{◌≡◌, sym, ap, ◌∙◌}
use native.Mathlib.Omega.{arith}
use native.Mathlib.Nat.{mod-lt, mod-eq_of_lt, div-add-mod, add-mul-mod_self_left}
use pip_cairo_lang.Prelude.Int.{
  ℤ, pos, negsuc, pos_part, neg_part, ◌+ℤ◌, ◌-ℤ◌, ◌*ℤ◌, ◌%ℤ◌, int_laws, +ℤ_parts, -ℤ_parts,
  *ℤ_parts,
}

pub *ℤ_comm : (a b : ℤ) → a *ℤ b ≡ b *ℤ a
*ℤ_comm a b = omega (int_laws, *ℤ_parts a b, *ℤ_parts b a)

pub *ℤ_distrib : (a b c : ℤ) → a *ℤ (b +ℤ c) ≡ a *ℤ b +ℤ a *ℤ c
*ℤ_distrib a b c = omega (
  int_laws,
  *ℤ_parts a (b +ℤ c),
  *ℤ_parts a b,
  *ℤ_parts a c,
  ap (λ (t : ℕ). pos_part a * t) (+ℤ_parts b c),
  ap (λ (t : ℕ). neg_part a * t) (+ℤ_parts b c),
)

pub *ℤ_assoc : (a b c : ℤ) → a *ℤ b *ℤ c ≡ a *ℤ (b *ℤ c)
*ℤ_assoc a b c = omega (
  int_laws,
  *ℤ_parts (a *ℤ b) c,
  *ℤ_parts a (b *ℤ c),
  ap (λ (t : ℕ). t * pos_part c) (*ℤ_parts a b),
  ap (λ (t : ℕ). t * neg_part c) (*ℤ_parts a b),
  ap (λ (t : ℕ). pos_part a * t) (*ℤ_parts b c),
  ap (λ (t : ℕ). neg_part a * t) (*ℤ_parts b c),
)

-- An equation of integers, as an equation of their parts.
pub parts_of_eq : {a b : ℤ} → a ≡ b → pos_part a + neg_part b ≡ pos_part b + neg_part a
parts_of_eq {a} {b} e = omega (arith, ap pos_part e, ap neg_part e)

-- The quotient that Python's `%` leaves.
abbrev quotient : ℤ → ℕ → ℤ
quotient (pos n) p = pos (n / p)
quotient (negsuc n) p = negsuc (n / p)

pub %ℤ-lt : (a : ℤ) (p : ℕ) → 0 < p → a %ℤ p < p
unfolding ◌%ℤ◌
%ℤ-lt (pos n) p h = omega arith
%ℤ-lt (negsuc n) p h = omega arith

div_mod_parts : (a : ℤ) (p : ℕ) → 0 < p → a ≡ pos (a %ℤ p) +ℤ pos p *ℤ quotient a p
unfolding ◌%ℤ◌
div_mod_parts (pos n) p h = omega (int_laws, *ℤ_parts (pos p) (pos (n / p)), div-add-mod n p)
div_mod_parts (negsuc n) p h =
    omega (int_laws, *ℤ_parts (pos p) (negsuc (n / p)), div-add-mod n p, mod-lt n h)

pub nat_unique : (n p r q : ℕ) → r < p → n ≡ r + p * q → n % p ≡ r
nat_unique n p r q h e = ap (λ (t : ℕ). t % p) e ∙ (add-mul-mod_self_left r p q ∙ mod-eq_of_lt h)

unique : (a k : ℤ) (p r : ℕ) → r < p → a ≡ pos r +ℤ pos p *ℤ k → a %ℤ p ≡ r
unfolding ◌%ℤ◌
unique (pos n) (pos m) p r h e =
    nat_unique n p r m h (omega (int_laws, *ℤ_parts (pos p) (pos m), ap pos_part e, ap neg_part e))
unique (pos n) (negsuc m) p r h e =
    absurd (omega (int_laws, *ℤ_parts (pos p) (negsuc m), ap pos_part e, ap neg_part e))
unique (negsuc n) (pos m) p r h e =
    absurd (omega (int_laws, *ℤ_parts (pos p) (pos m), ap pos_part e, ap neg_part e))
unique (negsuc n) (negsuc m) p r h e =
    let e' : n ≡ p - 1 - r + p * m =
      omega (int_laws, *ℤ_parts (pos p) (negsuc m), ap pos_part e, ap neg_part e) in
    omega (arith, nat_unique n p (p - 1 - r) m (omega arith) e')

-- Two integers that differ by a multiple of `p`.
abbrev pub Cong : ℕ → ℤ → ℤ → Type 0
Cong p a b = (k : ℤ) × (a ≡ b +ℤ pos p *ℤ k)

pub %ℤ-Cong : (p : ℕ) (a b : ℤ) → 0 < p → Cong p a b → a %ℤ p ≡ b %ℤ p
%ℤ-Cong p a b h (k, e) =
    let q = quotient b p in
    unique a (q +ℤ k) p (b %ℤ p) (%ℤ-lt b p h) (
      omega (
        int_laws,
        parts_of_eq e,
        parts_of_eq (div_mod_parts b p h),
        parts_of_eq (*ℤ_distrib (pos p) q k),
      ))

pub Cong-mod : (p : ℕ) (a : ℤ) → 0 < p → Cong p a (pos (a %ℤ p))
Cong-mod p a h = (quotient a p, div_mod_parts a p h)

pub Cong-sym : (p : ℕ) (a b : ℤ) → Cong p a b → Cong p b a
Cong-sym p a b (k, e) = (
  pos 0 -ℤ k,
  omega (
    int_laws,
    parts_of_eq e,
    *ℤ_parts (pos p) (pos 0 -ℤ k),
    *ℤ_parts (pos p) k,
    ap (λ (t : ℕ). p * t) (-ℤ_parts (pos 0) k),
  ),
)

pub Cong-add : (p : ℕ) (a b c : ℤ) → Cong p a b → Cong p (a +ℤ c) (b +ℤ c)
Cong-add p a b c (k, e) = (k, omega (int_laws, parts_of_eq e))

pub Cong-mul : (p : ℕ) (a b c : ℤ) → Cong p a b → Cong p (c *ℤ a) (c *ℤ b)
Cong-mul p a b c (k, e) = (
  c *ℤ k,
  ap (λ (t : ℤ). c *ℤ t) e
      ∙ (*ℤ_distrib c b (pos p *ℤ k)
          ∙ ap (λ (t : ℤ). c *ℤ b +ℤ t)
              (sym (*ℤ_assoc c (pos p) k)
                ∙ (ap (λ (t : ℤ). t *ℤ k) (*ℤ_comm c (pos p)) ∙ *ℤ_assoc (pos p) c k))),
)

pub Cong-trans : (p : ℕ) (a b c : ℤ) → Cong p a b → Cong p b c → Cong p a c
Cong-trans p a b c (k, e) (m, f) =
    (m +ℤ k, omega (int_laws, parts_of_eq e, parts_of_eq f, parts_of_eq (*ℤ_distrib (pos p) m k)))

-- A remainder may stand for its number under `%`.
pub mod_mod : (p : ℕ) (a c : ℤ) → 0 < p → (pos (a %ℤ p) +ℤ c) %ℤ p ≡ (a +ℤ c) %ℤ p
mod_mod p a c h =
    %ℤ-Cong p _ _ h (Cong-add p (pos (a %ℤ p)) a c (Cong-sym p a (pos (a %ℤ p)) (Cong-mod p a h)))

pub mod_small : (p n : ℕ) → n < p → pos n %ℤ p ≡ n
unfolding ◌%ℤ◌
mod_small p n h = mod-eq_of_lt h
