-- ===== src/Compiler/Simplifier/Congruent.antt =====
-- Congruence is kept by the operations of expressions, for the simplifier
-- (starkware/cairo/lang/compiler/expression_simplifier.py).
use pip_cairo_lang.Prelude.{ℕ, zero, suc, ◌/◌, ◌≡◌, Option, none, some}
use pip_cairo_lang.Prelude.Int.{ℤ, pos, negsuc, ◌+ℤ◌, ◌-ℤ◌, ◌*ℤ◌, int_laws, *ℤ_parts}
use pip_cairo_lang.Prelude.Mod.{
  *ℤ_comm, parts_of_eq, Cong, Cong-add, Cong-mul, Cong-sym, Cong-trans, Cong-mod,
}
use pip_cairo_lang.Compiler.Expr.{Operator}
use pip_cairo_lang.Compiler.Simplifier.{to_field_element, power, power_mod}
use pip_cairo_lang.Compiler.Simplifier.Reading.{
  Former, Reading, operate, to_power, Allows, modulus, Same,
}

pub Cong-refl : (p : ℕ) (a : ℤ) → Cong p a a
Cong-refl p a = (pos 0, omega (int_laws, *ℤ_parts (pos p) (pos 0)))

pub Cong-of_eq : (p : ℕ) {a b : ℤ} → a ≡ b → Cong p a b
Cong-of_eq p {a} {b} e = rw e (Cong-refl p b)

-- Modulo 0, congruence is equality.
pub eq_of-Cong : {a b : ℤ} → Cong 0 a b → a ≡ b
eq_of-Cong {a} {b} (k, e) = omega (int_laws, parts_of_eq e, *ℤ_parts (pos 0) k)

pub Cong-both : (p : ℕ) (a b c d : ℤ) → Cong p a b → Cong p c d → Cong p (a +ℤ c) (b +ℤ d)
Cong-both p a b c d h k = Cong-trans p _ (b +ℤ c) _ (Cong-add p a b c h) (
    Cong-trans p _ (d +ℤ b) _
      (Cong-trans p _ (c +ℤ b) _ (Cong-of_eq p (omega int_laws)) (Cong-add p c d b k))
      (Cong-of_eq p (omega int_laws)))

pub Cong-neg : (p : ℕ) (a b : ℤ) → Cong p a b → Cong p (pos 0 -ℤ a) (pos 0 -ℤ b)
Cong-neg p a b h =
    let minus : (x : ℤ) → negsuc 0 *ℤ x ≡ pos 0 -ℤ x =
      λ x. omega (int_laws, *ℤ_parts (negsuc 0) x) in
    rw (← minus a, ← minus b) (Cong-mul p a b (negsuc 0) h)

pub Cong-minus : (p : ℕ) (a b c d : ℤ) → Cong p a b → Cong p c d → Cong p (a -ℤ c) (b -ℤ d)
Cong-minus p a b c d h k =
    let minus : (x y : ℤ) → x +ℤ (pos 0 -ℤ y) ≡ x -ℤ y = λ x y. omega int_laws in
    rw (← minus a c, ← minus b d) (Cong-both p a b _ _ h (Cong-neg p c d k))

pub Cong-times : (p : ℕ) (a b c d : ℤ) → Cong p a b → Cong p c d → Cong p (a *ℤ c) (b *ℤ d)
Cong-times p a b c d h k =
    Cong-trans p _ (a *ℤ d) _ (Cong-mul p c d a k)
      (rw (*ℤ_comm a d, *ℤ_comm b d) (Cong-mul p a b d h))

pub power-Cong : (p : ℕ) (a b : ℤ) (n : ℕ) → Cong p a b → Cong p (power a n) (power b n)
unfolding power
power-Cong p a b zero h = Cong-refl p (pos 1)
power-Cong p a b (suc n) h = Cong-times p a b _ _ h (power-Cong p a b n h)

module _ (i : Reading) where
  -- The whole of congruent parts.
  pub apply-Same :
      (prime : Option ℕ) (f : Former) (x y x' y' : ℤ)
      → Allows i prime
      → Same prime x x'
      → Same prime y y'
      → Same prime (i.apply f x y) (i.apply f x' y')
  apply-Same none f x y x' y' fits h k =
      rw (eq_of-Cong h, eq_of-Cong k) (Cong-refl 0 (i.apply f x' y'))
  apply-Same (some p) f x y x' y' fits h k = fits.apply-Cong f x y x' y' h k

  pub form-Same :
      (prime : Option ℕ) (f : Former) (x x' : ℤ)
      → Allows i prime
      → Same prime x x'
      → Same prime (i.apply f x (pos 0)) (i.apply f x' (pos 0))
  form-Same prime f x x' fits h =
      apply-Same prime f x (pos 0) x' (pos 0) fits h (Cong-refl (modulus prime) (pos 0))

  pub operate-Same :
      (prime : Option ℕ) (op : Operator) (x y x' y' : ℤ)
      → Allows i prime
      → Same prime x x'
      → Same prime y y'
      → Same prime (operate i op x y) (operate i op x' y')
  operate-Same prime Operator.add x y x' y' fits h k = Cong-both (modulus prime) x x' y y' h k
  operate-Same prime Operator.sub x y x' y' fits h k = Cong-minus (modulus prime) x x' y y' h k
  operate-Same prime Operator.mul x y x' y' fits h k = Cong-times (modulus prime) x x' y y' h k
  operate-Same prime Operator.div x y x' y' fits h k =
      apply-Same prime Former.quotient x y x' y' fits h k

  pub to_power-Same :
      (prime : Option ℕ) (x x' y : ℤ)
      → Allows i prime
      → Same prime x x'
      → Same prime (to_power i x y) (to_power i x' y)
  to_power-Same prime x x' (pos n) fits h = power-Cong (modulus prime) x x' n h
  to_power-Same none x x' (negsuc n) fits h = rw (eq_of-Cong h) (Cong-refl 0 (i.inverse_power x' n))
  to_power-Same (some p) x x' (negsuc n) fits h = fits.inverse_power-Cong x x' n h

  -- The representative nearest to 0 is one.
  pub to_field_element-Same :
      (prime : Option ℕ) (v : ℤ) → Allows i prime → Same prime (to_field_element v prime) v
  unfolding to_field_element
  to_field_element-Same none v fits = Cong-refl 0 v
  to_field_element-Same (some p) v fits =
      let half = pos (p / 2) in
      Cong-trans p _ ((v +ℤ half) -ℤ half) _
        (Cong-minus p _ _ half half (Cong-sym p _ _ (Cong-mod p (v +ℤ half) fits.positive))
          (Cong-refl p half))
        (Cong-of_eq p (omega int_laws))

  pub power_mod-Same :
      (prime : Option ℕ) (a : ℤ) (n : ℕ)
      → Allows i prime
      → Same prime (power_mod a n prime) (power a n)
  power_mod-Same none a n fits = Cong-refl 0 (power a n)
  power_mod-Same (some p) a n fits = Cong-sym p _ _ (Cong-mod p (power a n) fits.positive)
