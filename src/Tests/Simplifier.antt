-- ===== src/Tests/Simplifier.antt =====
-- starkware/cairo/lang/compiler/expression_simplifier.py at an expression in the field of 3 elements.
use pip_cairo_lang.Prelude.{ℕ, ◌<◌, ◌≢◌, ◌≡◌, refl, sym, ap, ◌∙◌, arith, suc, some, ◌⊎◌, inl, inr}
use pip_cairo_lang.Prelude.Int.{ℤ, pos, negsuc, ◌+ℤ◌, ◌-ℤ◌, ◌*ℤ◌, ◌%ℤ◌, int_laws, *ℤ_parts}
use pip_cairo_lang.Prelude.Mod.{
  *ℤ_comm, *ℤ_assoc, %ℤ-lt, Cong, Cong-mul, Cong-sym, Cong-trans, Cong-mod,
}
use pip_cairo_lang.Result.{ok, err, recursion_error}
use pip_cairo_lang.Instruction.{Register}
use pip_cairo_lang.MathUtils.{Gcdex, IsBezout, div_mod}
use pip_cairo_lang.Compiler.Expr.{Operator, Expr}
use pip_cairo_lang.Compiler.Simplifier.{
  to_field_element, fold_const, no_inverse, rotate, unit_left, unit_right, simplify_operator, power,
  visit,
}
use pip_cairo_lang.Compiler.Simplifier.Weight.{weight}
use pip_cairo_lang.Compiler.Simplifier.Total.{visit-ends}
use pip_cairo_lang.Compiler.Simplifier.Reading.{Former, Reading, meaning, IsModulo, Same}
use pip_cairo_lang.Compiler.Simplifier.Congruent.{Cong-refl, Cong-of_eq, Cong-times, power-Cong}
use pip_cairo_lang.Compiler.Simplifier.Sound.{visit-keeps}

-- Coefficients that serve for -1 and 3: -1 * 2 + 3 * 1 = 1.
abbrev gcdex_2_3 : Gcdex
gcdex_2_3 x y = (pos 2, pos 1, x *ℤ pos 2 +ℤ y *ℤ pos 1)

gcdex_2_3-IsBezout : IsBezout gcdex_2_3
gcdex_2_3-IsBezout = record { bezout = λ x y. refl }

-- Modulo 3 the inverse of a number is the number.
abbrev form_3 : Former → ℤ → ℤ → ℤ
form_3 Former.quotient x y = x *ℤ y
form_3 _ x y = x

abbrev reading_3 : Reading
reading_3 = record { atom = λ a. pos 7; apply = form_3; inverse_power = λ x n. power x (suc n) }

form_3-Cong :
    (f : Former) (x y x' y' : ℤ)
    → Cong 3 x x'
    → Cong 3 y y'
    → Cong 3 (form_3 f x y) (form_3 f x' y')
form_3-Cong Former.quotient x y x' y' h k = Cong-times 3 x x' y y' h k
form_3-Cong _ x y x' y' h k = h

times_one : (x : ℤ) → x *ℤ pos 1 ≡ x
times_one x = omega (int_laws, *ℤ_parts x (pos 1))

one_or_two : (n : ℕ) → n < 3 → n ≢ 0 → (n ≡ 1) ⊎ (n ≡ 2)
one_or_two n h k = ground arith

square : (y : ℤ) → y %ℤ 3 ≢ 0 → Cong 3 (y *ℤ y) (pos 1)
square y h =
    let r = y %ℤ 3 in
    let near = Cong-mod 3 y (omega arith) in
    let same = Cong-times 3 y (pos r) y (pos r) near near in
    elim (one_or_two r (%ℤ-lt y 3 (omega arith)) h) [
      | inl e ↦
          Cong-trans 3 _ (pos r *ℤ pos r) _ same
            (rw e (Cong-of_eq 3 (omega (int_laws, *ℤ_parts (pos 1) (pos 1)))))
      | inr e ↦
          Cong-trans 3 _ (pos r *ℤ pos r) _ same
            (rw e (pos 1, omega (int_laws, *ℤ_parts (pos 2) (pos 2), *ℤ_parts (pos 3) (pos 1))))
    ]

quotient_3 : (x y z : ℤ) → y %ℤ 3 ≢ 0 → Cong 3 (y *ℤ x) z → Cong 3 x (z *ℤ y)
quotient_3 x y z h k =
    let swap : x *ℤ (y *ℤ y) ≡ y *ℤ x *ℤ y =
      sym (*ℤ_assoc x y y) ∙ ap (λ (t : ℤ). t *ℤ y) (*ℤ_comm x y) in
    let back : Cong 3 (x *ℤ (y *ℤ y)) x =
      Cong-trans 3 _ (x *ℤ pos 1) _ (Cong-mul 3 _ _ x (square y h)) (Cong-of_eq 3 (times_one x)) in
    Cong-trans 3 _ (x *ℤ (y *ℤ y)) _ (Cong-sym 3 _ _ back)
      (Cong-trans 3 _ (y *ℤ x *ℤ y) _ (Cong-of_eq 3 swap) (Cong-times 3 _ z y y k (Cong-refl 3 y)))

reading_3-IsModulo : IsModulo reading_3 3
reading_3-IsModulo = record {
  positive = omega arith;
  apply-Cong = form_3-Cong;
  inverse_power-Cong = λ x x' n h. power-Cong 3 x x' (suc n) h;
  quotient-Cong = quotient_3;
}

-- "((5 + fp) - 1) / 2"
abbrev expression : Expr
expression =
    Expr.operator
      (Expr.operator (Expr.operator (Expr.const (pos 5)) Operator.add (Expr.reg Register.fp))
        Operator.sub (Expr.const (pos 1)))
      Operator.div (Expr.const (pos 2))

-- "(fp + 1) * (-1)"
abbrev simplified : Expr
simplified =
    Expr.operator (Expr.operator (Expr.reg Register.fp) Operator.add (Expr.const (pos 1)))
      Operator.mul (Expr.const (negsuc 0))

expression_visited : visit gcdex_2_3 16 (some 3) expression ≡ ok simplified
unfolding visit to_field_element fold_const no_inverse rotate unit_left unit_right simplify_operator
    div_mod ◌+ℤ◌ ◌-ℤ◌ ◌*ℤ◌ ◌%ℤ◌
expression_visited = refl

light : weight expression < 16
unfolding weight
light = omega arith

visit-ends_example : visit gcdex_2_3 16 (some 3) expression ≢ err recursion_error
visit-ends_example = visit-ends gcdex_2_3 16 (some 3) expression light

visit-keeps_example : Same (some 3) (meaning reading_3 simplified) (meaning reading_3 expression)
visit-keeps_example =
    visit-keeps reading_3 times_one gcdex_2_3 gcdex_2_3-IsBezout 16 (some 3) expression simplified
      reading_3-IsModulo expression_visited
