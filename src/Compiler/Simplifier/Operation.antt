-- ===== src/Compiler/Simplifier/Operation.antt =====
-- An operator keeps its meaning when it is simplified (`visit_ExprOperator` of
-- starkware/cairo/lang/compiler/expression_simplifier.py).
use pip_cairo_lang.Prelude.{ℕ, ◌==◌, ◌≡◌, ◌≢◌, sym, ap, ◌∙◌, Option, none, some}
use pip_cairo_lang.Prelude.Int.{ℤ, pos, ◌+ℤ◌, ◌-ℤ◌, ◌*ℤ◌, ◌%ℤ◌, int_laws}
use pip_cairo_lang.Prelude.Mod.{*ℤ_comm, *ℤ_assoc, Cong, Cong-mul, Cong-trans}
use pip_cairo_lang.MathUtils.{Gcdex, IsBezout, div_mod}
use pip_cairo_lang.Compiler.Expr.{Operator, Expr}
use pip_cairo_lang.Compiler.Simplifier.{
  to_field_element, raise_if, fold_const, fold, constant_last, no_inverse, Parts, rest, by_zero,
  simplify_operator,
}
use pip_cairo_lang.Compiler.Simplifier.Reading.{
  Former, Reading, operate, meaning, IsModulo, Allows, modulus, Same,
}
use pip_cairo_lang.Compiler.Simplifier.Congruent.{
  Cong-refl, Cong-of_eq, Cong-both, to_field_element-Same,
}
use pip_cairo_lang.Compiler.Simplifier.Units.{
  Gives, bind-Gives, raise_if-Gives, div_mod-Gives, nonzero, one_times, stands, parts,
  unit_right-meaning, constant_last-meaning,
}

module _ (i : Reading) (div_one : (x : ℤ) → i.apply Former.quotient x (pos 1) ≡ x) (igcdex : Gcdex)
    (documented : IsBezout igcdex) where
  -- Multiplying with the inverse of a number is dividing by it.
  by_inverse :
      (p : ℕ) (x y inv : ℤ)
      → IsModulo i p
      → y %ℤ p ≢ 0
      → Cong p (y *ℤ inv) (pos 1)
      → Cong p (x *ℤ to_field_element inv (some p)) (i.apply Former.quotient x y)
  by_inverse p x y inv fits h unit =
      let inv' = to_field_element inv (some p) in
      let near = Cong-mul p inv' inv y (to_field_element-Same i (some p) inv fits) in
      let swap : y *ℤ (x *ℤ inv') ≡ x *ℤ (y *ℤ inv') =
        sym (*ℤ_assoc y x inv') ∙ (ap (λ t. t *ℤ inv') (*ℤ_comm y x) ∙ *ℤ_assoc x y inv') in
      let one : x *ℤ pos 1 ≡ x = *ℤ_comm x (pos 1) ∙ one_times x in
      fits.quotient-Cong (x *ℤ inv') y x h (
        Cong-trans p _ (x *ℤ pos 1) _
          (Cong-trans p _ (x *ℤ (y *ℤ inv')) _ (Cong-of_eq p swap)
            (Cong-mul p _ _ x (Cong-trans p _ (y *ℤ inv) _ near unit)))
          (Cong-of_eq p one))

  no_inverse-Same :
      (prime : Option ℕ) (q : Parts)
      → Allows i prime
      → Gives (λ q'. Same prime (parts i q') (parts i q)) (no_inverse igcdex prime q)
  unfolding no_inverse meaning
  no_inverse-Same prime (a, Operator.sub, Expr.const b) fits =
      let a' = meaning i a in
      Cong-trans (modulus prime) _ (a' +ℤ (pos 0 -ℤ b)) _
        (Cong-both (modulus prime) a' a' _ _ (Cong-refl (modulus prime) a')
          (to_field_element-Same i prime (pos 0 -ℤ b) fits))
        (Cong-of_eq (modulus prime) (omega int_laws))
  no_inverse-Same (some p) (a, Operator.div, Expr.const b) fits =
      bind-Gives _ _ (raise_if (b %ℤ p == 0)) _ (raise_if-Gives (b %ℤ p == 0)) (λ u h.
        bind-Gives _ _ (div_mod igcdex (pos 1) b p) _
          (div_mod-Gives igcdex (pos 1) b p documented fits.positive)
          (λ inv unit. by_inverse p (meaning i a) b inv fits (nonzero (b %ℤ p) h) unit))
  no_inverse-Same none (a, Operator.div, Expr.const b) fits = Cong-refl 0 _
  no_inverse-Same prime q fits = Cong-refl (modulus prime) (parts i q)

  -- What two constants are computed to, where they are.
  abbrev Folds : Option ℕ → ℤ → Option ℤ → Type 0
  Folds prime whole none = Unit
  Folds prime whole (some v) = Same prime v whole

  fold_const-Folds :
      (prime : Option ℕ) (x : ℤ) (op : Operator) (y : ℤ)
      → Allows i prime
      → Gives (Folds prime (operate i op x y)) (fold_const igcdex prime x op y)
  unfolding fold_const
  fold_const-Folds (some p) x Operator.div y fits =
      bind-Gives _ _ (raise_if (y %ℤ p == 0)) _ (raise_if-Gives (y %ℤ p == 0)) (λ u h.
        bind-Gives _ (Folds (some p) (i.apply Former.quotient x y)) (div_mod igcdex x y p) _
          (div_mod-Gives igcdex x y p documented fits.positive)
          (λ v product. fits.quotient-Cong v y x (nonzero (y %ℤ p) h) product))
  fold_const-Folds none x Operator.div y fits = tt
  fold_const-Folds none x Operator.add y fits = to_field_element-Same i none (x +ℤ y) fits
  fold_const-Folds none x Operator.sub y fits = to_field_element-Same i none (x -ℤ y) fits
  fold_const-Folds none x Operator.mul y fits = to_field_element-Same i none (x *ℤ y) fits
  fold_const-Folds (some p) x Operator.add y fits = to_field_element-Same i (some p) (x +ℤ y) fits
  fold_const-Folds (some p) x Operator.sub y fits = to_field_element-Same i (some p) (x -ℤ y) fits
  fold_const-Folds (some p) x Operator.mul y fits = to_field_element-Same i (some p) (x *ℤ y) fits

  fold-Folds :
      (prime : Option ℕ) (a : Expr) (op : Operator) (b : Expr)
      → Allows i prime
      → Gives (Folds prime (operate i op (meaning i a) (meaning i b))) (fold igcdex prime a op b)
  unfolding meaning
  fold-Folds prime (Expr.const x) op (Expr.const y) fits = fold_const-Folds prime x op y fits
  fold-Folds prime (Expr.const x) op b fits = tt
  fold-Folds prime a op b fits = tt

  rest-Same :
      (prime : Option ℕ) (a : Expr) (op : Operator) (b : Expr) (folded : Option ℤ)
      → Allows i prime
      → Folds prime (operate i op (meaning i a) (meaning i b)) folded
      → Gives
          (λ o. Same prime (stands i o) (operate i op (meaning i a) (meaning i b)))
          (rest igcdex prime a op b folded)
  unfolding meaning
  rest-Same prime a op b (some v) fits h = h
  rest-Same prime a op b none fits h =
      let q = constant_last a op b in
      bind-Gives (λ q'. Same prime (parts i q') (parts i q)) _ (no_inverse igcdex prime q) _
        (no_inverse-Same prime q fits)
        (λ q' same.
          rw (unit_right-meaning i div_one q', ← constant_last-meaning i div_one a op b) same)

  pub simplify_operator-Same :
      (prime : Option ℕ) (a : Expr) (op : Operator) (b : Expr)
      → Allows i prime
      → Gives
          (λ o. Same prime (stands i o) (operate i op (meaning i a) (meaning i b)))
          (simplify_operator igcdex prime a op b)
  unfolding simplify_operator
  simplify_operator-Same prime a op b fits =
      bind-Gives _ _ (raise_if (by_zero op b)) _ (raise_if-Gives (by_zero op b)) (λ u h.
        bind-Gives (Folds prime (operate i op (meaning i a) (meaning i b))) _
          (fold igcdex prime a op b) _ (fold-Folds prime a op b fits)
          (λ folded k. rest-Same prime a op b folded fits k))
