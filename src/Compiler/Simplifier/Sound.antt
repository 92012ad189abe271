-- ===== src/Compiler/Simplifier/Sound.antt =====
-- The simplifier keeps the meaning of expressions
-- (starkware/cairo/lang/compiler/expression_simplifier.py).
use pip_cairo_lang.Prelude.{ℕ, zero, suc, ◌≡◌, subst, Option, none}
use pip_cairo_lang.Prelude.Int.{ℤ, pos, negsuc, ◌-ℤ◌}
use pip_cairo_lang.Prelude.Mod.{Cong-trans}
use pip_cairo_lang.Result.{Result, ok, err, ok-injective, ◌>>=◌}
use pip_cairo_lang.MathUtils.{Gcdex, IsBezout}
use pip_cairo_lang.Compiler.Expr.{Expr, ArgList}
use pip_cairo_lang.Compiler.Simplifier.{
  Outcome, done, again, simplify_operator, simplify_pow, simplify_neg, visit, visit_arg_list,
}
use pip_cairo_lang.Compiler.Simplifier.Reading.{
  Former, Reading, operate, to_power, meaning, meaning_args, Allows, modulus, Same,
}
use pip_cairo_lang.Compiler.Simplifier.Congruent.{
  Cong-refl, Cong-neg, eq_of-Cong, apply-Same, form-Same, operate-Same, to_power-Same,
  to_field_element-Same, power_mod-Same,
}
use pip_cairo_lang.Compiler.Simplifier.Units.{Gives, bind-Gives, map-Gives, stands}
use pip_cairo_lang.Compiler.Simplifier.Operation.{simplify_operator-Same}

Gives_value : {A : Type 0} (P : A → Type 0) (m : Result A) (v : A) → Gives P m → m ≡ ok v → P v
Gives_value P (ok w) v h e = subst P (ok-injective e) h
Gives_value P (err _) v h e = absurd (cc e)

module _ (i : Reading) where
  simplify_pow-Same :
      (prime : Option ℕ) (a b : Expr)
      → Allows i prime
      → Gives
          (λ r. Same prime (meaning i r) (to_power i (meaning i a) (meaning i b)))
          (simplify_pow prime a b)
  unfolding simplify_pow meaning
  simplify_pow-Same prime (Expr.const x) (Expr.const (pos n)) fits = power_mod-Same i prime x n fits
  simplify_pow-Same prime (Expr.const x) (Expr.const (negsuc n)) fits = tt
  simplify_pow-Same prime (Expr.const x) b fits = Cong-refl (modulus prime) _
  simplify_pow-Same prime a b fits = Cong-refl (modulus prime) _

  simplify_neg-Same :
      (prime : Option ℕ) (a : Expr)
      → Allows i prime
      → Same prime (meaning i (simplify_neg prime a)) (pos 0 -ℤ meaning i a)
  unfolding simplify_neg meaning
  simplify_neg-Same prime (Expr.const x) fits = to_field_element-Same i prime (pos 0 -ℤ x) fits
  simplify_neg-Same prime a fits = Cong-refl (modulus prime) _

  -- An expression with the meaning `v`.
  abbrev Means : Option ℕ → ℤ → Expr → Type 0
  Means prime v r = Same prime (meaning i r) v

  abbrev ArgsMean : Option ℕ → ℤ → ArgList → Type 0
  ArgsMean prime v r = Same prime (meaning_args i r) v

  -- A power of operands that have been simplified, the exponent as an integer.
  raised :
      (prime : Option ℕ) (a b : Expr) (x y : ℤ)
      → Allows i prime
      → Same prime (meaning i a) x
      → meaning i b ≡ y
      → Gives (λ r. Same prime (meaning i r) (to_power i x y)) (simplify_pow prime a b)
  raised prime a b x y fits h e =
      map-Gives (Means prime (to_power i (meaning i a) (meaning i b)))
        (Means prime (to_power i x y)) (simplify_pow prime a b)
        (λ r k.
          Cong-trans (modulus prime) _ (to_power i (meaning i a) (meaning i b)) _ k
            (rw e (to_power-Same i prime (meaning i a) x y fits h)))
        (simplify_pow-Same prime a b fits)

  wrap-Means :
      (prime : Option ℕ) (v w : ℤ) (m : Result Expr) (f : Expr → Expr)
      → Gives (Means prime v) m
      → ((r : Expr) → Same prime (meaning i r) v → Same prime (meaning i (f r)) w)
      → Gives (Means prime w) (m >>= λ r. ok (f r))
  wrap-Means prime v w m f h k = bind-Gives (Means prime v) (Means prime w) m _ h k

  outcome-Means :
      (prime : Option ℕ) (v : ℤ) (o : Outcome) (visit_again : Expr → Result Expr)
      → Same prime (stands i o) v
      → ((e : Expr) → Gives (Means prime (meaning i e)) (visit_again e))
      → Gives (Means prime v) (elim o [ done r ↦ ok r | again next ↦ visit_again next ])
  outcome-Means prime v (done r) visit_again h ih = h
  outcome-Means prime v (again e) visit_again h ih =
      map-Gives (Means prime (meaning i e)) (Means prime v) (visit_again e)
        (λ r k. Cong-trans (modulus prime) _ _ _ k h) (ih e)

  module _ (div_one : (x : ℤ) → i.apply Former.quotient x (pos 1) ≡ x) (igcdex : Gcdex)
      (documented : IsBezout igcdex) where
    mutual
      unfolding visit meaning

      visit-Means :
          (n : ℕ) (prime : Option ℕ) (e : Expr)
          → Allows i prime
          → Gives (Means prime (meaning i e)) (visit igcdex n prime e)
      visit-Means zero prime e fits = tt
      visit-Means (suc n) prime (Expr.const val) fits = to_field_element-Same i prime val fits
      visit-Means (suc n) prime (Expr.operator a op b) fits =
          let A = meaning i a in
          let B = meaning i b in
          bind-Gives (Means prime A) _ (visit igcdex n prime a) _ (visit-Means n prime a fits)
            (λ a' ha.
              bind-Gives (Means prime B) _ (visit igcdex n prime b) _ (visit-Means n prime b fits)
                (λ b' hb.
                  bind-Gives _ _ (simplify_operator igcdex prime a' op b') _
                    (simplify_operator-Same i div_one igcdex documented prime a' op b' fits)
                    (λ o ho.
                      outcome-Means prime (operate i op A B) o (visit igcdex n prime)
                        (Cong-trans (modulus prime) _ _ _ ho
                          (operate-Same i prime op (meaning i a') (meaning i b') A B fits ha hb))
                        (λ next. visit-Means n prime next fits))))
      visit-Means (suc n) prime (Expr.pow a b) fits =
          let A = meaning i a in
          let B = meaning i b in
          bind-Gives (Means prime A) _ (visit igcdex n prime a) _ (visit-Means n prime a fits)
            (λ a' ha.
              bind-Gives (Means none B) (Means prime (to_power i A B)) (visit igcdex n none b) _
                (visit-Means n none b tt) (λ b' hb. raised prime a' b' A B fits ha (eq_of-Cong hb)))
      visit-Means (suc n) prime (Expr.subscript a b) fits =
          let A = meaning i a in
          let B = meaning i b in
          bind-Gives (Means prime A) _ (visit igcdex n prime a) _ (visit-Means n prime a fits)
            (λ a' ha.
              bind-Gives (Means prime B) _ (visit igcdex n prime b) _ (visit-Means n prime b fits)
                (λ b' hb. apply-Same i prime Former.subscript _ _ A B fits ha hb))
      visit-Means (suc n) prime (Expr.neg e) fits =
          bind-Gives (Means prime (meaning i e)) _ (visit igcdex n prime e) _
            (visit-Means n prime e fits)
            (λ r h.
              Cong-trans (modulus prime) _ _ _ (simplify_neg-Same prime r fits)
                (Cong-neg (modulus prime) _ _ h))
      visit-Means (suc n) prime (Expr.parentheses e) fits = visit-Means n prime e fits
      visit-Means (suc n) prime (Expr.tuple members) fits =
          bind-Gives (ArgsMean prime (meaning_args i members)) _
            (visit_arg_list igcdex n prime members) _ (visit_arg_list-Mean n prime members fits)
            (λ r h. form-Same i prime Former.tuple _ _ fits h)
      visit-Means (suc n) prime (Expr.address_of e) fits =
          wrap-Means prime _ _ (visit igcdex n prime e) (λ r. Expr.address_of r)
            (visit-Means n prime e fits) (λ r h. form-Same i prime Former.address_of _ _ fits h)
      visit-Means (suc n) prime (Expr.deref e) fits =
          wrap-Means prime _ _ (visit igcdex n prime e) (λ r. Expr.deref r)
            (visit-Means n prime e fits) (λ r h. form-Same i prime Former.deref _ _ fits h)
      visit-Means (suc n) prime (Expr.dot e member) fits =
          wrap-Means prime _ _ (visit igcdex n prime e) (λ r. Expr.dot r member)
            (visit-Means n prime e fits) (λ r h. form-Same i prime (Former.dot member) _ _ fits h)
      visit-Means (suc n) prime (Expr.cast e) fits =
          wrap-Means prime _ _ (visit igcdex n prime e) (λ r. Expr.cast r)
            (visit-Means n prime e fits) (λ r h. form-Same i prime Former.cast _ _ fits h)
      visit-Means (suc n) prime (Expr.symbolic e) fits =
          wrap-Means prime _ _ (visit igcdex n prime e) (λ r. Expr.symbolic r)
            (visit-Means n prime e fits) (λ r h. form-Same i prime Former.symbolic _ _ fits h)
      visit-Means (suc n) prime (Expr.new_operator e is_typed) fits =
          wrap-Means prime _ _ (visit igcdex n prime e) (λ r. Expr.new_operator r is_typed)
            (visit-Means n prime e fits)
            (λ r h. form-Same i prime (Former.new_operator is_typed) _ _ fits h)
      visit-Means (suc n) prime _ fits = Cong-refl (modulus prime) _

      visit_arg_list-Mean :
          (n : ℕ) (prime : Option ℕ) (args : ArgList)
          → Allows i prime
          → Gives (ArgsMean prime (meaning_args i args)) (visit_arg_list igcdex n prime args)
      visit_arg_list-Mean zero prime args fits = tt
      visit_arg_list-Mean (suc n) prime ArgList.no_args fits = Cong-refl (modulus prime) _
      visit_arg_list-Mean (suc n) prime (ArgList.arg name e args) fits =
          bind-Gives (Means prime (meaning i e)) _ (visit igcdex n prime e) _
            (visit-Means n prime e fits)
            (λ r h.
              bind-Gives (ArgsMean prime (meaning_args i args)) _
                (visit_arg_list igcdex n prime args) _ (visit_arg_list-Mean n prime args fits)
                (λ others k. apply-Same i prime (Former.arg name) _ _ _ _ fits h k))

    -- An expression that is simplified keeps its meaning: the integer that it stands for is the same,
    -- and modulo the prime where there is one. The reading of registers, names, memory, casts and
    -- the other forms is free, as long as it is one modulo the prime, a quotient by a number that is
    -- not 0 modulo the prime is the one of the field, a quotient by 1 is its dividend, and the
    -- coefficients of `igcdex` give its divisor. An exponent keeps its meaning as an integer.
    pub visit-keeps :
        (n : ℕ) (prime : Option ℕ) (e r : Expr)
        → Allows i prime
        → visit igcdex n prime e ≡ ok r
        → Same prime (meaning i r) (meaning i e)
    visit-keeps n prime e r fits h =
        Gives_value (Means prime (meaning i e)) (visit igcdex n prime e) r
          (visit-Means n prime e fits) h
