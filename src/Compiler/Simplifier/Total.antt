-- ===== src/Compiler/Simplifier/Total.antt =====
-- The simplifier ends (starkware/cairo/lang/compiler/expression_simplifier.py).
use pip_cairo_lang.Prelude.{ℕ, zero, suc, ◌+◌, ◌≤◌, ◌<◌, arith, Option, none, ◌≢◌}
use pip_cairo_lang.Result.{Result, ok, err, ◌>>=◌, recursion_error}
use pip_cairo_lang.MathUtils.{Gcdex}
use pip_cairo_lang.Compiler.Expr.{Operator, Expr, ArgList}
use pip_cairo_lang.Compiler.Simplifier.{
  Outcome, done, again, simplify_operator, visit, visit_arg_list,
}
use pip_cairo_lang.Compiler.Simplifier.Weight.{heavier, weight, weight_args}
use pip_cairo_lang.Compiler.Simplifier.Fits.{Ends, bind-Ends, Fits, FitsOutcome}
use pip_cairo_lang.Compiler.Simplifier.Operators.{
  simplify_operator-Ends, simplify_pow-Ends, simplify_neg-Fits,
}

heavier_mono : (op : Operator) (a b a' b' : ℕ) → a' ≤ a → b' ≤ b → heavier op a' b' ≤ heavier op a b
heavier_mono Operator.add a b a' b' ha hb = omega arith
heavier_mono _ a b a' b' ha hb = omega arith

heavier_parts : (op : Operator) (a b : ℕ) → (a < heavier op a b) × (b < heavier op a b)
heavier_parts Operator.add a b = (omega arith, omega arith)
heavier_parts _ a b = (omega arith, omega arith)

Fits-le : (v w : ℕ) (r : Expr) → v ≤ w → Fits v r → Fits w r
Fits-le v w r h (light, tidy) = (omega arith, tidy)

Ends-le : (v w : ℕ) (m : Result Expr) → v ≤ w → Ends (Fits v) m → Ends (Fits w) m
Ends-le v w (ok r) h k = Fits-le v w r h k
Ends-le v w (err recursion_error) h k = k
Ends-le v w (err _) h k = tt

outcome-Ends :
    (v w : ℕ) (o : Outcome) (visit_again : Expr → Result Expr)
    → v ≤ w
    → FitsOutcome v o
    → ((e : Expr) → weight e < v → Ends (Fits (weight e)) (visit_again e))
    → Ends (Fits w) (elim o [ done r ↦ ok r | again next ↦ visit_again next ])
outcome-Ends v w (done r) visit_again h fits ih = Fits-le v w r h fits
outcome-Ends v w (again e) visit_again h light ih =
    Ends-le (weight e) w (visit_again e) (omega arith) (ih e light)

abbrev FitsArgs : ℕ → ArgList → Type 0
FitsArgs w args = weight_args args ≤ w

wrap-Ends :
    (w : ℕ) (m : Result Expr) (f : Expr → Expr)
    → Ends (Fits w) m
    → ((r : Expr) → weight r ≤ w → Fits (suc w) (f r))
    → Ends (Fits (suc w)) (m >>= λ r. ok (f r))
wrap-Ends w m f h k = bind-Ends (Fits w) (Fits (suc w)) m _ h (λ r fits. k r fits.0)

module _ (igcdex : Gcdex) where
  mutual
    unfolding visit weight

    visit-Ends :
        (n : ℕ) (prime : Option ℕ) (e : Expr)
        → weight e < n
        → Ends (Fits (weight e)) (visit igcdex n prime e)
    visit-Ends zero prime e h = absurd (omega arith)
    visit-Ends (suc n) prime (Expr.const val) h = (omega arith, tt)
    visit-Ends (suc n) prime (Expr.operator a op b) h =
        let w = heavier op (weight a) (weight b) in
        let (la, lb) = heavier_parts op (weight a) (weight b) in
        bind-Ends (Fits (weight a)) (Fits w) (visit igcdex n prime a) _
          (visit-Ends n prime a (omega arith))
          (λ a' ha.
            bind-Ends (Fits (weight b)) (Fits w) (visit igcdex n prime b) _
              (visit-Ends n prime b (omega arith))
              (λ b' hb.
                let v = heavier op (weight a') (weight b') in
                let le = heavier_mono op (weight a) (weight b) (weight a') (weight b') ha.0 hb.0 in
                bind-Ends (FitsOutcome v) (Fits w) (simplify_operator igcdex prime a' op b') _
                  (simplify_operator-Ends igcdex prime a' op b' ha.1 hb.1)
                  (λ o ho.
                    outcome-Ends v w o (visit igcdex n prime) le ho
                      (λ next light. visit-Ends n prime next (omega arith)))))
    visit-Ends (suc n) prime (Expr.pow a b) h =
        let w = suc (weight a + weight b) in
        bind-Ends (Fits (weight a)) (Fits w) (visit igcdex n prime a) _
          (visit-Ends n prime a (omega arith))
          (λ a' ha.
            bind-Ends (Fits (weight b)) (Fits w) (visit igcdex n none b) _
              (visit-Ends n none b (omega arith))
              (λ b' hb. simplify_pow-Ends prime a' b' w (omega (arith, ha.0, hb.0))))
    visit-Ends (suc n) prime (Expr.subscript a b) h =
        let w = suc (weight a + weight b) in
        bind-Ends (Fits (weight a)) (Fits w) (visit igcdex n prime a) _
          (visit-Ends n prime a (omega arith))
          (λ a' ha.
            bind-Ends (Fits (weight b)) (Fits w) (visit igcdex n prime b) _
              (visit-Ends n prime b (omega arith)) (λ b' hb. (omega (arith, ha.0, hb.0), tt)))
    visit-Ends (suc n) prime (Expr.neg e) h =
        bind-Ends (Fits (weight e)) (Fits (suc (weight e))) (visit igcdex n prime e) _
          (visit-Ends n prime e (omega arith))
          (λ r fits. simplify_neg-Fits prime r (suc (weight e)) (omega (arith, fits.0)))
    visit-Ends (suc n) prime (Expr.parentheses e) h =
        Ends-le (weight e) (suc (weight e)) (visit igcdex n prime e) (omega arith)
          (visit-Ends n prime e (omega arith))
    visit-Ends (suc n) prime (Expr.tuple members) h =
        let w = weight_args members in
        bind-Ends (FitsArgs w) (Fits (suc w)) (visit_arg_list igcdex n prime members) _
          (visit_arg_list-Ends n prime members (omega arith)) (λ r le. (omega arith, tt))
    visit-Ends (suc n) prime (Expr.address_of e) h =
        wrap-Ends (weight e) (visit igcdex n prime e) (λ r. Expr.address_of r)
          (visit-Ends n prime e (omega arith)) (λ r le. (omega arith, tt))
    visit-Ends (suc n) prime (Expr.deref e) h =
        wrap-Ends (weight e) (visit igcdex n prime e) (λ r. Expr.deref r)
          (visit-Ends n prime e (omega arith)) (λ r le. (omega arith, tt))
    visit-Ends (suc n) prime (Expr.dot e member) h =
        wrap-Ends (weight e) (visit igcdex n prime e) (λ r. Expr.dot r member)
          (visit-Ends n prime e (omega arith)) (λ r le. (omega arith, tt))
    visit-Ends (suc n) prime (Expr.cast e) h =
        wrap-Ends (weight e) (visit igcdex n prime e) (λ r. Expr.cast r)
          (visit-Ends n prime e (omega arith)) (λ r le. (omega arith, tt))
    visit-Ends (suc n) prime (Expr.symbolic e) h =
        wrap-Ends (weight e) (visit igcdex n prime e) (λ r. Expr.symbolic r)
          (visit-Ends n prime e (omega arith)) (λ r le. (omega arith, tt))
    visit-Ends (suc n) prime (Expr.new_operator e is_typed) h =
        wrap-Ends (weight e) (visit igcdex n prime e) (λ r. Expr.new_operator r is_typed)
          (visit-Ends n prime e (omega arith)) (λ r le. (omega arith, tt))
    visit-Ends (suc n) prime _ h = (omega arith, tt)

    visit_arg_list-Ends :
        (n : ℕ) (prime : Option ℕ) (args : ArgList)
        → weight_args args < n
        → Ends (FitsArgs (weight_args args)) (visit_arg_list igcdex n prime args)
    visit_arg_list-Ends zero prime args h = absurd (omega arith)
    visit_arg_list-Ends (suc n) prime ArgList.no_args h = omega arith
    visit_arg_list-Ends (suc n) prime (ArgList.arg name e args) h =
        let w = suc (weight e + weight_args args) in
        bind-Ends (Fits (weight e)) (FitsArgs w) (visit igcdex n prime e) _
          (visit-Ends n prime e (omega arith))
          (λ r hr.
            bind-Ends (FitsArgs (weight_args args)) (FitsArgs w)
              (visit_arg_list igcdex n prime args) _
              (visit_arg_list-Ends n prime args (omega arith)) (λ others ho. omega (arith, hr.0)))

  not_for_want : {A : Type 0} (P : A → Type 0) (m : Result A) → Ends P m → m ≢ err recursion_error
  not_for_want P (ok v) h = cc
  not_for_want P (err recursion_error) h = absurd h
  not_for_want P (err _) h = cc

  -- With more fuel than its weight, every expression is simplified to an end: the simplifier does
  -- not run out of fuel, with a prime or without.
  pub visit-ends :
      (n : ℕ) (prime : Option ℕ) (e : Expr)
      → weight e < n
      → visit igcdex n prime e ≢ err recursion_error
  visit-ends n prime e h =
      not_for_want (Fits (weight e)) (visit igcdex n prime e) (visit-Ends n prime e h)
