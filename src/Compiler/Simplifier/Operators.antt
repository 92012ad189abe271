-- ===== src/Compiler/Simplifier/Operators.antt =====
-- The weight of an operator (`visit_ExprOperator` of
-- starkware/cairo/lang/compiler/expression_simplifier.py).
use pip_cairo_lang.Prelude.{
  ℕ, suc, ◌≤◌, arith, Bool, true, false, Option, none, some, Bool-cases, inl, inr, ◌==◌,
}
use pip_cairo_lang.Prelude.Int.{ℤ, pos, negsuc, ◌%ℤ◌, eqb_ℤ}
use pip_cairo_lang.Result.{◌>>=◌}
use pip_cairo_lang.MathUtils.{Gcdex, div_mod}
use pip_cairo_lang.Compiler.Expr.{Operator, Expr}
use pip_cairo_lang.Compiler.Simplifier.{
  raise_if, fold_const, fold, constant_last, no_inverse, Parts, is_const_one, unit_right, rest,
  by_zero, simplify_operator, simplify_pow, simplify_neg,
}
use pip_cairo_lang.Compiler.Simplifier.Weight.{weight, IsTidy}
use pip_cairo_lang.Compiler.Simplifier.Fits.{
  Ends, bind-Ends, Fits, FitsOutcome, NotSum, NotBoth, IsOpen, if_zero-Fits, unit_right-Fits,
}

NotBoth-sym : (a b : Expr) → NotBoth a b → NotBoth b a
NotBoth-sym (Expr.const x) (Expr.const y) h = h
NotBoth-sym (Expr.const x) _ h = tt
NotBoth-sym _ (Expr.const y) h = tt
NotBoth-sym _ _ h = tt

NotSum-of_NotBoth : (a : Expr) (op : Operator) (c : ℤ) → NotBoth a (Expr.const c) → NotSum a op
NotSum-of_NotBoth (Expr.const x) op c h = absurd h
NotSum-of_NotBoth _ op c h = tt

other_const : (a : Expr) (b c : ℤ) → NotBoth a (Expr.const b) → NotBoth a (Expr.const c)
other_const (Expr.const x) b c h = h
other_const _ b c h = tt

constant_last-IsOpen :
    (w : ℕ) (a : Expr) (op : Operator) (b : Expr)
    → IsOpen w (a, op, b)
    → IsOpen w (constant_last a op b) × NotSum (constant_last a op b).0 (constant_last a op b).1
unfolding weight
constant_last-IsOpen w (Expr.const a) Operator.add b h =
    let both = NotBoth-sym (Expr.const a) b h.both in
    (
      record { light = omega (arith, h.light); left = h.right; right = tt; both = both },
      NotSum-of_NotBoth b Operator.add a both,
    )
constant_last-IsOpen w a op b h = (h, tt)

-- A list of parts that is open, and whose first operand is not a constant of a sum.
abbrev IsReady : ℕ → Parts → Type 0
IsReady w q = IsOpen w q × NotSum q.0 q.1

div_mod-Ends :
    (igcdex : Gcdex) (a b : ℤ) (p : ℕ) → Ends (λ (v : ℤ). Unit {0}) (div_mod igcdex a b p)
unfolding div_mod
div_mod-Ends igcdex a b p = elim (Bool-cases (eqb_ℤ (igcdex b (pos p)).2 (pos 1))) [
  | inl t ↦ rw t tt
  | inr f ↦ rw f tt
]

raise_if-Ends : (t : Bool) → Ends (λ (u : Unit {0}). Unit {0}) (raise_if t)
raise_if-Ends true = tt
raise_if-Ends false = tt

no_inverse-IsReady :
    (igcdex : Gcdex) (prime : Option ℕ) (w : ℕ) (q : Parts)
    → IsReady w q
    → Ends (IsReady w) (no_inverse igcdex prime q)
unfolding no_inverse weight
no_inverse-IsReady igcdex prime w (a, Operator.sub, Expr.const b) (h, n) = (
  record {
    light = omega (arith, h.light);
    left = h.left;
    right = tt;
    both = other_const a b _ h.both;
  },
  NotSum-of_NotBoth a Operator.add b h.both,
)
no_inverse-IsReady igcdex (some prime) w (a, Operator.div, Expr.const b) (h, n) =
    bind-Ends (λ (u : Unit {0}). Unit {0}) (IsReady w) (raise_if (b %ℤ prime == 0)) _
      (raise_if-Ends (b %ℤ prime == 0))
      (λ u k.
        bind-Ends (λ (v : ℤ). Unit {0}) (IsReady w) (div_mod igcdex (pos 1) b prime) _
          (div_mod-Ends igcdex (pos 1) b prime)
          (λ v k'. (
            record {
              light = omega (arith, h.light);
              left = h.left;
              right = tt;
              both = other_const a b _ h.both;
            },
            NotSum-of_NotBoth a Operator.mul b h.both,
          )))
no_inverse-IsReady igcdex none w (a, Operator.div, Expr.const b) h = h
no_inverse-IsReady igcdex prime w q h = h

open_rest :
    (igcdex : Gcdex) (prime : Option ℕ) (a : Expr) (op : Operator) (b : Expr)
    → IsTidy a
    → IsTidy b
    → NotBoth a b
    → Ends (FitsOutcome (weight (Expr.operator a op b))) (rest igcdex prime a op b none)
open_rest igcdex prime a op b ta tb both =
    let w = weight (Expr.operator a op b) in
    bind-Ends (IsReady w) (FitsOutcome w) (no_inverse igcdex prime (constant_last a op b)) _
      (no_inverse-IsReady igcdex prime w (constant_last a op b) (
        constant_last-IsOpen w a op b
          (record { light = omega arith; left = ta; right = tb; both = both })))
      (λ q h. unit_right-Fits w q h.0 h.1)

abbrev IsKnown : Option ℤ → Type 0
IsKnown none = ⊥
IsKnown (some v) = Unit

rest_known :
    (igcdex : Gcdex) (prime : Option ℕ) (a : Expr) (op : Operator) (b : Expr) (v : Option ℤ)
    → IsKnown v
    → Ends (FitsOutcome 1) (rest igcdex prime a op b v)
unfolding weight
rest_known igcdex prime a op b none k = absurd k
rest_known igcdex prime a op b (some v) k = (omega arith, tt)

-- Two constants are computed, or are a quotient without a prime.
constants-Ends :
    (igcdex : Gcdex) (prime : Option ℕ) (x : ℤ) (op : Operator) (y : ℤ)
    → Ends (FitsOutcome (weight (Expr.operator (Expr.const x) op (Expr.const y)))) (
        fold_const igcdex prime x op y >>= λ folded.
        rest igcdex prime (Expr.const x) op (Expr.const y) folded)
unfolding fold_const no_inverse unit_right weight
constants-Ends igcdex (some p) x Operator.div y =
    bind-Ends IsKnown (FitsOutcome 1) (fold_const igcdex (some p) x Operator.div y) _
      (bind-Ends (λ (u : Unit {0}). Unit {0}) IsKnown (raise_if (y %ℤ p == 0)) _
        (raise_if-Ends (y %ℤ p == 0))
        (λ u k.
          bind-Ends (λ (v : ℤ). Unit {0}) IsKnown (div_mod igcdex x y p) _
            (div_mod-Ends igcdex x y p) (λ v k'. tt)))
      (rest_known igcdex (some p) (Expr.const x) Operator.div (Expr.const y))
constants-Ends igcdex none x Operator.div y =
    if_zero-Fits (Expr.const x) Operator.div (Expr.const y) (is_const_one (Expr.const y)) tt tt tt
constants-Ends igcdex prime x op y = (omega arith, tt)

folded-Ends :
    (igcdex : Gcdex) (prime : Option ℕ) (a : Expr) (op : Operator) (b : Expr)
    → IsTidy a
    → IsTidy b
    → Ends
        (FitsOutcome (weight (Expr.operator a op b)))
        (fold igcdex prime a op b >>= λ folded. rest igcdex prime a op b folded)
folded-Ends igcdex prime (Expr.const x) op (Expr.const y) ta tb = constants-Ends igcdex prime x op y
folded-Ends igcdex prime (Expr.const x) op b ta tb =
    open_rest igcdex prime (Expr.const x) op b ta tb tt
folded-Ends igcdex prime a op b ta tb = open_rest igcdex prime a op b ta tb tt

pub simplify_operator-Ends :
    (igcdex : Gcdex) (prime : Option ℕ) (a : Expr) (op : Operator) (b : Expr)
    → IsTidy a
    → IsTidy b
    → Ends (FitsOutcome (weight (Expr.operator a op b))) (simplify_operator igcdex prime a op b)
unfolding simplify_operator
simplify_operator-Ends igcdex prime a op b ta tb =
    bind-Ends (λ (u : Unit {0}). Unit {0}) _ (raise_if (by_zero op b)) _
      (raise_if-Ends (by_zero op b)) (λ u k. folded-Ends igcdex prime a op b ta tb)

pub simplify_pow-Ends :
    (prime : Option ℕ) (a b : Expr) (w : ℕ)
    → weight (Expr.pow a b) ≤ w
    → Ends (Fits w) (simplify_pow prime a b)
unfolding simplify_pow weight
simplify_pow-Ends prime (Expr.const x) (Expr.const (pos n)) w h = (omega arith, tt)
simplify_pow-Ends prime (Expr.const x) (Expr.const (negsuc n)) w h = tt
simplify_pow-Ends prime (Expr.const x) b w h = (h, tt)
simplify_pow-Ends prime a b w h = (h, tt)

pub simplify_neg-Fits :
    (prime : Option ℕ) (a : Expr) (w : ℕ) → suc (weight a) ≤ w → Fits w (simplify_neg prime a)
unfolding simplify_neg weight
simplify_neg-Fits prime (Expr.const x) w h = (omega arith, tt)
simplify_neg-Fits prime a w h = (h, tt)
