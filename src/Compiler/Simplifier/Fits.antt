-- ===== src/Compiler/Simplifier/Fits.antt =====
-- The weight of an operator that is turned, or left out for its unit, does not grow (`visit_ExprOperator`
-- of starkware/cairo/lang/compiler/expression_simplifier.py).
use pip_cairo_lang.Prelude.{
  ℕ, ◌≤◌, ◌<◌, ◌≡◌, arith, Bool, true, false, Bool-cases, inl, inr, if◌then◌else◌,
}
use pip_cairo_lang.Prelude.Int.{ℤ}
use pip_cairo_lang.Result.{Result, ok, err, ◌>>=◌, recursion_error}
use pip_cairo_lang.Compiler.Expr.{Operator, Expr}
use pip_cairo_lang.Compiler.Simplifier.{
  Parts, Outcome, done, again, turns, rotate, is_const_one, is_const_zero, unit_left, unit_right,
}
use pip_cairo_lang.Compiler.Simplifier.Weight.{weight, IsTidy, weight_pos}

-- A result that is not for want of fuel, with a property of its value.
abbrev pub Ends {ℓ} : {A : Type ℓ} → (A → Type 0) → Result A → Type 0
Ends P (ok v) = P v
Ends P (err recursion_error) = ⊥
Ends P (err _) = Unit

pub bind-Ends :
    {A B : Type 0} (P : A → Type 0) (Q : B → Type 0) (m : Result A) (f : A → Result B)
    → Ends P m
    → ((v : A) → P v → Ends Q (f v))
    → Ends Q (m >>= f)
bind-Ends P Q (ok v) f h k = k v h
bind-Ends P Q (err recursion_error) f h k = absurd h
bind-Ends P Q (err _) f h k = h

-- A tidy expression of at most some weight.
abbrev pub Fits : ℕ → Expr → Type 0
Fits w r = (weight r ≤ w) × IsTidy r

-- What is left to do of an operator, in at most some weight: what is visited again weighs less.
abbrev pub FitsOutcome : ℕ → Outcome → Type 0
FitsOutcome w (done r) = Fits w r
FitsOutcome w (again e) = weight e < w

turn_lighter :
    (op op1 : Operator) (a1 b1 : Expr) (c : ℤ)
    → IsTidy (Expr.operator a1 op1 b1)
    → turns op op1 ≡ true
    → weight (Expr.operator a1 op1 (Expr.operator b1 op1 (Expr.const c)))
      < weight (Expr.operator (Expr.operator a1 op1 b1) op (Expr.const c))
unfolding weight
turn_lighter Operator.add Operator.add a1 b1 c tidy t = omega (arith, weight_pos a1 b1 tidy)
turn_lighter Operator.add Operator.sub a1 b1 c tidy t = omega arith
turn_lighter Operator.mul Operator.mul a1 b1 c tidy t = omega arith
turn_lighter _ _ a1 b1 c tidy t = absurd (cc t)

-- The first operand of a sum is not a constant.
abbrev pub NotSum : Expr → Operator → Type 0
NotSum (Expr.const v) Operator.add = ⊥
NotSum _ _ = Unit

NotSum-IsTidy : (a : Expr) (op : Operator) (b : Expr) → NotSum a op → IsTidy (Expr.operator a op b)
NotSum-IsTidy (Expr.const v) Operator.add b h = h
NotSum-IsTidy _ op b h = tt

rotate-Fits :
    (a : Expr) (op : Operator) (b : Expr)
    → IsTidy a
    → NotSum a op
    → FitsOutcome (weight (Expr.operator a op b)) (rotate a op b)
unfolding rotate
rotate-Fits (Expr.operator a1 op1 b1) op (Expr.const c) tidy n = elim (Bool-cases (turns op op1)) [
  | inl t ↦ rw t (turn_lighter op op1 a1 b1 c tidy t)
  | inr f ↦ rw f (omega arith, NotSum-IsTidy (Expr.operator a1 op1 b1) op (Expr.const c) n)
]
rotate-Fits a op b tidy n = (omega arith, NotSum-IsTidy a op b n)

-- An outcome within one weight is within any higher one.
pub raised : (w v : ℕ) (o : Outcome) → w ≤ v → FitsOutcome w o → FitsOutcome v o
raised w v (done r) h (light, tidy) = (omega arith, tidy)
raised w v (again e) h light = omega arith

unit_left-Fits :
    (a : Expr) (op : Operator) (b : Expr)
    → IsTidy a
    → IsTidy b
    → NotSum a op
    → FitsOutcome (weight (Expr.operator a op b)) (unit_left a op b)
unfolding unit_left weight
unit_left-Fits a Operator.mul b ta tb n = elim (Bool-cases (is_const_one a)) [
  | inl t ↦ rw t (omega arith, tb)
  | inr f ↦ rw f (rotate-Fits a Operator.mul b ta n)
]
unit_left-Fits a op b ta tb n = rotate-Fits a op b ta n

-- Not both operands are constants.
abbrev pub NotBoth : Expr → Expr → Type 0
NotBoth (Expr.const x) (Expr.const y) = ⊥
NotBoth _ _ = Unit

-- The operands of an operator that was not computed, within a weight.
pub record IsOpen (w : ℕ) (q : Parts) : Type 0 where
  pub light : weight (Expr.operator q.0 q.1 q.2) ≤ w
  pub left : IsTidy q.0
  pub right : IsTidy q.2
  pub both : NotBoth q.0 q.2

pub if_zero-Fits :
    (a : Expr) (op : Operator) (b : Expr) (t : Bool)
    → IsTidy a
    → IsTidy b
    → NotSum a op
    → FitsOutcome (weight (Expr.operator a op b)) (if t then done a else unit_left a op b)
unfolding weight
if_zero-Fits a Operator.add b true ta tb n = (omega arith, ta)
if_zero-Fits a op b true ta tb n = (omega arith, ta)
if_zero-Fits a op b false ta tb n = unit_left-Fits a op b ta tb n

pub unit_right-Fits :
    (w : ℕ) (q : Parts) → IsOpen w q → NotSum q.0 q.1 → FitsOutcome w (unit_right q)
unfolding unit_right
unit_right-Fits w (a, Operator.add, b) h n =
    raised _ w _ h.light (if_zero-Fits a Operator.add b (is_const_zero b) h.left h.right n)
unit_right-Fits w (a, Operator.sub, b) h n =
    raised _ w _ h.light (if_zero-Fits a Operator.sub b (is_const_zero b) h.left h.right n)
unit_right-Fits w (a, op, b) h n =
    raised _ w _ h.light (if_zero-Fits a op b (is_const_one b) h.left h.right n)
