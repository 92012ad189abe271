-- ===== src/Compiler/Simplifier.antt =====
-- Computing constant expressions (starkware/cairo/lang/compiler/expression_simplifier.py, over the
-- visitor of starkware/cairo/lang/compiler/expression_transformer.py). The prime may be missing.
pub mod Weight
pub mod Fits
pub mod Operators
pub mod Total
pub mod Reading
pub mod Congruent
pub mod Units
pub mod Operation
pub mod Sound
use pip_cairo_lang.Prelude.{
  ℕ, zero, suc, ◌*◌, ◌/◌, Bool, true, false, ◌==◌, Option, none, some, if◌then◌else◌,
}
use pip_cairo_lang.Prelude.Int.{ℤ, pos, negsuc, ◌+ℤ◌, ◌-ℤ◌, ◌*ℤ◌, ◌%ℤ◌, eqb_ℤ}
use pip_cairo_lang.Result.{
  Result, ok, err, ◌>>=◌, ◌>>◌, recursion_error, division_by_zero_expr, negative_exponent,
}
use pip_cairo_lang.MathUtils.{Gcdex, div_mod}
use pip_cairo_lang.Compiler.Expr.{Operator, Expr, ArgList}

-- the representative of `val` modulo the prime that is nearest to 0
unfoldable pub to_field_element : ℤ → Option ℕ → ℤ
to_field_element val none = val
to_field_element val (some prime) =
    let half_prime = prime / 2 in pos ((val +ℤ pos half_prime) %ℤ prime) -ℤ pos half_prime

-- `OPERATOR_DICT`
abbrev pub compute : Operator → ℤ → ℤ → ℤ
compute Operator.add a b = a +ℤ b
compute Operator.sub a b = a -ℤ b
compute _ a b = a *ℤ b

abbrev pub raise_if : Bool → Result (Unit {0})
raise_if true = err division_by_zero_expr
raise_if false = ok tt

-- The value of two constants, if they have one: without a prime a quotient stays.
unfoldable pub fold_const : Gcdex → Option ℕ → ℤ → Operator → ℤ → Result (Option ℤ)
fold_const igcdex (some prime) a Operator.div b = do
  raise_if (b %ℤ prime == 0)
  val ← div_mod igcdex a b prime
  ok (some val)
fold_const igcdex none a Operator.div b = ok none
fold_const igcdex prime a op b = ok (some (to_field_element (compute op a b) prime))

abbrev pub fold : Gcdex → Option ℕ → Expr → Operator → Expr → Result (Option ℤ)
fold igcdex prime (Expr.const a) op (Expr.const b) = fold_const igcdex prime a op b
fold igcdex prime a op b = ok none

abbrev pub Parts : Type 0
Parts = Expr × Operator × Expr

-- "5 + fp" becomes "fp + 5".
abbrev pub constant_last : Expr → Operator → Expr → Parts
constant_last (Expr.const a) Operator.add b = (b, Operator.add, Expr.const a)
constant_last a op b = (a, op, b)

-- A constant is not subtracted but its negation added; with a prime, a constant is not divided by
-- but its inverse multiplied with.
unfoldable pub no_inverse : Gcdex → Option ℕ → Parts → Result Parts
no_inverse igcdex prime (a, Operator.sub, Expr.const b) =
    ok (a, Operator.add, Expr.const (to_field_element (pos 0 -ℤ b) prime))
no_inverse igcdex (some prime) (a, Operator.div, Expr.const b) = do
  raise_if (b %ℤ prime == 0)
  inv_val ← div_mod igcdex (pos 1) b prime
  ok (a, Operator.mul, Expr.const (to_field_element inv_val (some prime)))
no_inverse igcdex prime q = ok q

-- What is left to do with an operator: nothing, or to visit another expression in its place.
pub data Outcome : Type 0 where
  done : Expr → Outcome
  again : Expr → Outcome

-- `op == "+" and a.op in ["+", "-"]` or `op == "*" and a.op == "*"`
abbrev pub turns : Operator → Operator → Bool
turns Operator.add Operator.add = true
turns Operator.add Operator.sub = true
turns Operator.mul Operator.mul = true
turns _ _ = false

-- "(a + b) + c" becomes "a + (b + c)" for a constant c.
unfoldable pub rotate : Expr → Operator → Expr → Outcome
rotate (Expr.operator a1 op1 b1) op (Expr.const c) =
    if turns op op1
    then again (Expr.operator a1 op1 (Expr.operator b1 op1 (Expr.const c)))
    else done (Expr.operator (Expr.operator a1 op1 b1) op (Expr.const c))
rotate a op b = done (Expr.operator a op b)

abbrev pub is_const_one : Expr → Bool
is_const_one (Expr.const a) = eqb_ℤ a (pos 1)
is_const_one _ = false

abbrev pub is_const_zero : Expr → Bool
is_const_zero (Expr.const b) = eqb_ℤ b (pos 0)
is_const_zero _ = false

-- 1 * x is x.
unfoldable pub unit_left : Expr → Operator → Expr → Outcome
unit_left a Operator.mul b = if is_const_one a then done b else rotate a Operator.mul b
unit_left a op b = rotate a op b

-- x + 0 and x - 0 are x, and so are x * 1 and x / 1.
unfoldable pub unit_right : Parts → Outcome
unit_right (a, Operator.add, b) = if is_const_zero b then done a else unit_left a Operator.add b
unit_right (a, Operator.sub, b) = if is_const_zero b then done a else unit_left a Operator.sub b
unit_right (a, op, b) = if is_const_one b then done a else unit_left a op b

abbrev pub rest : Gcdex → Option ℕ → Expr → Operator → Expr → Option ℤ → Result Outcome
rest igcdex prime a op b (some val) = ok (done (Expr.const val))
rest igcdex prime a op b none = do
  q ← no_inverse igcdex prime (constant_last a op b)
  ok (unit_right q)

abbrev pub by_zero : Operator → Expr → Bool
by_zero Operator.div b = is_const_zero b
by_zero _ b = false

-- `visit_ExprOperator`, after its operands have been visited
unfoldable pub simplify_operator : Gcdex → Option ℕ → Expr → Operator → Expr → Result Outcome
simplify_operator igcdex prime a op b = do
  raise_if (by_zero op b)
  folded ← fold igcdex prime a op b
  rest igcdex prime a op b folded

-- a ** n
unfoldable pub power : ℤ → ℕ → ℤ
power a zero = pos 1
power a (suc n) = a *ℤ power a n

abbrev pub power_mod : ℤ → ℕ → Option ℕ → ℤ
power_mod a n none = power a n
power_mod a n (some prime) = pos (power a n %ℤ prime)

unfoldable pub simplify_pow : Option ℕ → Expr → Expr → Result Expr
simplify_pow prime (Expr.const a) (Expr.const (pos n)) = ok (Expr.const (power_mod a n prime))
simplify_pow prime (Expr.const a) (Expr.const (negsuc n)) = err negative_exponent
simplify_pow prime a b = ok (Expr.pow a b)

unfoldable pub simplify_neg : Option ℕ → Expr → Expr
simplify_neg prime (Expr.const v) = Expr.const (to_field_element (pos 0 -ℤ v) prime)
simplify_neg prime val = Expr.neg val

-- `visit`, on fuel: one unit for each nested call.
module _ (igcdex : Gcdex) where
  unfoldable mutual
    pub visit : ℕ → Option ℕ → Expr → Result Expr
    visit zero prime e = err recursion_error
    visit (suc n) prime (Expr.const val) = ok (Expr.const (to_field_element val prime))
    visit (suc n) prime (Expr.hint code) = ok (Expr.hint code)
    visit (suc n) prime (Expr.identifier name) = ok (Expr.identifier name)
    visit (suc n) prime (Expr.reg r) = ok (Expr.reg r)
    visit (suc n) prime (Expr.operator a op b) = do
      a' ← visit n prime a
      b' ← visit n prime b
      outcome ← simplify_operator igcdex prime a' op b'
      elim outcome [ done r ↦ ok r | again next ↦ visit n prime next ]
    visit (suc n) prime (Expr.pow a b) = do
      a' ← visit n prime a
      b' ← visit n none b
      simplify_pow prime a' b'
    visit (suc n) prime (Expr.address_of e) = do r ← visit n prime e; ok (Expr.address_of r)
    visit (suc n) prime (Expr.neg e) = do r ← visit n prime e; ok (simplify_neg prime r)
    visit (suc n) prime (Expr.parentheses e) = visit n prime e
    visit (suc n) prime (Expr.deref e) = do r ← visit n prime e; ok (Expr.deref r)
    visit (suc n) prime (Expr.subscript e offset) = do
      r ← visit n prime e
      o ← visit n prime offset
      ok (Expr.subscript r o)
    visit (suc n) prime (Expr.dot e member) = do r ← visit n prime e; ok (Expr.dot r member)
    visit (suc n) prime (Expr.cast e) = do r ← visit n prime e; ok (Expr.cast r)
    visit (suc n) prime (Expr.symbolic tag) = do r ← visit n prime tag; ok (Expr.symbolic r)
    visit (suc n) prime (Expr.tuple members) = do
      r ← visit_arg_list n prime members
      ok (Expr.tuple r)
    visit (suc n) prime (Expr.future_label name is_typed) = ok (Expr.future_label name is_typed)
    visit (suc n) prime (Expr.new_operator e is_typed) = do
      r ← visit n prime e
      ok (Expr.new_operator r is_typed)

    pub visit_arg_list : ℕ → Option ℕ → ArgList → Result ArgList
    visit_arg_list zero prime args = err recursion_error
    visit_arg_list (suc n) prime ArgList.no_args = ok ArgList.no_args
    visit_arg_list (suc n) prime (ArgList.arg name e args) = do
      r ← visit n prime e
      others ← visit_arg_list n prime args
      ok (ArgList.arg name r others)
