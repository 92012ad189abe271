-- ===== src/Compiler/Simplifier/Weight.antt =====
-- A weight of expressions that no step of the simplifier raises
-- (starkware/cairo/lang/compiler/expression_simplifier.py): a turn "(a + b) + c" to "a + (b + c)"
-- lowers it, and the exchange in "5 + x" keeps it.
use pip_cairo_lang.Prelude.{ℕ, suc, ◌+◌, ◌*◌, ◌<◌, arith}
use pip_cairo_lang.Compiler.Expr.{Operator, Expr, ArgList}

abbrev pub heavier : Operator → ℕ → ℕ → ℕ
heavier Operator.add a b = suc (2 * a + 2 * b)
heavier _ a b = suc (2 * a + b)

unfoldable mutual
  pub weight : Expr → ℕ
  weight (Expr.const v) = 0
  weight (Expr.operator a op b) = heavier op (weight a) (weight b)
  weight (Expr.pow a b) = suc (weight a + weight b)
  weight (Expr.address_of e) = suc (weight e)
  weight (Expr.neg e) = suc (weight e)
  weight (Expr.parentheses e) = suc (weight e)
  weight (Expr.deref e) = suc (weight e)
  weight (Expr.subscript e o) = suc (weight e + weight o)
  weight (Expr.dot e m) = suc (weight e)
  weight (Expr.cast e) = suc (weight e)
  weight (Expr.symbolic e) = suc (weight e)
  weight (Expr.tuple members) = suc (weight_args members)
  weight (Expr.new_operator e t) = suc (weight e)
  weight _ = 1

  pub weight_args : ArgList → ℕ
  weight_args ArgList.no_args = 0
  weight_args (ArgList.arg name e args) = suc (weight e + weight_args args)

-- A sum does not begin with a constant.
abbrev pub IsTidy : Expr → Type 0
IsTidy (Expr.operator (Expr.const a) Operator.add b) = ⊥
IsTidy _ = Unit

-- Only constants weigh nothing.
pub weight_pos : (a : Expr) (b : Expr) → IsTidy (Expr.operator a Operator.add b) → 0 < weight a
unfolding weight
weight_pos (Expr.const v) b h = absurd h
weight_pos (Expr.operator _ Operator.add _) b h = omega arith
weight_pos (Expr.operator _ _ _) b h = omega arith
weight_pos _ b h = omega arith
