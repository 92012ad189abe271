-- ===== src/Compiler/Builder/Sugar.antt =====
-- The two forms of an assertion that is built, and the turn of a difference or a quotient
-- (`_build_assert_eq_instruction` and `_apply_inverse_syntactic_sugar` of
-- starkware/cairo/lang/compiler/instruction_builder.py).
use pip_cairo_lang.Prelude.{◌≡◌, refl, Bool}
use pip_cairo_lang.Result.{ok, ok-injective, bind_elim}
use pip_cairo_lang.Instruction.{Opcode, Instruction}
use pip_cairo_lang.Compiler.Expr.{Operator, Expr}
use pip_cairo_lang.Compiler.Builder.{
  refuse, build_comparison, apply_inverse_syntactic_sugar, build_assert_eq_inner,
}

-- The sides of an assertion, and those that are compared.
pub data Turned (a b : Expr) : Expr → Expr → Type 0 where
  plain : Turned a b a b
  difference :
      (x y : Expr)
      → b ≡ Expr.operator x Operator.sub y
      → Turned a b x (Expr.operator a Operator.add y)
  quotient :
      (x y : Expr)
      → b ≡ Expr.operator x Operator.div y
      → Turned a b x (Expr.operator a Operator.mul y)

apply_inverse_syntactic_sugar-Turned :
    (a b : Expr) (q : Expr × Expr) → apply_inverse_syntactic_sugar a b ≡ ok q → Turned a b q.0 q.1
unfolding apply_inverse_syntactic_sugar
apply_inverse_syntactic_sugar-Turned a (Expr.operator x Operator.sub y) q h =
    bind_elim (refuse _ _) _ h λ u hu h1.
      let e : (x, Expr.operator a Operator.add y) ≡ q = ok-injective h1 in
      rw (← e) (Turned.difference x y refl)
apply_inverse_syntactic_sugar-Turned a (Expr.operator x Operator.div y) q h =
    bind_elim (refuse _ _) _ h λ u hu h1.
      let e : (x, Expr.operator a Operator.mul y) ≡ q = ok-injective h1 in
      rw (← e) (Turned.quotient x y refl)
apply_inverse_syntactic_sugar-Turned a b q h =
    let e : (a, b) ≡ q = ok-injective h in rw (← e) Turned.plain

pub record Compared (a b : Expr) (inc_ap : Bool) (i : Instruction) : Type 0 where
  pub left : Expr
  pub right : Expr
  pub turned : Turned a b left right
  pub built : build_comparison Opcode.assert_eq left right inc_ap ≡ ok i

pub build_assert_eq_inner-Compared :
    (a b : Expr) (inc_ap : Bool) (i : Instruction)
    → build_assert_eq_inner a b inc_ap ≡ ok i
    → Compared a b inc_ap i
unfolding build_assert_eq_inner
build_assert_eq_inner-Compared a b inc_ap i h =
    bind_elim (apply_inverse_syntactic_sugar a b) _ h λ q hq h1. record {
      left = q.0;
      right = q.1;
      turned = apply_inverse_syntactic_sugar-Turned a b q hq;
      built = h1;
    }
