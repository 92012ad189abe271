-- ===== src/Compiler/Expr.antt =====
-- The expressions and the instructions of the syntax tree
-- (starkware/cairo/lang/compiler/ast/expr.py, starkware/cairo/lang/compiler/ast/instructions.py),
-- and the check for constants (starkware/cairo/lang/compiler/const_expr_checker.py). Locations,
-- notes, formats and Cairo types, which the modelled code only carries along, are left out.
use Prim.Native.String.{String}
use pip_cairo_lang.Prelude.{Bool, true, false, Option}
use pip_cairo_lang.Prelude.Int.{ℤ}
use pip_cairo_lang.Result.{Result, ok, err, ◌>>=◌, attribute_error}
use pip_cairo_lang.Instruction.{Register}

-- `op` of an `ExprOperator`
pub data Operator : Type 0 where
  add sub mul div : Operator

mutual
  pub data Expr : Type 0 where
    const : ℤ → Expr
    hint : String → Expr
    identifier : String → Expr
    reg : Register → Expr
    operator : Expr → Operator → Expr → Expr
    pow : Expr → Expr → Expr
    address_of : Expr → Expr
    neg : Expr → Expr
    parentheses : Expr → Expr
    deref : Expr → Expr
    subscript : Expr → Expr → Expr
    dot : Expr → String → Expr
    cast : Expr → Expr
    symbolic : Expr → Expr
    tuple : ArgList → Expr
    future_label : String → Bool → Expr
    new_operator : Expr → Bool → Expr

  -- a list of `ExprAssignment`, each with the name that it may have
  pub data ArgList : Type 0 where
    no_args : ArgList
    arg : Option String → Expr → ArgList → ArgList

-- `InstructionBody`
pub data InstructionBody : Type 0 where
  assert_eq : Expr → Expr → InstructionBody
  verify_eq : Expr → Expr → InstructionBody
  verify_neq : Expr → Expr → InstructionBody
  verify_lt : Expr → Expr → InstructionBody
  verify_geq : Expr → Expr → InstructionBody
  jump : Expr → Bool → InstructionBody
  jump_to_label : String → Option Expr → InstructionBody
  jnz : Expr → Expr → InstructionBody
  call : Expr → Bool → InstructionBody
  call_label : String → InstructionBody
  ret : InstructionBody
  add_ap : Expr → InstructionBody
  define_word : Expr → InstructionBody

pub record InstructionAst : Type 0 where
  pub body : InstructionBody
  pub inc_ap : Bool

-- `a and b`
abbrev and_then : Bool → Result Bool → Result Bool
and_then true rest = rest
and_then false rest = ok false

-- `ConstExprChecker`: a class of expressions with no visitor is an AttributeError.
unfoldable pub is_const_expr : Expr → Result Bool
is_const_expr (const _) = ok true
is_const_expr (future_label _ _) = ok true
is_const_expr (reg _) = ok false
is_const_expr (operator a _ b) = is_const_expr a >>= λ first. and_then first (is_const_expr b)
is_const_expr (neg val) = is_const_expr val
is_const_expr (deref _) = ok false
is_const_expr (symbolic tag) = is_const_expr tag
is_const_expr _ = err attribute_error
