-- ===== src/Compiler/Meaning.antt =====
-- What an expression of the syntax tree stands for, given the registers and the memory: an element
-- of the field, or an address. It is the reading that the instructions built from the expression
-- (starkware/cairo/lang/compiler/instruction_builder.py) are held against.
pub mod Arithmetic
pub mod Offsets
pub mod Operand
pub mod ResValue
pub mod Assertion
pub mod Jump
pub mod Return
use pip_cairo_lang.Prelude.{ℕ, Option, none, some}
use pip_cairo_lang.Prelude.Int.{pos, ◌*ℤ◌, ◌%ℤ◌}
use pip_cairo_lang.Value.{MaybeRelocatable, int, relocatable}
use pip_cairo_lang.Result.{Result, ok, err, ◌>>=◌, unknown_memory, type_error, not_implemented}
use pip_cairo_lang.Relocatable.{add, sub, mod_prime}
use pip_cairo_lang.Memory.{MemoryDict}
use pip_cairo_lang.Memory.Dict.{lookup}
use pip_cairo_lang.Vm.State.{RunContext}
use pip_cairo_lang.Vm.Addresses.{register}
use pip_cairo_lang.Vm.Deduction.{symbolic_res}
use pip_cairo_lang.Compiler.Expr.{Operator, Expr}

abbrev pub times : MaybeRelocatable → MaybeRelocatable → Result MaybeRelocatable
times (int a) (int b) = ok (int (a *ℤ b))
times _ _ = err type_error

-- An operator on two values, before it is reduced; a quotient has no value of its own, since an
-- assertion about it is one about a product.
abbrev pub operate : Operator → MaybeRelocatable → MaybeRelocatable → Result MaybeRelocatable
operate Operator.add x y = add x y
operate Operator.sub x y = sub x y
operate Operator.mul x y = times x y
operate Operator.div x y = err not_implemented

abbrev pub in_memory : MaybeRelocatable → Option MaybeRelocatable → Result MaybeRelocatable
in_memory addr none = err (unknown_memory addr)
in_memory addr (some v) = ok v

-- The value of an expression, modulo the prime.
pub value : RunContext → MemoryDict → Expr → Result MaybeRelocatable
value c m (Expr.const v) = ok (int (pos (v %ℤ c.prime)))
value c m (Expr.reg r) = ok (mod_prime (register c r) c.prime)
value c m (Expr.operator a op b) = do
  x ← value c m a
  y ← value c m b
  v ← operate op x y
  ok (mod_prime v c.prime)
value c m (Expr.deref a) = do
  addr ← value c m a
  v ← in_memory addr (lookup addr m.cells)
  ok (mod_prime v c.prime)
value c m (Expr.symbolic tag) = ok (mod_prime (int symbolic_res) c.prime)
value c m _ = err not_implemented
