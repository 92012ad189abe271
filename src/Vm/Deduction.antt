-- ===== src/Vm/Deduction.antt =====
-- What an instruction says of an operand that is not known, and its result
-- (`deduce_op0`, `deduce_op1` and `compute_res` of starkware/cairo/lang/vm/vm_core.py).
pub mod Sound
pub mod Agrees
use pip_cairo_lang.Prelude.{ℕ, Bool, true, false, not, Option, none, some, if◌then◌else◌}
use pip_cairo_lang.Prelude.Int.{ℤ, pos, ◌*ℤ◌, ◌%ℤ◌, eqb_ℤ}
use pip_cairo_lang.Value.{MaybeRelocatable, int, relocatable}
use pip_cairo_lang.Result.{Result, ok, err, ◌>>=◌, pure_value}
use pip_cairo_lang.Relocatable.{add, sub, mod_prime}
use pip_cairo_lang.MathUtils.{Gcdex, div_mod}
use pip_cairo_lang.Instruction.{Res, Opcode, Instruction, size}
use pip_cairo_lang.Vm.State.{RunContext}

-- A deduced operand, and the result if that is known with it.
abbrev pub Deduced : Type 0
Deduced = Option MaybeRelocatable × Option MaybeRelocatable

-- (dst - known) % prime, if both are there
abbrev pub by_difference : ℕ → Option MaybeRelocatable → Option MaybeRelocatable → Result Deduced
by_difference prime (some dst) (some known) = do
  d ← sub dst known
  ok (some (mod_prime d prime), some dst)
by_difference prime _ _ = ok (none, none)

-- dst / known, if both are ints and `known` is not 0
abbrev pub by_quotient :
    Gcdex → ℕ → Option MaybeRelocatable → Option MaybeRelocatable → Result Deduced
by_quotient igcdex prime (some (int dst)) (some (int known)) =
    if eqb_ℤ known (pos 0)
    then ok (none, none)
    else do q ← div_mod igcdex dst known prime; ok (some (int q), some (int dst))
by_quotient igcdex prime _ _ = ok (none, none)

abbrev pub deduce_factor :
    Gcdex → ℕ → Res → Option MaybeRelocatable → Option MaybeRelocatable → Result Deduced
deduce_factor igcdex prime Res.add dst known = by_difference prime dst known
deduce_factor igcdex prime Res.mul dst known = by_quotient igcdex prime dst known
deduce_factor igcdex prime _ dst known = ok (none, none)

abbrev pub deduce_first_by :
    Gcdex
    → RunContext
    → Instruction
    → Opcode
    → Option MaybeRelocatable
    → Option MaybeRelocatable
    → Result Deduced
deduce_first_by igcdex c i Opcode.call dst op1 = do
  return_pc ← add c.pc (int (pos (size i)))
  ok (some return_pc, none)
deduce_first_by igcdex c i Opcode.assert_eq dst op1 = deduce_factor igcdex c.prime i.res dst op1
deduce_first_by igcdex c i _ dst op1 = ok (none, none)

unfoldable pub deduce_op0 :
    Gcdex
    → RunContext
    → Instruction
    → Option MaybeRelocatable
    → Option MaybeRelocatable
    → Result Deduced
deduce_op0 igcdex c i dst op1 = deduce_first_by igcdex c i i.opcode dst op1

abbrev pub deduce_term :
    Gcdex → ℕ → Res → Option MaybeRelocatable → Option MaybeRelocatable → Result Deduced
deduce_term igcdex prime Res.op1 (some dst) op0 = ok (some dst, some dst)
deduce_term igcdex prime res dst op0 = deduce_factor igcdex prime res dst op0

abbrev pub deduce_second_by :
    Gcdex
    → RunContext
    → Instruction
    → Opcode
    → Option MaybeRelocatable
    → Option MaybeRelocatable
    → Result Deduced
deduce_second_by igcdex c i Opcode.assert_eq dst op0 = deduce_term igcdex c.prime i.res dst op0
deduce_second_by igcdex c i _ dst op0 = ok (none, none)

unfoldable pub deduce_op1 :
    Gcdex
    → RunContext
    → Instruction
    → Option MaybeRelocatable
    → Option MaybeRelocatable
    → Result Deduced
deduce_op1 igcdex c i dst op0 = deduce_second_by igcdex c i i.opcode dst op0

abbrev pub multiply : ℕ → MaybeRelocatable → MaybeRelocatable → Result (Option MaybeRelocatable)
multiply prime (int a) (int b) = ok (some (int (pos ((a *ℤ b) %ℤ prime))))
multiply prime _ _ = err pure_value

-- The value that the interpreter gives a symbolic result.
abbrev pub symbolic_res : ℤ
symbolic_res = pos 6626069934

abbrev pub compute_by :
    ℕ → Res → MaybeRelocatable → MaybeRelocatable → Result (Option MaybeRelocatable)
compute_by prime Res.op1 op0 op1 = ok (some op1)
compute_by prime Res.add op0 op1 = do s ← add op0 op1; ok (some (mod_prime s prime))
compute_by prime Res.mul op0 op1 = multiply prime op0 op1
compute_by prime Res.unconstrained op0 op1 = ok none
compute_by prime Res.symbolic op0 op1 = ok (some (int symbolic_res))

unfoldable pub compute_res :
    RunContext
    → Instruction
    → MaybeRelocatable
    → MaybeRelocatable
    → Result (Option MaybeRelocatable)
compute_res c i op0 op1 = compute_by c.prime i.res op0 op1
