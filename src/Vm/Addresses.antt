-- ===== src/Vm/Addresses.antt =====
-- The addresses of the operands (`RunContext` of starkware/cairo/lang/vm/vm_core.py).
use pip_cairo_lang.Prelude.{ℕ, Option, none, some}
use pip_cairo_lang.Prelude.Int.{ℤ, pos, eqb_ℤ}
use pip_cairo_lang.Value.{MaybeRelocatable, int, relocatable}
use pip_cairo_lang.Result.{
  Result, ok, err, ◌>>=◌, ◌>>◌, assert, assertion, imm_offset, op0_unknown, instruction_not_int,
}
use pip_cairo_lang.Relocatable.{add, mod_prime}
use pip_cairo_lang.Memory.{MemoryDict, get, get_item}
use pip_cairo_lang.Instruction.{Register, Op1Addr, Instruction}
use pip_cairo_lang.Vm.State.{RunContext}

abbrev expect_int : MaybeRelocatable → Result ℤ
expect_int (int v) = ok v
expect_int (relocatable _) = err (assertion instruction_not_int)

abbrev int_or_none : Option MaybeRelocatable → Option ℤ
int_or_none (some (int v)) = some v
int_or_none _ = none

unfoldable pub get_instruction_encoding : MemoryDict → RunContext → Result (ℤ × Option ℤ)
get_instruction_encoding memory c = do
  found ← get_item memory c.pc
  instruction_encoding ← expect_int found
  next ← add c.pc (int (pos 1))
  optional_imm ← get memory (mod_prime next c.prime)
  ok (instruction_encoding, int_or_none optional_imm)

abbrev pub register : RunContext → Register → MaybeRelocatable
register c Register.ap = c.ap
register c Register.fp = c.fp

-- (base + offset) % prime
unfoldable pub displace : MaybeRelocatable → ℤ → ℕ → Result MaybeRelocatable
displace base off prime = do sum ← add base (int off); ok (mod_prime sum prime)

unfoldable pub compute_dst_addr : RunContext → Instruction → Result MaybeRelocatable
unfolding displace
compute_dst_addr c i = displace (register c i.dst_register) i.off0 c.prime

unfoldable pub compute_op0_addr : RunContext → Instruction → Result MaybeRelocatable
unfolding displace
compute_op0_addr c i = displace (register c i.op0_register) i.off1 c.prime

abbrev pub op1_base :
    RunContext → Instruction → Op1Addr → Option MaybeRelocatable → Result MaybeRelocatable
op1_base c i Op1Addr.fp op0 = ok c.fp
op1_base c i Op1Addr.ap op0 = ok c.ap
op1_base c i Op1Addr.imm op0 = do assert (eqb_ℤ i.off2 (pos 1)) imm_offset; ok c.pc
op1_base c i Op1Addr.op0 none = err (assertion op0_unknown)
op1_base c i Op1Addr.op0 (some base) = ok base

unfoldable pub compute_op1_addr :
    RunContext → Instruction → Option MaybeRelocatable → Result MaybeRelocatable
unfolding displace
compute_op1_addr c i op0 = do base ← op1_base c i i.op1_addr op0; displace base i.off2 c.prime
