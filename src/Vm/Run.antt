-- ===== src/Vm/Run.antt =====
-- One step of the machine (`opcode_assertions`, `run_instruction`, `decode_current_instruction` and
-- `step` of starkware/cairo/lang/vm/vm_core.py). The hints of a program counter are Python code, so
-- they are actions on the state that the model takes as an argument.
use pip_cairo_lang.Prelude.{
  Bool, true, false, ◌+◌, true, false, not, Option, none, some, List, [], ◌∷◌, ◌++◌, if◌then◌else◌,
}
pub mod Growth
pub mod Success
pub mod Call
use pip_cairo_lang.Prelude.Int.{ℤ, pos}
use pip_cairo_lang.Value.{MaybeRelocatable, int, eqb}
use pip_cairo_lang.Result.{
  Error, Result, ok, err, not_implemented, assert_eq_failed, call_return_pc, call_return_fp,
}
use pip_cairo_lang.Exec.{Exec, pure, asks, rethrow, modify, ◌>>=◌, ◌>>◌}
use pip_cairo_lang.Relocatable.{add}
use pip_cairo_lang.MathUtils.{Gcdex}
use pip_cairo_lang.Instruction.{Opcode, Instruction, size}
use pip_cairo_lang.Encode.Decoder.{decode_instruction}
use pip_cairo_lang.Vm.State.{
  RunContext, Operands, Vm, entry_of, memory_of, on_context, as_vm_exception,
}
use pip_cairo_lang.Vm.Addresses.{get_instruction_encoding}
use pip_cairo_lang.Vm.Registers.{update_registers}
use pip_cairo_lang.Vm.Operands.{ask, compute_operands}

-- `dst != res and not check_eq(dst, res)`; `check_eq` is `==`
abbrev pub must_equal : MaybeRelocatable → MaybeRelocatable → Error → Result (Unit {0})
must_equal a b e = if not (eqb a b) then (if not (eqb a b) then err e else ok tt) else ok tt

abbrev check_assert_eq : Operands → Option MaybeRelocatable → Result (Unit {0})
check_assert_eq o none = err not_implemented
check_assert_eq o (some res) = must_equal o.dst res assert_eq_failed

abbrev check_call : RunContext → Operands → Result MaybeRelocatable → Result (Unit {0})
check_call c o (err e) = err e
check_call c o (ok return_pc) = elim (must_equal o.op0 return_pc call_return_pc) [
  | err e ↦ err e
  | ok _ ↦ must_equal o.dst c.fp call_return_fp
]

abbrev pub assertion_of : Opcode → Instruction → Operands → RunContext → Result (Unit {0})
assertion_of Opcode.assert_eq i o c = check_assert_eq o o.res
assertion_of Opcode.call i o c = check_call c o (add c.pc (int (pos (size i))))
assertion_of _ i o c = ok tt

unfoldable pub opcode_assertions : Instruction → Operands → RunContext → Result (Unit {0})
opcode_assertions i o c = assertion_of i.opcode i o c

abbrev append_trace : Exec Vm (Unit {0})
append_trace = modify (λ vm. record vm { trace = vm.trace ++ entry_of vm.run_context ∷ [] })

abbrev note_accesses : List MaybeRelocatable → Exec Vm (Unit {0})
note_accesses addresses = modify (λ vm. record vm {
  accessed_addresses = (vm.run_context.pc ∷ addresses) ++ vm.accessed_addresses;
})

abbrev count_step : Exec Vm (Unit {0})
count_step = modify (λ vm. record vm { current_step = vm.current_step + 1 })

unfoldable pub run_instruction : Gcdex → Instruction → Exec Vm (Unit {0})
run_instruction igcdex i = do
  (operands, addresses) ← rethrow as_vm_exception (compute_operands igcdex i)
  rethrow as_vm_exception (ask (opcode_assertions i operands))
  append_trace
  note_accesses addresses
  rethrow as_vm_exception (on_context (update_registers i operands))
  count_step

abbrev decode_at : Result (ℤ × Option ℤ) → Result Instruction
decode_at (err e) = err e
decode_at (ok (encoding, imm)) = decode_instruction encoding imm

unfoldable pub decode_current_instruction : Exec Vm Instruction
decode_current_instruction =
    rethrow as_vm_exception
      (asks (λ vm. decode_at (get_instruction_encoding (memory_of vm) vm.run_context)))

abbrev pub skipping : Exec Vm Bool
skipping = asks (λ vm. ok vm.skip_instruction_execution)

-- The hints run in order, until one asks to skip the instruction.
unfoldable pub run_hints : List (Exec Vm (Unit {0})) → Exec Vm (Unit {0})
run_hints [] = pure tt
run_hints (hint ∷ hints) =
    let rest = run_hints hints in do hint; skip ← skipping; if skip then pure tt else rest

unfoldable pub step : Gcdex → (MaybeRelocatable → List (Exec Vm (Unit {0}))) → Exec Vm (Unit {0})
step igcdex hints = do
  modify (λ vm. record vm { skip_instruction_execution = false })
  pc ← ask (λ c. ok c.pc)
  run_hints (hints pc)
  skip ← skipping
  if skip then pure tt else do i ← decode_current_instruction; run_instruction igcdex i
