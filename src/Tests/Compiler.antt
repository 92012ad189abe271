-- ===== src/Tests/Compiler.antt =====
-- Instructions that are built and run (starkware/cairo/lang/compiler/instruction_builder.py).
use pip_cairo_lang.Prelude.{
  ◌≡◌, refl, sym, ap, ◌∙◌, arith, true, false, some, some-injective, [], ◌∷◌,
}
use pip_cairo_lang.Prelude.Int.{pos, negsuc, ◌+ℤ◌, ◌%ℤ◌}
use pip_cairo_lang.Value.{MaybeRelocatable}
use pip_cairo_lang.Result.{ok, ok-injective}
use pip_cairo_lang.Exec
use pip_cairo_lang.Exec.Steps.{Returns}
use pip_cairo_lang.Relocatable.{add, mod_prime}
use pip_cairo_lang.Instruction.{
  Register, Op1Addr, Res, PcUpdate, ApUpdate, FpUpdate, Opcode, Instruction, size,
}
use pip_cairo_lang.Memory.{get, get_item, set_item, relocate_value}
use pip_cairo_lang.Memory.Dict.{lookup, store}
use pip_cairo_lang.Memory.Validated.{set_validated, put_item, validate_memory_cell, run_rules}
use pip_cairo_lang.Vm.State.{Vm, memory_of, on_memory, on_context, deduce_memory_cell, try_rules}
use pip_cairo_lang.Vm.Addresses.{displace, compute_dst_addr, compute_op0_addr, compute_op1_addr}
use pip_cairo_lang.Vm.Deduction.{deduce_op0, deduce_op1, compute_res}
use pip_cairo_lang.Vm.Registers.{next_fp, next_ap, next_pc, update_registers}
use pip_cairo_lang.Vm.Operands.{compute_operands}
use pip_cairo_lang.Vm.Run.{opcode_assertions, run_instruction}
use pip_cairo_lang.Compiler.Expr.{Expr, InstructionBody, InstructionAst}
use pip_cairo_lang.Compiler.Builder.{
  parse_dereference, parse_register, parse_offset, parse_register_offset, parse_res,
  apply_inverse_syntactic_sugar, build_comparison, build_assert_eq_inner, build_assert_eq,
  build_jump, build_addap,
}
use pip_cairo_lang.Compiler.Meaning.{value}
use pip_cairo_lang.Compiler.Meaning.Operand.{Loaded}
use pip_cairo_lang.Compiler.Meaning.Assertion.{Asserted, run-Asserted}
use pip_cairo_lang.Compiler.Meaning.Jump.{IsTarget, IsSum, run-IsTarget, run-IsSum}
use pip_cairo_lang.Tests.Machine.{
  cell, set_7, registers, machine, machine_after, gcdex, gcdex-IsBezout, run_7,
}

-- `[ap] = 7; ap++`
abbrev ast_7 : InstructionAst
ast_7 = record {
  body = InstructionBody.assert_eq (Expr.deref (Expr.reg Register.ap)) (Expr.const (pos 7));
  inc_ap = true;
}

build_7 : build_assert_eq (Expr.deref (Expr.reg Register.ap)) (Expr.const (pos 7)) true ≡ ok set_7
unfolding build_assert_eq build_assert_eq_inner apply_inverse_syntactic_sugar build_comparison
    parse_dereference parse_register_offset parse_offset parse_register parse_res
build_7 = refl

-- The immediate 7 stands behind the instruction.
loaded : (i : Instruction) → i.imm ≡ some (pos 7) → Loaded registers i (memory_of machine)
unfolding lookup displace add mod_prime ◌+ℤ◌ ◌%ℤ◌
loaded i known v addr imm at =
    let same : pos 7 ≡ v = some-injective (sym known ∙ imm) in
    let there : cell 0 1 ≡ addr = ok-injective at in rw (← same, ← there) refl

run-Asserted_example :
    Asserted registers
      (memory_of machine_after)
      (Expr.deref (Expr.reg Register.ap))
      (Expr.const (pos 7))
run-Asserted_example =
    run-Asserted gcdex gcdex-IsBezout set_7 machine machine_after (omega arith) refl
      (loaded set_7 refl) run_7 (Expr.deref (Expr.reg Register.ap)) (Expr.const (pos 7)) true
      build_7

-- `jmp rel 7`
abbrev jump_7 : Instruction
jump_7 = record {
  off0 = negsuc 0;
  off1 = negsuc 0;
  off2 = pos 1;
  imm = some (pos 7);
  dst_register = Register.fp;
  op0_register = Register.fp;
  op1_addr = Op1Addr.imm;
  res = Res.op1;
  pc_update = PcUpdate.jump_rel;
  ap_update = ApUpdate.regular;
  fp_update = FpUpdate.regular;
  opcode = Opcode.nop;
}

-- `ap += 7`
abbrev raise_7 : Instruction
raise_7 = record jump_7 { pc_update = PcUpdate.regular; ap_update = ApUpdate.add }

build_jump_7 : build_jump (Expr.const (pos 7)) true false ≡ ok jump_7
unfolding build_jump parse_res
build_jump_7 = refl

build_raise_7 : build_addap (Expr.const (pos 7)) false ≡ ok raise_7
unfolding build_addap parse_res
build_raise_7 = refl

-- The machine after an instruction that changes no memory.
abbrev with_registers : MaybeRelocatable → MaybeRelocatable → Vm
with_registers pc ap = record machine {
  run_context = record registers { pc = pc; ap = ap };
  trace = record { pc = cell 0 0; ap = cell 1 2; fp = cell 1 1 } ∷ [];
  accessed_addresses = cell 0 0 ∷ cell 1 0 ∷ cell 1 0 ∷ cell 0 1 ∷ [];
  current_step = 1;
}

run_jump_7 :
    Returns (run_instruction gcdex jump_7) machine tt (with_registers (cell 0 7) (cell 1 2))
unfolding run_instruction compute_operands compute_dst_addr compute_op0_addr compute_op1_addr
    displace add mod_prime get get_item set_item relocate_value lookup store deduce_memory_cell
    deduce_op0 deduce_op1 compute_res on_memory set_validated put_item validate_memory_cell
    opcode_assertions on_context update_registers next_fp next_ap next_pc size try_rules run_rules
    ◌+ℤ◌ ◌%ℤ◌ Exec.◌>>=◌
run_jump_7 = refl

run_raise_7 :
    Returns (run_instruction gcdex raise_7) machine tt (with_registers (cell 0 2) (cell 1 9))
unfolding run_instruction compute_operands compute_dst_addr compute_op0_addr compute_op1_addr
    displace add mod_prime get get_item set_item relocate_value lookup store deduce_memory_cell
    deduce_op0 deduce_op1 compute_res on_memory set_validated put_item validate_memory_cell
    opcode_assertions on_context update_registers next_fp next_ap next_pc size try_rules run_rules
    ◌+ℤ◌ ◌%ℤ◌ Exec.◌>>=◌
run_raise_7 = refl

run-IsTarget_example :
    (v : MaybeRelocatable) × (value registers (memory_of machine) (Expr.const (pos 7)) ≡ ok v)
    × IsTarget true registers v (cell 0 7)
run-IsTarget_example =
    run-IsTarget gcdex gcdex-IsBezout jump_7 machine (with_registers (cell 0 7) (cell 1 2))
      (omega arith) refl (loaded jump_7 refl) run_jump_7 (Expr.const (pos 7)) true false
      build_jump_7

run-IsSum_example :
    (v : MaybeRelocatable) × (value registers (memory_of machine) (Expr.const (pos 7)) ≡ ok v)
    × IsSum registers (cell 1 2) v (cell 1 9)
run-IsSum_example =
    run-IsSum gcdex gcdex-IsBezout raise_7 machine (with_registers (cell 0 2) (cell 1 9))
      (omega arith) refl (loaded raise_7 refl) run_raise_7 (Expr.const (pos 7)) false build_raise_7
