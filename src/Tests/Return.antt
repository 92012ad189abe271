-- ===== src/Tests/Return.antt =====
-- A call, a write and the return from it (starkware/cairo/lang/vm/vm_core.py).
use pip_cairo_lang.Prelude.{◌≡◌, refl, arith, true, false, none, [], ◌∷◌}
use pip_cairo_lang.Prelude.Int.{pos, negsuc, ◌+ℤ◌, ◌%ℤ◌}
use pip_cairo_lang.Value.{int}
use pip_cairo_lang.Result.{ok}
use pip_cairo_lang.Exec
use pip_cairo_lang.Exec.Steps.{Returns}
use pip_cairo_lang.Relocatable.{add, mod_prime}
use pip_cairo_lang.Instruction.{
  Register, Op1Addr, Res, PcUpdate, ApUpdate, FpUpdate, Opcode, Instruction, size,
}
use pip_cairo_lang.Memory.{
  MemoryDict, empty_memory, get, get_item, set_item, relocate_value, relocate_address,
}
use pip_cairo_lang.Memory.Dict.{lookup, store}
use pip_cairo_lang.Memory.Validated.{set_validated, put_item, validate_memory_cell, run_rules}
use pip_cairo_lang.Memory.WriteOnce.{here, next}
use pip_cairo_lang.Vm.State.{Vm, memory_of, on_memory, on_context, deduce_memory_cell, try_rules}
use pip_cairo_lang.Vm.Addresses.{displace, compute_dst_addr, compute_op0_addr, compute_op1_addr}
use pip_cairo_lang.Vm.Deduction.{deduce_op0, deduce_op1, compute_res}
use pip_cairo_lang.Vm.Registers.{next_fp, next_ap, next_pc, update_registers}
use pip_cairo_lang.Vm.Operands.{compute_operands}
use pip_cairo_lang.Vm.Run.{opcode_assertions, run_instruction}
use pip_cairo_lang.Compiler.Expr.{Expr}
use pip_cairo_lang.Compiler.Builder.{parse_target, build_call, build_ret}
use pip_cairo_lang.Compiler.Meaning.Return.{run-call-ret}
use pip_cairo_lang.Tests.Machine.{
  prime, cell, registers, machine, gcdex, gcdex-IsBezout, call_7, machine_called, run_call,
  return_address,
}

abbrev ret : Instruction
ret = record {
  off0 = negsuc 1;
  off1 = negsuc 0;
  off2 = negsuc 0;
  imm = none;
  dst_register = Register.fp;
  op0_register = Register.fp;
  op1_addr = Op1Addr.fp;
  res = Res.op1;
  pc_update = PcUpdate.jump;
  ap_update = ApUpdate.regular;
  fp_update = FpUpdate.dst;
  opcode = Opcode.ret;
}

build_call_7 : build_call (Expr.const (pos 7)) true false ≡ ok call_7
unfolding build_call parse_target
build_call_7 = refl

build_ret-ret : build_ret false ≡ ok ret
unfolding build_ret
build_ret-ret = refl

abbrev memory_body : MemoryDict
memory_body = record empty_memory {
  cells =
      (cell 0 0, int (pos 5189976364521848832))
      ∷ (cell 0 1, int (pos 7))
      ∷ (cell 1 0, int (pos 9))
      ∷ (cell 1 2, cell 1 1)
      ∷ (cell 1 3, cell 0 2)
      ∷ (cell 1 4, int (pos 5))
      ∷ [];
}

-- the callee has written [fp] and raised ap
abbrev machine_body : Vm
machine_body = record machine_called {
  run_context = record { pc = cell 0 9; ap = cell 1 5; fp = cell 1 4; prime = prime };
  validated_memory = record {
    memory = memory_body;
    validation_rules = [];
    validated_addresses = [];
  };
}

write_body : set_item (memory_of machine_called) (cell 1 4) (int (pos 5)) ≡ ok memory_body
unfolding set_item store lookup
write_body = refl

abbrev machine_returned : Vm
machine_returned = record machine_body {
  run_context = record { pc = cell 0 2; ap = cell 1 5; fp = cell 1 1; prime = prime };
  trace =
      record { pc = cell 0 0; ap = cell 1 2; fp = cell 1 1 }
      ∷ record { pc = cell 0 9; ap = cell 1 5; fp = cell 1 4 }
      ∷ [];
  accessed_addresses =
      cell 0 9 ∷ cell 1 2 ∷ cell 1 3 ∷ cell 1 3 ∷ cell 0 0 ∷ cell 1 2 ∷ cell 1 3 ∷ cell 0 1 ∷ [];
  current_step = 2;
}

run_ret : Returns (run_instruction gcdex ret) machine_body tt machine_returned
unfolding run_instruction compute_operands compute_dst_addr compute_op0_addr compute_op1_addr
    displace add mod_prime get get_item set_item relocate_value relocate_address lookup store
    deduce_memory_cell deduce_op0 deduce_op1 compute_res on_memory set_validated put_item
    validate_memory_cell opcode_assertions on_context update_registers next_fp next_ap next_pc size
    try_rules run_rules ◌+ℤ◌ ◌%ℤ◌ Exec.◌>>=◌
run_ret = refl

run-call-ret_example :
    (machine_returned.run_context.fp ≡ registers.fp)
    × (machine_returned.run_context.pc ≡ mod_prime (cell 0 2) prime)
run-call-ret_example =
    run-call-ret gcdex (Expr.const (pos 7)) true false false call_7 ret machine machine_called
      machine_body machine_returned (cell 0 2) gcdex-IsBezout (omega arith) build_call_7
      build_ret-ret refl return_address run_call (next (cell 1 4) (int (pos 5)) here write_body)
      refl refl run_ret
