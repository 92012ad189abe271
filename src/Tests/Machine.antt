-- ===== src/Tests/Machine.antt =====
-- One step of the machine, `[ap] = 7; ap++` (starkware/cairo/lang/vm/vm_core.py).
use pip_cairo_lang.Prelude.{ℕ, ◌+◌, ◌^◌, ◌≡◌, refl, arith, false, some, List, [], ◌∷◌}
use pip_cairo_lang.Prelude.Int.{pos, negsuc, ◌+ℤ◌, ◌*ℤ◌, ◌%ℤ◌}
use pip_cairo_lang.Value.{MaybeRelocatable, int, relocatable}
use pip_cairo_lang.Result.{ok}
use pip_cairo_lang.Exec
use pip_cairo_lang.Exec.{Exec}
use pip_cairo_lang.Exec.Steps.{Returns}
use pip_cairo_lang.Relocatable.{add, mod_prime}
use pip_cairo_lang.MathUtils.{Gcdex, IsBezout}
use pip_cairo_lang.Instruction.{
  Register, Op1Addr, Res, PcUpdate, ApUpdate, FpUpdate, Opcode, Instruction, size,
}
use pip_cairo_lang.Memory.{MemoryDict, empty_memory, get, get_item, set_item, relocate_value}
use pip_cairo_lang.Memory.Dict.{lookup, store}
use pip_cairo_lang.Memory.Validated.{set_validated, put_item, validate_memory_cell, run_rules}
use pip_cairo_lang.Vm.State.{
  RunContext, Operands, Vm, memory_of, on_memory, on_context, deduce_memory_cell, try_rules,
}
use pip_cairo_lang.Vm.Addresses.{displace, compute_dst_addr, compute_op0_addr, compute_op1_addr}
use pip_cairo_lang.Vm.Deduction.{deduce_op0, deduce_op1, compute_res}
use pip_cairo_lang.Vm.Registers.{next_fp, next_ap, next_pc, update_registers}
use pip_cairo_lang.Vm.Operands.{compute_operands}
use pip_cairo_lang.Vm.Deduction.Agrees.{Agrees}
use pip_cairo_lang.Vm.ResValue.{compute_operands-Agrees}
use pip_cairo_lang.Vm.Settled.{Settled, compute_operands-Settled}
use pip_cairo_lang.Vm.Run.{opcode_assertions, run_instruction, step}
use pip_cairo_lang.Vm.Run.Call.{Saved, run_instruction-Saved}
use pip_cairo_lang.Vm.Run.Growth.{step-keeps}
use pip_cairo_lang.Vm.Run.Success.{Ran, run_instruction-Ran}

abbrev pub prime : ℕ
prime = 2 ^ 64 + 13

abbrev pub cell : ℕ → ℕ → MaybeRelocatable
cell s o = relocatable (record { segment_index = pos s; offset = pos o })

abbrev pub set_7 : Instruction
set_7 = record {
  off0 = pos 0;
  off1 = negsuc 0;
  off2 = pos 1;
  imm = some (pos 7);
  dst_register = Register.ap;
  op0_register = Register.fp;
  op1_addr = Op1Addr.imm;
  res = Res.op1;
  pc_update = PcUpdate.regular;
  ap_update = ApUpdate.add1;
  fp_update = FpUpdate.regular;
  opcode = Opcode.assert_eq;
}

abbrev pub memory : MemoryDict
memory = record empty_memory {
  cells =
      (cell 0 0, int (pos 5189976364521848832))
      ∷ (cell 0 1, int (pos 7))
      ∷ (cell 1 0, int (pos 9))
      ∷ [];
}

abbrev pub memory_after : MemoryDict
memory_after = record empty_memory {
  cells =
      (cell 0 0, int (pos 5189976364521848832))
      ∷ (cell 0 1, int (pos 7))
      ∷ (cell 1 0, int (pos 9))
      ∷ (cell 1 2, int (pos 7))
      ∷ [];
}

abbrev pub registers : RunContext
registers = record { pc = cell 0 0; ap = cell 1 2; fp = cell 1 1; prime = prime }

abbrev pub registers_after : RunContext
registers_after = record { pc = cell 0 2; ap = cell 1 3; fp = cell 1 1; prime = prime }

abbrev pub machine : Vm
machine = record {
  run_context = registers;
  validated_memory = record { memory = memory; validation_rules = []; validated_addresses = [] };
  auto_deduction = [];
  trace = [];
  accessed_addresses = [];
  current_step = 0;
  skip_instruction_execution = false;
}

abbrev pub machine_after : Vm
machine_after = record {
  run_context = registers_after;
  validated_memory = record {
    memory = memory_after;
    validation_rules = [];
    validated_addresses = [];
  };
  auto_deduction = [];
  trace = record { pc = cell 0 0; ap = cell 1 2; fp = cell 1 1 } ∷ [];
  accessed_addresses = cell 0 0 ∷ cell 1 2 ∷ cell 1 0 ∷ cell 0 1 ∷ [];
  current_step = 1;
  skip_instruction_execution = false;
}

abbrev pub gcdex : Gcdex
gcdex x y = (pos 2, negsuc 0, x *ℤ pos 2 +ℤ y *ℤ negsuc 0)

pub gcdex-IsBezout : IsBezout gcdex
gcdex-IsBezout = record { bezout = λ x y. refl }

pub run_7 : Returns (run_instruction gcdex set_7) machine tt machine_after
unfolding run_instruction compute_operands compute_dst_addr compute_op0_addr compute_op1_addr
    displace add mod_prime get get_item set_item relocate_value lookup store deduce_memory_cell
    deduce_op0 deduce_op1 compute_res on_memory set_validated put_item validate_memory_cell
    opcode_assertions on_context update_registers next_fp next_ap next_pc size try_rules run_rules
    ◌+ℤ◌ ◌%ℤ◌ Exec.◌>>=◌
run_7 = refl

run_instruction-Ran_example : Ran gcdex set_7 machine machine_after
run_instruction-Ran_example = run_instruction-Ran gcdex set_7 machine machine_after run_7

abbrev pub operands_7 : Operands
operands_7 = record {
  dst = int (pos 7);
  res = some (int (pos 7));
  op0 = int (pos 9);
  op1 = int (pos 7);
}

-- the machine whose operands have been found
abbrev pub machine_found : Vm
machine_found = record machine {
  validated_memory = record {
    memory = memory_after;
    validation_rules = [];
    validated_addresses = [];
  };
}

pub found_7 :
    Returns
      (compute_operands gcdex set_7)
      machine
      (operands_7, cell 1 2 ∷ cell 1 0 ∷ cell 0 1 ∷ [])
      machine_found
unfolding compute_operands compute_dst_addr compute_op0_addr compute_op1_addr displace add mod_prime
    get get_item set_item relocate_value lookup store deduce_memory_cell deduce_op0 deduce_op1
    compute_res on_memory set_validated put_item validate_memory_cell try_rules run_rules ◌+ℤ◌ ◌%ℤ◌
    Exec.◌>>=◌
found_7 = refl

compute_operands-Settled_example :
    Settled registers set_7 operands_7 (cell 1 2 ∷ cell 1 0 ∷ cell 0 1 ∷ []) machine_found
compute_operands-Settled_example =
    compute_operands-Settled gcdex set_7 machine machine_found operands_7
      (cell 1 2 ∷ cell 1 0 ∷ cell 0 1 ∷ []) refl found_7

-- `call rel 7`
abbrev pub call_7 : Instruction
call_7 = record {
  off0 = pos 0;
  off1 = pos 1;
  off2 = pos 1;
  imm = some (pos 7);
  dst_register = Register.ap;
  op0_register = Register.ap;
  op1_addr = Op1Addr.imm;
  res = Res.op1;
  pc_update = PcUpdate.jump_rel;
  ap_update = ApUpdate.add2;
  fp_update = FpUpdate.ap_plus2;
  opcode = Opcode.call;
}

abbrev pub machine_called : Vm
machine_called = record {
  run_context = record { pc = cell 0 7; ap = cell 1 4; fp = cell 1 4; prime = prime };
  validated_memory = record {
    memory = record empty_memory {
      cells =
          (cell 0 0, int (pos 5189976364521848832))
          ∷ (cell 0 1, int (pos 7))
          ∷ (cell 1 0, int (pos 9))
          ∷ (cell 1 2, cell 1 1)
          ∷ (cell 1 3, cell 0 2)
          ∷ [];
    };
    validation_rules = [];
    validated_addresses = [];
  };
  auto_deduction = [];
  trace = record { pc = cell 0 0; ap = cell 1 2; fp = cell 1 1 } ∷ [];
  accessed_addresses = cell 0 0 ∷ cell 1 2 ∷ cell 1 3 ∷ cell 0 1 ∷ [];
  current_step = 1;
  skip_instruction_execution = false;
}

pub run_call : Returns (run_instruction gcdex call_7) machine tt machine_called
unfolding run_instruction compute_operands compute_dst_addr compute_op0_addr compute_op1_addr
    displace add mod_prime get get_item set_item relocate_value lookup store deduce_memory_cell
    deduce_op0 deduce_op1 compute_res on_memory set_validated put_item validate_memory_cell
    opcode_assertions on_context update_registers next_fp next_ap next_pc size try_rules run_rules
    ◌+ℤ◌ ◌%ℤ◌ Exec.◌>>=◌
run_call = refl

pub return_address : add (cell 0 0) (int (pos (size call_7))) ≡ ok (cell 0 2)
unfolding add size ◌+ℤ◌
return_address = refl

run_instruction-Saved_example : Saved registers call_7 (cell 0 2) machine_called
run_instruction-Saved_example =
    run_instruction-Saved gcdex call_7 machine machine_called (cell 0 2) refl refl return_address
      run_call

abbrev no_hints : MaybeRelocatable → List (Exec Vm (Unit {0}))
no_hints pc = []

known_cell : lookup (cell 1 0) memory.cells ≡ some (int (pos 9))
unfolding lookup
known_cell = refl

step-keeps_example :
    lookup (cell 1 0) (memory_of (step gcdex no_hints machine).1).cells ≡ some (int (pos 9))
step-keeps_example =
    step-keeps gcdex no_hints machine (cell 1 0) (int (pos 9)) (λ pc. tt) known_cell

compute_operands-Agrees_example : Agrees prime Res.op1 (int (pos 9)) (int (pos 7)) (int (pos 7))
compute_operands-Agrees_example =
    compute_operands-Agrees gcdex set_7 machine machine_found operands_7
      (cell 1 2 ∷ cell 1 0 ∷ cell 0 1 ∷ []) (int (pos 7)) gcdex-IsBezout (omega arith) found_7 refl
