-- ===== src/Vm/Operands.antt =====
-- `compute_operands` of starkware/cairo/lang/vm/vm_core.py: the operands of an instruction, read,
-- deduced and written.
use pip_cairo_lang.Prelude.{Option, none, some, List, [], ◌∷◌}
use pip_cairo_lang.Value.{MaybeRelocatable}
use pip_cairo_lang.Result.{Result, ok}
use pip_cairo_lang.Exec.{Exec, pure, asks, ◌>>=◌, ◌>>◌}
use pip_cairo_lang.MathUtils.{Gcdex}
use pip_cairo_lang.Instruction.{Opcode, Instruction}
use pip_cairo_lang.Vm.State.{RunContext, Operands, Vm, read_option, read, write, deduce_memory_cell}
use pip_cairo_lang.Vm.Addresses.{compute_dst_addr, compute_op0_addr, compute_op1_addr}
use pip_cairo_lang.Vm.Deduction.{Deduced, deduce_op0, deduce_op1, compute_res}

-- A pure function of the registers.
abbrev pub ask : {A : Type 0} → (RunContext → Result A) → Exec Vm A
ask f = asks (λ vm. f vm.run_context)

-- `if value is None: value = rest`
abbrev pub or_option :
    Option MaybeRelocatable → Exec Vm (Option MaybeRelocatable) → Exec Vm (Option MaybeRelocatable)
or_option (some v) rest = pure (some v)
or_option none rest = rest

abbrev pub or_read : Option MaybeRelocatable → MaybeRelocatable → Exec Vm MaybeRelocatable
or_read (some v) addr = pure v
or_read none addr = read addr

-- `if res is None: res = deduced_res`
abbrev pub or_res : Option MaybeRelocatable → Option MaybeRelocatable → Option MaybeRelocatable
or_res (some r) deduced_res = some r
or_res none deduced_res = deduced_res

module _ (igcdex : Gcdex) where
  abbrev pub deduce_first :
      Instruction
      → Option MaybeRelocatable
      → Option MaybeRelocatable
      → Option MaybeRelocatable
      → Exec Vm Deduced
  deduce_first i dst (some op0) op1 = pure (some op0, none)
  deduce_first i dst none op1 = ask (λ c. deduce_op0 igcdex c i dst op1)

  abbrev pub deduce_second :
      Instruction
      → Option MaybeRelocatable
      → Option MaybeRelocatable
      → Option MaybeRelocatable
      → Exec Vm Deduced
  deduce_second i dst op0 (some op1) = pure (some op1, none)
  deduce_second i dst op0 none = ask (λ c. deduce_op1 igcdex c i dst op0)

abbrev pub or_compute :
    Option MaybeRelocatable
    → Instruction
    → MaybeRelocatable
    → MaybeRelocatable
    → Exec Vm (Option MaybeRelocatable)
or_compute (some res) i op0 op1 = pure (some res)
or_compute none i op0 op1 = ask (λ c. compute_res c i op0 op1)

-- the destination that the opcode implies
abbrev pub implied_dst : Opcode → Option MaybeRelocatable → RunContext → Option MaybeRelocatable
implied_dst Opcode.assert_eq res c = res
implied_dst Opcode.call res c = some c.fp
implied_dst _ res c = none

abbrev pub deduce_dst :
    Option MaybeRelocatable
    → Instruction
    → Option MaybeRelocatable
    → Exec Vm (Option MaybeRelocatable)
deduce_dst (some dst) i res = pure (some dst)
deduce_dst none i res = ask (λ c. ok (implied_dst i.opcode res c))

-- `if should_update: validated_memory[addr] = value`
abbrev pub update_if_missing :
    Option MaybeRelocatable → MaybeRelocatable → MaybeRelocatable → Exec Vm (Unit {0})
update_if_missing (some _) addr value = pure tt
update_if_missing none addr value = write addr value

unfoldable pub compute_operands : Gcdex → Instruction → Exec Vm (Operands × List MaybeRelocatable)
compute_operands igcdex i = do
  dst_addr ← ask (λ c. compute_dst_addr c i)
  dst ← read_option dst_addr
  op0_addr ← ask (λ c. compute_op0_addr c i)
  op0_cell ← read_option op0_addr
  op1_addr ← ask (λ c. compute_op1_addr c i op0_cell)
  op1_cell ← read_option op1_addr
  op0_known ← or_option op0_cell (deduce_memory_cell op0_addr)
  op1_known ← or_option op1_cell (deduce_memory_cell op1_addr)
  (op0_deduced, res0) ← deduce_first igcdex i dst op0_known op1_known
  (op1_deduced, res1) ← deduce_second igcdex i dst op0_deduced op1_known
  op0 ← or_read op0_deduced op0_addr
  op1 ← or_read op1_deduced op1_addr
  res ← or_compute (or_res res0 res1) i op0 op1
  dst_deduced ← deduce_dst dst i res
  dst_value ← or_read dst_deduced dst_addr
  update_if_missing dst dst_addr dst_value
  update_if_missing op0_known op0_addr op0
  update_if_missing op1_known op1_addr op1
  pure (
    record { dst = dst_value; res = res; op0 = op0; op1 = op1 },
    dst_addr ∷ op0_addr ∷ op1_addr ∷ [],
  )
