-- ===== src/Vm/State.antt =====
-- The state of the virtual machine: the registers of `RunContext`, the validated memory, the rules
-- of the builtins and the records of a run (starkware/cairo/lang/vm/vm_core.py,
-- starkware/cairo/lang/vm/virtual_machine_base.py, starkware/cairo/lang/vm/trace_entry.py).
use pip_cairo_lang.Prelude.{ℕ, zero, suc, Bool, Option, none, some, List, [], ◌∷◌, if◌then◌else◌}
use pip_cairo_lang.Prelude.Int.{ℤ, eqb_ℤ}
use pip_cairo_lang.Value.{RelocatableValue, MaybeRelocatable, int, relocatable, eqb}
use pip_cairo_lang.Result
use pip_cairo_lang.Result.{Error, Result, ok, err, vm_exception, inconsistent_auto_deduction}
use pip_cairo_lang.Memory.Dict.{Cells}
use pip_cairo_lang.Exec.{Exec, pure, asks, modify, ◌>>=◌, ◌>>◌}
use pip_cairo_lang.Relocatable.{SegmentMap}
use pip_cairo_lang.Memory.{MemoryDict, get, get_item}
use pip_cairo_lang.Memory.Validated.{ValidatedMemory, set_validated, rules_of, add_rule}

pub record RunContext : Type 0 where
  pub pc : MaybeRelocatable
  pub ap : MaybeRelocatable
  pub fp : MaybeRelocatable
  pub prime : ℕ

pub record Operands : Type 0 where
  pub dst : MaybeRelocatable
  pub res : Option MaybeRelocatable
  pub op0 : MaybeRelocatable
  pub op1 : MaybeRelocatable

pub record TraceEntry : Type 0 where
  pub pc : MaybeRelocatable
  pub ap : MaybeRelocatable
  pub fp : MaybeRelocatable

-- the trace entry of the registers
abbrev pub entry_of : RunContext → TraceEntry
entry_of c = record { pc = c.pc; ap = c.ap; fp = c.fp }

-- A call of a rule: the memory at the call, and the address.
pub record RuleCall : Type 0 where
  pub memory : MemoryDict
  pub addr : RelocatableValue

-- An auto-deduction rule of a builtin, a Python callback that reads the memory. It may keep a state
-- of its own between its calls (such as the verified addresses of the hash builtin), so what it
-- gives is a function of its earlier calls too, the last one first.
pub record Rule : Type 0 where
  pub answer : List RuleCall → MemoryDict → RelocatableValue → Result (Option MaybeRelocatable)
  pub calls : List RuleCall

pub record Vm : Type 0 where
  pub run_context : RunContext
  pub validated_memory : ValidatedMemory
  pub auto_deduction : SegmentMap (List Rule)
  pub trace : List TraceEntry
  pub accessed_addresses : List MaybeRelocatable
  pub current_step : ℕ
  pub skip_instruction_execution : Bool

-- The memory of the run context and that of the validated memory are one object.
abbrev pub memory_of : Vm → MemoryDict
memory_of vm = vm.validated_memory.memory

-- A method of the validated memory, called on the machine's.
unfoldable pub on_memory : {A : Type 0} → Exec ValidatedMemory A → Exec Vm A
on_memory m vm = let (r, v) = m vm.validated_memory in (r, record vm { validated_memory = v })

unfoldable pub on_context : {A : Type 0} → Exec RunContext A → Exec Vm A
on_context m vm = let (r, c) = m vm.run_context in (r, record vm { run_context = c })

abbrev pub read_option : MaybeRelocatable → Exec Vm (Option MaybeRelocatable)
read_option addr = asks (λ vm. get (memory_of vm) addr)

abbrev pub read : MaybeRelocatable → Exec Vm MaybeRelocatable
read addr = asks (λ vm. get_item (memory_of vm) addr)

abbrev pub write : MaybeRelocatable → MaybeRelocatable → Exec Vm (Unit {0})
write addr value = on_memory (set_validated addr value)

-- `as_vm_exception`: the error, at the program counter
abbrev pub as_vm_exception : Vm → Error → Error
as_vm_exception vm e = vm_exception vm.run_context.pc e

unfoldable pub add_auto_deduction_rule : ℤ → Rule → Vm → Vm
add_auto_deduction_rule segment_index rule vm = record vm {
  auto_deduction = add_rule segment_index rule vm.auto_deduction;
}

-- `deduce_memory_cell`: the first rule that gives a value has it written.
abbrev pub try_value :
    RelocatableValue
    → Option MaybeRelocatable
    → Exec Vm (Option MaybeRelocatable)
    → Exec Vm (Option MaybeRelocatable)
try_value addr none rest = rest
try_value addr (some value) rest = write (relocatable addr) value >> pure (some value)

abbrev pub replace_at : ℕ → Rule → List Rule → List Rule
replace_at k r [] = []
replace_at zero r (_ ∷ rules) = r ∷ rules
replace_at (suc k) r (other ∷ rules) = other ∷ replace_at k r rules

-- the k-th rule of a segment, after a call
abbrev pub replace_rule : ℤ → ℕ → Rule → SegmentMap (List Rule) → SegmentMap (List Rule)
replace_rule s k r [] = []
replace_rule s k r ((t, rules) ∷ segments) =
    if eqb_ℤ s t
    then (t, replace_at k r rules) ∷ segments
    else (t, rules) ∷ replace_rule s k r segments

abbrev pub called : Rule → MemoryDict → RelocatableValue → Rule
called r m a = record r { calls = record { memory = m; addr = a } ∷ r.calls }

abbrev pub renew : RelocatableValue → ℕ → Rule → Vm → Vm
renew addr k r vm = record vm {
  auto_deduction =
      replace_rule addr.segment_index k (called r (memory_of vm) addr) vm.auto_deduction;
}

-- `rule(self, addr, *args)`, for the k-th rule of the segment; the call is one of its earlier calls
-- from then on, also if it raises.
unfoldable pub call_rule : RelocatableValue → ℕ → Rule → Exec Vm (Option MaybeRelocatable)
call_rule addr k r = do modify (renew addr k r); asks (λ vm. r.answer r.calls (memory_of vm) addr)

-- The rules from the k-th on.
unfoldable pub try_rules : RelocatableValue → ℕ → List Rule → Exec Vm (Option MaybeRelocatable)
unfolding call_rule
try_rules addr k [] = pure none
try_rules addr k (r ∷ rules) =
    let rest = try_rules addr (suc k) rules in
    do value ← call_rule addr k r; try_value addr value rest

unfoldable pub deduce_memory_cell : MaybeRelocatable → Exec Vm (Option MaybeRelocatable)
deduce_memory_cell (int _) = pure none
deduce_memory_cell (relocatable addr) = do
  rules ← asks (λ vm. ok (rules_of addr.segment_index vm.auto_deduction))
  try_rules addr 0 rules

-- One rule of `verify_auto_deductions` at one address.
abbrev verify_value : Vm → RelocatableValue → Option MaybeRelocatable → Result (Unit {0})
verify_value vm addr none = ok tt
verify_value vm addr (some value) =
    Result.◌>>=◌ (get_item (memory_of vm) (relocatable addr)) λ current.
      if eqb current value
      then ok tt
      else err (inconsistent_auto_deduction (relocatable addr) current value)

unfoldable pub verify_rules : RelocatableValue → ℕ → List Rule → Exec Vm (Unit {0})
unfolding call_rule
verify_rules addr k [] = pure tt
verify_rules addr k (r ∷ rules) = do
  value ← call_rule addr k r
  asks (λ vm. verify_value vm addr value)
  verify_rules addr (suc k) rules

unfoldable pub verify_cells : Cells → Exec Vm (Unit {0})
verify_cells [] = pure tt
verify_cells ((int _, _) ∷ cells) = verify_cells cells
verify_cells ((relocatable addr, _) ∷ cells) = do
  rules ← asks (λ vm. ok (rules_of addr.segment_index vm.auto_deduction))
  verify_rules addr 0 rules
  verify_cells cells

-- `check_eq` is `==` for this machine.
unfoldable pub verify_auto_deductions : Exec Vm (Unit {0})
verify_auto_deductions = do memory ← asks (λ vm. ok (memory_of vm)); verify_cells memory.cells
