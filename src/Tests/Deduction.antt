-- ===== src/Tests/Deduction.antt =====
-- A rule that answers its first call only (starkware/cairo/lang/vm/virtual_machine_base.py).
use pip_cairo_lang.Prelude.{refl, none, some, List, [], ◌∷◌, Option}
use pip_cairo_lang.Prelude.Int.{pos}
use pip_cairo_lang.Value.{RelocatableValue, MaybeRelocatable, int}
use pip_cairo_lang.Result.{Result, ok}
use pip_cairo_lang.Exec
use pip_cairo_lang.Exec.Steps.{Returns}
use pip_cairo_lang.Memory.{MemoryDict, set_item}
use pip_cairo_lang.Memory.Dict.{lookup, store}
use pip_cairo_lang.Memory.Validated.{set_validated, put_item, validate_memory_cell, run_rules}
use pip_cairo_lang.Vm.State.{RuleCall, Vm, on_memory, call_rule, try_rules, deduce_memory_cell}
use pip_cairo_lang.Tests.Machine.{cell, memory, machine}

abbrev first_only : List RuleCall → MemoryDict → RelocatableValue → Result (Option MaybeRelocatable)
first_only [] m addr = ok (some (int (pos 5)))
first_only (_ ∷ _) m addr = ok none

abbrev with_rule : Vm
with_rule = record machine {
  auto_deduction = (pos 3, record { answer = first_only; calls = [] } ∷ []) ∷ [];
}

abbrev addr_3 : RelocatableValue
addr_3 = record { segment_index = pos 3; offset = pos 0 }

abbrev call_3 : RuleCall
call_3 = record { memory = memory; addr = addr_3 }

abbrev memory_5 : MemoryDict
memory_5 = record memory {
  cells =
      (cell 0 0, int (pos 5189976364521848832))
      ∷ (cell 0 1, int (pos 7))
      ∷ (cell 1 0, int (pos 9))
      ∷ (cell 3 0, int (pos 5))
      ∷ [];
}

abbrev deduced : Vm
deduced = record machine {
  auto_deduction = (pos 3, record { answer = first_only; calls = call_3 ∷ [] } ∷ []) ∷ [];
  validated_memory = record { memory = memory_5; validation_rules = []; validated_addresses = [] };
}

abbrev call_3_again : RuleCall
call_3_again = record { memory = memory_5; addr = addr_3 }

abbrev deduced_twice : Vm
deduced_twice = record deduced {
  auto_deduction =
      (pos 3, record { answer = first_only; calls = call_3_again ∷ call_3 ∷ [] } ∷ []) ∷ [];
}

deduce_first_call : Returns (deduce_memory_cell (cell 3 0)) with_rule (some (int (pos 5))) deduced
unfolding deduce_memory_cell try_rules call_rule on_memory set_validated put_item
    validate_memory_cell set_item lookup store run_rules Exec.◌>>=◌
deduce_first_call = refl

deduce_second_call : Returns (deduce_memory_cell (cell 3 0)) deduced none deduced_twice
unfolding deduce_memory_cell try_rules call_rule on_memory set_validated put_item
    validate_memory_cell set_item lookup store run_rules Exec.◌>>=◌
deduce_second_call = refl
