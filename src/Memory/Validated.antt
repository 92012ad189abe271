-- ===== src/Memory/Validated.antt =====
-- starkware/cairo/lang/vm/validated_memory_dict.py: a memory whose writes run the validation rules
-- of their segment. A rule is a Python callback, so it is a function of the model.
use pip_cairo_lang.Prelude.{Bool, false, none, some, List, [], ◌∷◌, ◌++◌, ◌||◌, if◌then◌else◌}
use pip_cairo_lang.Prelude.Int.{ℤ, eqb_ℤ}
use pip_cairo_lang.Value.{RelocatableValue, MaybeRelocatable, int, relocatable, eqb_relocatable}
use pip_cairo_lang.Result.{Result, ok}
use pip_cairo_lang.Exec.{Exec, pure, asks, modify, ◌>>=◌, ◌>>◌}
use pip_cairo_lang.Relocatable.{SegmentMap, find_segment}
use pip_cairo_lang.Memory.Dict.{Cells}
use pip_cairo_lang.Memory.{MemoryDict, set_item}

-- the addresses that the rule has validated
abbrev pub ValidationRule : Type 0
ValidationRule = MemoryDict → RelocatableValue → Result (List RelocatableValue)

pub record ValidatedMemory : Type 0 where
  pub memory : MemoryDict
  pub validation_rules : SegmentMap (List ValidationRule)
  pub validated_addresses : List RelocatableValue

-- the rules, or the empty list, of a segment
abbrev pub rules_of {ℓ} : {V : Type ℓ} → ℤ → SegmentMap (List V) → List V
rules_of s m = elim (find_segment s m) [ none ↦ [] | some rules ↦ rules ]

-- `setdefault(segment_index, []).append(rule)`
abbrev pub add_rule {ℓ} : {V : Type ℓ} → ℤ → V → SegmentMap (List V) → SegmentMap (List V)
add_rule s rule [] = (s, rule ∷ []) ∷ []
add_rule s rule ((t, rules) ∷ m) =
    if eqb_ℤ s t then (t, rules ++ rule ∷ []) ∷ m else (t, rules) ∷ add_rule s rule m

unfoldable pub add_validation_rule : ℤ → ValidationRule → ValidatedMemory → ValidatedMemory
add_validation_rule segment_index rule v = record v {
  validation_rules = add_rule segment_index rule v.validation_rules;
}

abbrev pub was_validated : RelocatableValue → List RelocatableValue → Bool
was_validated a [] = false
was_validated a (b ∷ bs) = eqb_relocatable a b || was_validated a bs

abbrev pub add_validated : List RelocatableValue → Exec ValidatedMemory (Unit {0})
add_validated validated =
    modify (λ v. record v { validated_addresses = validated ++ v.validated_addresses })

unfoldable pub run_rules : RelocatableValue → List ValidationRule → Exec ValidatedMemory (Unit {0})
run_rules addr [] = pure tt
run_rules addr (rule ∷ rules) =
    let rest = run_rules addr rules in
    do validated ← asks (λ v. rule v.memory addr); add_validated validated; rest

-- `_validate_memory_cell`
unfoldable pub validate_memory_cell : MaybeRelocatable → Exec ValidatedMemory (Unit {0})
validate_memory_cell (int _) = pure tt
validate_memory_cell (relocatable addr) = do
  done ← asks (λ v. ok (was_validated addr v.validated_addresses))
  rules ← asks (λ v. ok (rules_of addr.segment_index v.validation_rules))
  if done then pure tt else run_rules addr rules

-- `self.__memory[addr] = value`
unfoldable pub put_item : MaybeRelocatable → MaybeRelocatable → Exec ValidatedMemory (Unit {0})
put_item addr value = do
  m ← asks (λ v. set_item v.memory addr value)
  modify (λ v. record v { memory = m })

-- `__setitem__`: the value is in the memory before it is validated.
unfoldable pub set_validated : MaybeRelocatable → MaybeRelocatable → Exec ValidatedMemory (Unit {0})
set_validated addr value = do put_item addr value; validate_memory_cell addr

unfoldable pub validate_cells : Cells → Exec ValidatedMemory (Unit {0})
validate_cells [] = pure tt
validate_cells ((addr, _) ∷ cells) =
    let rest = validate_cells cells in validate_memory_cell addr >> rest

-- The cells that are there; rules do not write.
unfoldable pub validate_existing_memory : Exec ValidatedMemory (Unit {0})
validate_existing_memory = do cells ← asks (λ v. ok v.memory.cells); validate_cells cells
