-- ===== src/Tests/Memory.antt =====
-- A memory of two segments, its sizes and its layout
-- (starkware/cairo/lang/vm/memory_dict.py, starkware/cairo/lang/vm/memory_segments.py,
-- starkware/cairo/lang/vm/builtin_runner.py).
use pip_cairo_lang.Prelude.{
  some-injective, ℕ, zero, suc, ◌^◌, ◌<◌, ◌≡◌, ◌↔◌, refl, arith, true, false, none, some, [], ◌∷◌,
  All, ap,
}
use pip_cairo_lang.Prelude.Int.{ℤ, pos, negsuc, ◌+ℤ◌, ◌*ℤ◌, ◌-ℤ◌, ◌%ℤ◌}
use pip_cairo_lang.Value.{RelocatableValue, MaybeRelocatable, int, relocatable}
use pip_cairo_lang.Result.{ok}
use pip_cairo_lang.Exec
use pip_cairo_lang.Exec.Steps.{Returns}
use pip_cairo_lang.Relocatable.{SegmentMap}
use pip_cairo_lang.Memory.{
  MemoryDict, empty_memory, set_item, get_item, relocate_value, relocate_address,
}
use pip_cairo_lang.Memory.Dict.{lookup, store}
use pip_cairo_lang.Memory.WriteOnce.{here, next, CanWrite, set_item_iff, write_once}
use pip_cairo_lang.Memory.Relocation.{relocate_value-idempotent}
use pip_cairo_lang.Memory.Relocation.Chains.{
  Leads, Chain, one, more, IsAcyclic, relocate_value-total,
}
use pip_cairo_lang.Memory.Validated.{
  ValidatedMemory, add_validation_rule, set_validated, put_item, validate_memory_cell, run_rules,
}
use pip_cairo_lang.Segments.{
  MemorySegmentManager, zero_sizes, widen_all, compute_effective_sizes, relocate_segments,
  relocate_from, get_segment_size, get_segment_used_size, finalize,
}
use pip_cairo_lang.Segments.Layout.{Sizes, Placed, relocate_segments-injective}
use pip_cairo_lang.Segments.Sizes.{Covered, compute_effective_sizes-covers}
use pip_cairo_lang.Builtins.{
  SimpleBuiltinRunner, Runner, new_builtin, base_of, get_used_cells,
  get_used_cells_and_allocated_size, finalize_segments,
}
use pip_cairo_lang.MathUtils.{safe_div, floor_div}
use pip_cairo_lang.Builtins.Checks.{Allotted, finalize_segments-Allotted}
use pip_cairo_lang.Builtins.RangeCheck.{InRange, range_rule, set_validated-InRange}

abbrev at : ℤ → ℕ → RelocatableValue
at s o = record { segment_index = s; offset = pos o }

abbrev cell : ℤ → ℕ → MaybeRelocatable
cell s o = relocatable (at s o)

abbrev one_cell : MemoryDict
one_cell = record empty_memory { cells = (cell (pos 0) 1, int (pos 5)) ∷ [] }

abbrev two_cells : MemoryDict
two_cells = record empty_memory {
  cells = (cell (pos 0) 1, int (pos 5)) ∷ (cell (pos 1) 0, int (pos 6)) ∷ [];
}

write_first : set_item empty_memory (cell (pos 0) 1) (int (pos 5)) ≡ ok one_cell
unfolding set_item store lookup
write_first = refl

write_other : set_item one_cell (cell (pos 1) 0) (int (pos 6)) ≡ ok two_cells
unfolding set_item store lookup
write_other = refl

write_again : set_item two_cells (cell (pos 0) 1) (int (pos 5)) ≡ ok two_cells
unfolding set_item store lookup
write_again = refl

write_once_example : int (pos 5) ≡ int (pos 5)
write_once_example =
    write_once empty_memory (cell (pos 0) 1) (int (pos 5)) (int (pos 5)) write_first
      (next (cell (pos 1) 0) (int (pos 6)) here write_other) write_again

set_item_iff_example :
    ((m' : MemoryDict) × (set_item one_cell (cell (pos 0) 1) (int (pos 4)) ≡ ok m'))
    ↔ CanWrite one_cell (cell (pos 0) 1) (int (pos 4))
set_item_iff_example = set_item_iff one_cell (cell (pos 0) 1) (int (pos 4))

-- two rules, where the first segment goes to the second
abbrev chained : MemoryDict
chained = record empty_memory {
  relocation_rules = (negsuc 0, at (negsuc 1) 3) ∷ (negsuc 1, at (pos 4) 2) ∷ [];
}

abbrev rank : ℤ → ℕ
rank (negsuc zero) = 2
rank (negsuc (suc zero)) = 1
rank _ = 0

relocate_chained : relocate_value chained (cell (negsuc 0) 1) ≡ ok (cell (pos 4) 6)
unfolding relocate_value relocate_address ◌+ℤ◌
relocate_chained = refl

relocate_value-idempotent_example : relocate_value chained (cell (pos 4) 6) ≡ ok (cell (pos 4) 6)
relocate_value-idempotent_example =
    relocate_value-idempotent chained (cell (negsuc 0) 1) (cell (pos 4) 6) relocate_chained

rank_falls :
    (s : ℤ) (to : RelocatableValue)
    → Leads chained.relocation_rules s to
    → rank to.segment_index < rank s
rank_falls (pos n) to (temporary, f) = absurd (cc f)
rank_falls (negsuc zero) to (temporary, f) =
    let e : at (negsuc 1) 3 ≡ to = some-injective f in rw (← e) (omega arith)
rank_falls (negsuc (suc zero)) to (temporary, f) =
    let e : at (pos 4) 2 ≡ to = some-injective f in rw (← e) (omega arith)
rank_falls (negsuc (suc (suc n))) to (temporary, f) = absurd (ground arith)

Chain-falls :
    {s : ℤ} {to : RelocatableValue}
    → Chain chained.relocation_rules s to
    → rank to.segment_index < rank s
Chain-falls {s} {to} (one leads) = rank_falls s to leads
Chain-falls {s} {to} (more {mid = mid} chain leads) =
    omega (arith, Chain-falls chain, rank_falls mid.segment_index to leads)

chained-IsAcyclic : IsAcyclic chained.relocation_rules
chained-IsAcyclic s to chain back = absurd (omega (arith, Chain-falls chain, ap rank back))

relocate_value-total_example :
    (w : MaybeRelocatable) × (relocate_value chained (cell (negsuc 0) 1) ≡ ok w)
relocate_value-total_example = relocate_value-total chained (cell (negsuc 0) 1) chained-IsAcyclic

abbrev segments : MemorySegmentManager
segments = record {
  n_segments = 2;
  segment_sizes = [];
  segment_used_sizes = none;
  public_memory_offsets = [];
  n_temp_segments = 0;
}

abbrev sizes : SegmentMap ℤ
sizes = (pos 0, pos 2) ∷ (pos 1, pos 1) ∷ []

abbrev measured : MemorySegmentManager
measured = record segments { segment_used_sizes = some sizes }

abbrev frozen_cells : MemoryDict
frozen_cells = record two_cells { is_frozen = true }

measure : Returns (compute_effective_sizes frozen_cells false) segments tt measured
unfolding compute_effective_sizes widen_all zero_sizes ◌+ℤ◌ ◌-ℤ◌ Exec.◌>>=◌
measure = refl

compute_effective_sizes-covers_example :
    (used : SegmentMap ℤ) × (measured.segment_used_sizes ≡ some used)
    × Sizes used
    × All (λ c. Covered used c.0) two_cells.cells
compute_effective_sizes-covers_example =
    compute_effective_sizes-covers frozen_cells false segments measured refl measure

abbrev offsets : SegmentMap ℤ
offsets = (pos 0, pos 1) ∷ (pos 1, pos 3) ∷ []

lay_out : relocate_segments measured ≡ ok offsets
unfolding relocate_segments relocate_from get_segment_size get_segment_used_size ◌+ℤ◌
lay_out = refl

placed : Placed sizes offsets (pos 1) (pos 0) (pos 3)
unfolding ◌+ℤ◌
placed = record {
  size = pos 1;
  start = pos 3;
  used_size = refl;
  offset_start = refl;
  low = omega arith;
  high = omega arith;
  address = refl;
}

relocate_segments-injective_example : (pos 1 ≡ pos 1) × (pos 0 ≡ pos 0)
relocate_segments-injective_example =
    relocate_segments-injective measured sizes offsets (pos 1) (pos 0) (pos 1) (pos 0) (pos 3) refl
      (omega arith) lay_out placed placed

abbrev checked : ValidatedMemory
checked =
    add_validation_rule (pos 2) (range_rule (2 ^ 128))
      (record { memory = empty_memory; validation_rules = []; validated_addresses = [] })

abbrev checked_cell : ValidatedMemory
checked_cell = record checked {
  memory = record empty_memory { cells = (cell (pos 2) 0, int (pos 77)) ∷ [] };
  validated_addresses = at (pos 2) 0 ∷ [];
}

write_checked : Returns (set_validated (cell (pos 2) 0) (int (pos 77))) checked tt checked_cell
unfolding set_validated put_item validate_memory_cell run_rules range_rule set_item get_item
    relocate_value lookup store add_validation_rule Exec.◌>>=◌
write_checked = refl

set_validated-InRange_example : InRange (2 ^ 128) (int (pos 77))
unfolding add_validation_rule
set_validated-InRange_example =
    set_validated-InRange (2 ^ 128) [] (at (pos 2) 0) (int (pos 77)) checked checked_cell refl refl
      write_checked

abbrev builtin : SimpleBuiltinRunner
builtin = record (new_builtin true (pos 8) (pos 2) (pos 1)) { base = some (at (pos 0) 0) }

abbrev runner : Runner
runner = record { segments = measured; vm_memory = two_cells; current_step = pos 16 }

abbrev finalized : MemorySegmentManager
finalized = record measured {
  segment_sizes = (pos 0, pos 4) ∷ [];
  public_memory_offsets = (pos 0, []) ∷ [];
}

finalize_builtin : finalize_segments builtin runner ≡ ok finalized
unfolding finalize_segments get_used_cells_and_allocated_size get_used_cells get_segment_used_size
    base_of new_builtin safe_div floor_div finalize ◌*ℤ◌ ◌%ℤ◌
finalize_builtin = refl

base_of_builtin : base_of builtin ≡ ok (at (pos 0) 0)
unfolding base_of new_builtin
base_of_builtin = refl

finalize_segments-Allotted_example : Allotted builtin runner (at (pos 0) 0) finalized
finalize_segments-Allotted_example =
    finalize_segments-Allotted builtin runner (at (pos 0) 0) finalized base_of_builtin
      finalize_builtin
