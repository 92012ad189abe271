-- ===== src/Builtins.antt =====
-- A builtin with one memory segment (`SimpleBuiltinRunner` of
-- starkware/cairo/lang/vm/builtin_runner.py).
pub mod Checks
pub mod RangeCheck
use pip_cairo_lang.Prelude.{
  ℕ, zero, suc, ◌+◌, ◌*◌, Bool, true, false, ◌&&◌, not, Option, none, some, List, [], ◌∷◌, ◌++◌,
  if◌then◌else◌, length,
}
use pip_cairo_lang.Prelude.Int.{ℤ, pos, ◌+ℤ◌, ◌*ℤ◌, ltb_ℤ, leb_ℤ, eqb_ℤ}
use pip_cairo_lang.Value.{RelocatableValue, MaybeRelocatable, int, relocatable, eqb}
use pip_cairo_lang.Result.{
  Result, ok, err, base_unset, stop_pointer, missing_cells, insufficient_allocated_cells,
}
use pip_cairo_lang.Result
use pip_cairo_lang.Exec.{Exec, pure, asks, modify, ◌>>=◌, ◌>>◌}
use pip_cairo_lang.Relocatable.{add, sub}
use pip_cairo_lang.Memory.Dict.{Cells}
use pip_cairo_lang.Memory.{MemoryDict, get_item}
use pip_cairo_lang.MathUtils.{safe_div, div_ceil, floor_div}
use pip_cairo_lang.Segments.{
  MemorySegmentManager, add_segment, finalize, get_segment_used_size, get_segment_size, max_ℤ,
}

pub record SimpleBuiltinRunner : Type 0 where
  pub included : Bool
  pub ratio : ℤ
  pub base : Option RelocatableValue
  pub stop_ptr : Option MaybeRelocatable
  pub cells_per_instance : ℤ
  pub n_input_cells : ℤ

-- What the builtin asks of the Cairo runner.
pub record Runner : Type 0 where
  pub segments : MemorySegmentManager
  pub vm_memory : MemoryDict
  pub current_step : ℤ

unfoldable pub new_builtin : Bool → ℤ → ℤ → ℤ → SimpleBuiltinRunner
new_builtin included ratio cells_per_instance n_input_cells = record {
  included = included;
  ratio = ratio;
  base = none;
  stop_ptr = none;
  cells_per_instance = cells_per_instance;
  n_input_cells = n_input_cells;
}

unfoldable pub initialize_segments :
    SimpleBuiltinRunner → MemorySegmentManager → SimpleBuiltinRunner × MemorySegmentManager
initialize_segments b segments =
    let (base, segments') = add_segment none segments in (record b { base = some base }, segments')

-- the property `base`
unfoldable pub base_of : SimpleBuiltinRunner → Result RelocatableValue
base_of b = elim b.base [ none ↦ err (Result.assertion base_unset) | some base ↦ ok base ]

unfoldable pub initial_stack : SimpleBuiltinRunner → Result (List MaybeRelocatable)
unfolding base_of
initial_stack b =
    if b.included then Result.◌>>=◌ (base_of b) (λ base. ok (relocatable base ∷ [])) else ok []

unfoldable pub get_used_cells : SimpleBuiltinRunner → Runner → Result ℤ
get_used_cells b runner =
    Result.◌>>=◌ (base_of b) λ base. get_segment_used_size runner.segments base.segment_index

unfoldable pub get_used_instances : SimpleBuiltinRunner → Runner → Result ℤ
get_used_instances b runner =
    Result.◌>>=◌ (get_used_cells b runner) λ used. div_ceil used b.cells_per_instance

-- `self.base + used`, where the cells in use fill whole instances
abbrev expected_stop : SimpleBuiltinRunner → Runner → Result MaybeRelocatable
expected_stop b runner = Result.◌>>=◌ (get_used_instances b runner) λ instances.
    Result.◌>>=◌ (base_of b)
      λ base. add (relocatable base) (int (instances *ℤ b.cells_per_instance))

abbrev set_stop_ptr : MaybeRelocatable → Exec SimpleBuiltinRunner (Unit {0})
set_stop_ptr v = modify (λ b. record b { stop_ptr = some v })

abbrev final_included : Runner → MaybeRelocatable → Exec SimpleBuiltinRunner MaybeRelocatable
final_included runner pointer = do
  top ← asks (λ _. sub pointer (int (pos 1)))
  stop ← asks (λ _. get_item runner.vm_memory top)
  set_stop_ptr stop
  expected ← asks (λ b. expected_stop b runner)
  asks (λ _. Result.assert (eqb stop expected) stop_pointer)
  pure top

abbrev final_excluded : MaybeRelocatable → Exec SimpleBuiltinRunner MaybeRelocatable
final_excluded pointer = do base ← asks base_of; set_stop_ptr (relocatable base); pure pointer

unfoldable pub final_stack : Runner → MaybeRelocatable → Exec SimpleBuiltinRunner MaybeRelocatable
final_stack runner pointer = do
  included ← asks (λ b. ok b.included)
  if included then final_included runner pointer else final_excluded pointer

unfoldable pub get_allocated_memory_units : SimpleBuiltinRunner → Runner → Result ℤ
get_allocated_memory_units b runner =
    Result.◌>>=◌ (safe_div runner.current_step b.ratio) λ n. ok (b.cells_per_instance *ℤ n)

-- `raise InsufficientAllocatedCells` where the test holds
abbrev insufficient_if : Bool → Result (Unit {0})
insufficient_if t = if t then err insufficient_allocated_cells else ok tt

unfoldable pub get_used_cells_and_allocated_size : SimpleBuiltinRunner → Runner → Result (ℤ × ℤ)
get_used_cells_and_allocated_size b runner =
    Result.◌>>◌ (insufficient_if (ltb_ℤ runner.current_step b.ratio)) (
      Result.◌>>=◌ (get_used_cells b runner) λ used.
        Result.◌>>=◌ (safe_div runner.current_step b.ratio) λ n.
          let size = b.cells_per_instance *ℤ n in
          Result.◌>>◌ (insufficient_if (ltb_ℤ size used)) (ok (used, size)))

unfoldable pub finalize_segments : SimpleBuiltinRunner → Runner → Result MemorySegmentManager
finalize_segments b runner = Result.◌>>=◌ (get_used_cells_and_allocated_size b runner) λ sizes.
    Result.◌>>=◌ (base_of b)
      λ base. ok (finalize base.segment_index (some sizes.1) [] runner.segments)

abbrev pub mem_offset : ℤ → List ℤ → Bool
mem_offset x [] = false
mem_offset x (y ∷ ys) = if eqb_ℤ x y then true else mem_offset x ys

abbrev with_offset : MaybeRelocatable → ℤ → List ℤ → List ℤ
with_offset (int _) segment_index offsets = offsets
with_offset (relocatable addr) segment_index offsets =
    if eqb_ℤ addr.segment_index segment_index && not (mem_offset addr.offset offsets)
    then addr.offset ∷ offsets
    else offsets

-- The offsets of the builtin's segment that are in memory, each of them once.
unfoldable pub offsets_of : Cells → ℤ → List ℤ
offsets_of [] segment_index = []
offsets_of ((addr, _) ∷ rest) segment_index =
    with_offset addr segment_index (offsets_of rest segment_index)

abbrev largest : ℤ → List ℤ → ℤ
largest m [] = m
largest m (x ∷ xs) = largest (max_ℤ m x) xs

unfoldable pub n_instances : ℤ → List ℤ → Result ℤ
n_instances cells_per_instance [] = ok (pos 0)
n_instances cells_per_instance (x ∷ xs) =
    Result.◌>>=◌ (floor_div (largest x xs) cells_per_instance) λ q. ok (q +ℤ pos 1)

-- `range(n)` has no element for a negative n.
abbrev pub range_size : ℤ → ℕ
range_size (pos n) = n
range_size _ = 0

-- Whether the offsets start + j are there for each j below `count`.
unfoldable pub has_range : List ℤ → ℤ → ℕ → Bool
has_range offsets start zero = true
has_range offsets start (suc j) = has_range offsets start j && mem_offset (start +ℤ pos j) offsets

-- Whether the input cells of the first `i` instances are there.
unfoldable pub has_inputs : List ℤ → ℤ → ℕ → ℕ → Bool
has_inputs offsets cells_per_instance n_input_cells zero = true
has_inputs offsets cells_per_instance n_input_cells (suc i) =
    has_inputs offsets cells_per_instance n_input_cells i
    && has_range offsets (cells_per_instance *ℤ pos i) n_input_cells

unfoldable pub run_security_checks : SimpleBuiltinRunner → Runner → Result (Unit {0})
run_security_checks b runner = Result.◌>>=◌ (base_of b) λ base.
    let offsets = offsets_of runner.vm_memory.cells base.segment_index in
    Result.◌>>=◌ (n_instances b.cells_per_instance offsets) λ n.
      Result.◌>>=◌ (floor_div (pos (length offsets)) b.n_input_cells) λ most.
        Result.◌>>◌ (Result.assert (leb_ℤ n most) missing_cells) (
          Result.assert
            (has_inputs offsets b.cells_per_instance (range_size n) (range_size b.n_input_cells))
            missing_cells)

abbrev addresses_from : RelocatableValue → ℕ → List RelocatableValue
addresses_from base zero = []
addresses_from base (suc n) =
    addresses_from base n ++ record base { offset = base.offset +ℤ pos n } ∷ []

unfoldable pub get_memory_accesses : SimpleBuiltinRunner → Runner → Result (List RelocatableValue)
get_memory_accesses b runner = Result.◌>>=◌ (base_of b) λ base.
    Result.◌>>=◌ (get_segment_size runner.segments base.segment_index)
      λ segment_size. ok (addresses_from base (range_size segment_size))
