-- ===== src/Memory.antt =====
-- The memory of the machine (starkware/cairo/lang/vm/memory_dict.py): a dictionary, in the order in
-- which its cells were first written, whose cells are written once.
pub mod Dict
pub mod WriteOnce
pub mod Relocation
pub mod Serial
pub mod RoundTrip
pub mod Validated
use pip_cairo_lang.Prelude.{
  ℕ, zero, suc, ◌+◌, Bool, true, false, ◌&&◌, not, Option, none, some, List, [], ◌∷◌, ◌++◌, length,
  ltb, if◌then◌else◌,
}
use pip_cairo_lang.Prelude.Int.{ℤ, pos, negsuc, ◌+ℤ◌, eqb_ℤ, ltb_ℤ}
use pip_cairo_lang.Value.{RelocatableValue, MaybeRelocatable, int, relocatable, eqb}
use pip_cairo_lang.Result.{
  Error, Result, ok, err, ◌>>=◌, ◌>>◌, assert, key_error, value_error, recursion_error,
  unknown_memory, inconsistent_memory, frozen, temp_segment, rule_offset, rule_exists, not_int,
}
use pip_cairo_lang.Relocatable.{SegmentMap, find_segment, add}
use pip_cairo_lang.Memory.Dict.{Cells, lookup, contains, store}

pub record MemoryDict : Type 0 where
  pub cells : Cells
  pub is_frozen : Bool
  pub relocation_rules : SegmentMap RelocatableValue

-- `MemoryDict()`
abbrev pub empty_memory : MemoryDict
empty_memory = record { cells = []; is_frozen = false; relocation_rules = [] }

-- `relocate_value` of an address. A chain of rules is followed on fuel; where that runs out
-- Python raises RecursionError.
unfoldable pub relocate_address :
    ℕ → SegmentMap RelocatableValue → RelocatableValue → Result RelocatableValue
relocate_address zero rules v =
    if ltb_ℤ v.segment_index (pos 0)
    then elim (find_segment v.segment_index rules) [ none ↦ ok v | some _ ↦ err recursion_error ]
    else ok v
relocate_address (suc fuel) rules v =
    if ltb_ℤ v.segment_index (pos 0)
    then elim (find_segment v.segment_index rules) [
      | none ↦ ok v
      | some relocation ↦ do
        r ← relocate_address fuel rules relocation
        ok (record r { offset = r.offset +ℤ v.offset })
    ]
    else ok v

-- A chain without a cycle uses each rule once, so the number of rules is fuel enough.
unfoldable pub relocate_value : MemoryDict → MaybeRelocatable → Result MaybeRelocatable
relocate_value m (int v) = ok (int v)
relocate_value m (relocatable v) = do
  r ← relocate_address (length m.relocation_rules) m.relocation_rules v
  ok (relocatable r)

abbrev pub relocate_option : MemoryDict → Option MaybeRelocatable → Result (Option MaybeRelocatable)
relocate_option m none = ok none
relocate_option m (some v) = do r ← relocate_value m v; ok (some r)

-- `MemoryDict.get`, with the default None
unfoldable pub get : MemoryDict → MaybeRelocatable → Result (Option MaybeRelocatable)
get m addr = relocate_option m (lookup addr m.cells)

-- `_check_element`: an int that is negative is no value
abbrev pub is_element : MaybeRelocatable → Bool
is_element (relocatable _) = true
is_element (int (pos _)) = true
is_element (int (negsuc _)) = false

abbrev pub check_element : MaybeRelocatable → Error → Result (Unit {0})
check_element num e = if is_element num then ok tt else err e

abbrev pub or_unknown : MaybeRelocatable → Option MaybeRelocatable → Result MaybeRelocatable
or_unknown addr none = err (unknown_memory addr)
or_unknown addr (some v) = ok v

-- `__getitem__`
unfoldable pub get_item : MemoryDict → MaybeRelocatable → Result MaybeRelocatable
get_item m addr = do
  check_element addr key_error
  value ← or_unknown addr (lookup addr m.cells)
  relocate_value m value

abbrev pub has_negative_offset : MaybeRelocatable → Bool
has_negative_offset (int _) = false
has_negative_offset (relocatable v) = ltb_ℤ v.offset (pos 0)

abbrev pub check_offset : MaybeRelocatable → Result (Unit {0})
check_offset addr = if has_negative_offset addr then err value_error else ok tt

-- `data.setdefault(addr, value)` and `verify_same_value`
abbrev pub set_default :
    MemoryDict → MaybeRelocatable → MaybeRelocatable → Option MaybeRelocatable → Result MemoryDict
set_default m addr value none = ok (record m { cells = store addr value m.cells })
set_default m addr value (some current) =
    if eqb current value then ok m else err (inconsistent_memory addr current value)

-- `__setitem__`; a raise leaves the memory as it was
unfoldable pub set_item : MemoryDict → MaybeRelocatable → MaybeRelocatable → Result MemoryDict
set_item m addr value = do
  assert (not m.is_frozen) frozen
  check_element addr key_error
  check_element value value_error
  check_offset addr
  set_default m addr value (lookup addr m.cells)

-- `setdefault`: the cell, or the default once it has been written. Only a KeyError is caught, and
-- UnknownMemoryError is one.
abbrev pub is_key_error : Error → Bool
is_key_error key_error = true
is_key_error (unknown_memory _) = true
is_key_error _ = false

unfoldable pub set_default_item :
    MemoryDict → MaybeRelocatable → MaybeRelocatable → Result (MaybeRelocatable × MemoryDict)
set_default_item m key default = elim (get_item m key) [
  | ok v ↦ ok (v, m)
  | err e ↦ if is_key_error e then (do m' ← set_item m key default; ok (default, m')) else err e
]

unfoldable pub add_relocation_rule :
    MemoryDict → RelocatableValue → RelocatableValue → Result MemoryDict
add_relocation_rule m src_ptr dest_ptr = do
  assert (ltb_ℤ src_ptr.segment_index (pos 0)) temp_segment
  assert (eqb_ℤ src_ptr.offset (pos 0)) rule_offset
  assert
      (elim (find_segment src_ptr.segment_index m.relocation_rules) [
        | none ↦ true
        | some _ ↦ false
      ])
      rule_exists
  ok (record m { relocation_rules = m.relocation_rules ++ (src_ptr.segment_index, dest_ptr) ∷ [] })

unfoldable pub freeze : MemoryDict → MemoryDict
freeze m = record m { is_frozen = true }

unfoldable pub relocate_cells : MemoryDict → Cells → Cells → Result Cells
relocate_cells m [] done = ok done
relocate_cells m ((addr, value) ∷ rest) done = do
  a ← relocate_value m addr
  v ← relocate_value m value
  relocate_cells m rest (store a v done)

abbrev pub no_rules : SegmentMap RelocatableValue → Bool
no_rules [] = true
no_rules (_ ∷ _) = false

unfoldable pub relocate_memory : MemoryDict → Result MemoryDict
relocate_memory m = do
  assert (not m.is_frozen) frozen
  if no_rules m.relocation_rules then ok m else do
    cells ← relocate_cells m m.cells []
    ok (record m { cells = cells; relocation_rules = [] })

-- `get_range`: the cells from `addr + i` on
unfoldable pub get_range_from :
    MemoryDict → MaybeRelocatable → ℕ → ℕ → Result (List MaybeRelocatable)
get_range_from m addr i zero = ok []
get_range_from m addr i (suc size) = do
  a ← add addr (int (pos i))
  v ← get_item m a
  rest ← get_range_from m addr (i + 1) size
  ok (v ∷ rest)

unfoldable pub get_range : MemoryDict → MaybeRelocatable → ℕ → Result (List MaybeRelocatable)
get_range m addr size = get_range_from m addr 0 size

unfoldable pub as_ints : List MaybeRelocatable → Result (List ℤ)
as_ints [] = ok []
as_ints (int v ∷ rest) = do vs ← as_ints rest; ok (v ∷ vs)
as_ints (relocatable _ ∷ rest) = assert false not_int >> ok []

unfoldable pub get_range_as_ints : MemoryDict → MaybeRelocatable → ℕ → Result (List ℤ)
get_range_as_ints m addr size = do mem_range ← get_range m addr size; as_ints mem_range
