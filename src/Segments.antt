-- ===== src/Segments.antt =====
-- starkware/cairo/lang/vm/memory_segments.py: the list of memory segments, their sizes, and the
-- addresses that they get once the sizes are known.
pub mod Layout
pub mod Sizes
use pip_cairo_lang.Prelude.{
  ℕ, zero, suc, ◌+◌, ◌^◌, Bool, true, false, ◌&&◌, not, Option, none, some, List, [], ◌∷◌, ◌++◌,
  map, length, if◌then◌else◌,
}
use pip_cairo_lang.Prelude.Int.{ℤ, pos, ◌+ℤ◌, ◌-ℤ◌, eqb_ℤ, ltb_ℤ, leb_ℤ}
use pip_cairo_lang.Value.{RelocatableValue, MaybeRelocatable, int, relocatable}
use pip_cairo_lang.Result.{
  Result, ok, err, key_error, security_error, not_frozen, sizes_missing, segment_overflow,
  not_empty, not_relocatable, negative_offset, offset_over_size,
}
use pip_cairo_lang.Result
use pip_cairo_lang.Exec.{Exec, pure, asks, modify, ◌>>=◌, ◌>>◌}
use pip_cairo_lang.Relocatable.{SegmentMap, find_segment, add}
use pip_cairo_lang.Memory.Dict.{Cells}
use pip_cairo_lang.Memory.{MemoryDict, set_item}

abbrev pub first_memory_addr : ℤ
first_memory_addr = pos 1

abbrev pub segment_size_upper_bound : ℤ
segment_size_upper_bound = pos (2 ^ 64)

-- an (offset, page_id) pair of the public memory
abbrev pub Page : Type 0
Page = ℤ × ℤ

pub record MemorySegmentManager : Type 0 where
  pub n_segments : ℕ
  pub segment_sizes : SegmentMap ℤ
  pub segment_used_sizes : Option (SegmentMap ℤ)
  pub public_memory_offsets : SegmentMap (List Page)
  pub n_temp_segments : ℕ

-- `d[s] = v` of a dictionary keyed by segment indices
abbrev pub put_segment {ℓ} : {V : Type ℓ} → ℤ → V → SegmentMap V → SegmentMap V
put_segment s v [] = (s, v) ∷ []
put_segment s v ((t, w) ∷ m) = if eqb_ℤ s t then (t, v) ∷ m else (t, w) ∷ put_segment s v m

abbrev put_size : ℤ → Option ℤ → SegmentMap ℤ → SegmentMap ℤ
put_size s none sizes = sizes
put_size s (some size) sizes = put_segment s size sizes

unfoldable pub finalize : ℤ → Option ℤ → List Page → MemorySegmentManager → MemorySegmentManager
finalize segment_index size public_memory m = record m {
  segment_sizes = put_size segment_index size m.segment_sizes;
  public_memory_offsets = put_segment segment_index public_memory m.public_memory_offsets;
}

abbrev finalize_if : ℤ → Option ℤ → MemorySegmentManager → MemorySegmentManager
finalize_if segment_index none m = m
finalize_if segment_index (some size) m = finalize segment_index (some size) [] m

-- `add`
unfoldable pub add_segment :
    Option ℤ → MemorySegmentManager → RelocatableValue × MemorySegmentManager
unfolding finalize
add_segment size m = (
  record { segment_index = pos m.n_segments; offset = pos 0 },
  finalize_if (pos m.n_segments) size (record m { n_segments = m.n_segments + 1 }),
)

unfoldable pub add_temp_segment : MemorySegmentManager → RelocatableValue × MemorySegmentManager
add_temp_segment m = (
  record { segment_index = pos 0 -ℤ pos (m.n_temp_segments + 1); offset = pos 0 },
  record m { n_temp_segments = m.n_temp_segments + 1 },
)

-- `{index: 0 for index in range(first, first + n)}`
unfoldable pub zero_sizes : ℤ → ℕ → SegmentMap ℤ
zero_sizes first zero = []
zero_sizes first (suc n) = (first, pos 0) ∷ zero_sizes (first +ℤ pos 1) n

abbrev pub max_ℤ : ℤ → ℤ → ℤ
max_ℤ a b = if ltb_ℤ a b then b else a

-- The size that one address asks for; KeyError where its segment is not in the table.
abbrev pub widen : SegmentMap ℤ → MaybeRelocatable → Result (SegmentMap ℤ)
widen sizes (int _) = err security_error
widen sizes (relocatable addr) = elim (find_segment addr.segment_index sizes) [
  | none ↦ err key_error
  | some previous_max_size ↦
      ok (put_segment addr.segment_index (max_ℤ previous_max_size (addr.offset +ℤ pos 1)) sizes)
]

abbrev pub set_used : SegmentMap ℤ → Exec MemorySegmentManager (Unit {0})
set_used sizes = modify (λ m. record m { segment_used_sizes = some sizes })

unfoldable pub widen_all : Cells → SegmentMap ℤ → Exec MemorySegmentManager (Unit {0})
widen_all [] sizes = set_used sizes
widen_all ((addr, _) ∷ rest) sizes = do
  set_used sizes
  sizes' ← asks (λ _. widen sizes addr)
  widen_all rest sizes'

abbrev first_segment : Bool → MemorySegmentManager → ℤ × ℕ
first_segment true m = (pos 0 -ℤ pos m.n_temp_segments, m.n_temp_segments + m.n_segments)
first_segment false m = (pos 0, m.n_segments)

abbrev is_cached : Option (SegmentMap ℤ) → Bool
is_cached none = false
is_cached (some used) = true

unfoldable pub compute_effective_sizes : MemoryDict → Bool → Exec MemorySegmentManager (Unit {0})
compute_effective_sizes memory include_tmp_segments = do
  cached ← asks (λ m. ok (is_cached m.segment_used_sizes))
  if cached then pure tt else do
    asks (λ _. Result.assert memory.is_frozen not_frozen)
    (first, count) ← asks (λ m. ok (first_segment include_tmp_segments m))
    widen_all memory.cells (zero_sizes first count)

abbrev pub used_sizes : MemorySegmentManager → Result (SegmentMap ℤ)
used_sizes m = elim m.segment_used_sizes [
  | none ↦ err (Result.assertion sizes_missing)
  | some used ↦ ok used
]

abbrev or_key_error {ℓ} : {V : Type ℓ} → Option V → Result V
or_key_error none = err key_error
or_key_error (some v) = ok v

abbrev pub used_size_in : SegmentMap ℤ → ℤ → Result ℤ
used_size_in used segment_index = or_key_error (find_segment segment_index used)

unfoldable pub get_segment_used_size : MemorySegmentManager → ℤ → Result ℤ
get_segment_used_size m segment_index =
    Result.◌>>=◌ (used_sizes m) (λ used. used_size_in used segment_index)

unfoldable pub get_segment_size : MemorySegmentManager → ℤ → Result ℤ
unfolding get_segment_used_size
get_segment_size m segment_index = elim (find_segment segment_index m.segment_sizes) [
  | some size ↦ ok size
  | none ↦ get_segment_used_size m segment_index
]

-- the offsets of a set that are accessed, by segment
abbrev pub accessed_in : ℤ → SegmentMap (List ℤ) → List ℤ
accessed_in s sets = elim (find_segment s sets) [ none ↦ [] | some offsets ↦ offsets ]

abbrev pub mem_ℤ : ℤ → List ℤ → Bool
mem_ℤ x [] = false
mem_ℤ x (y ∷ ys) = if eqb_ℤ x y then true else mem_ℤ x ys

abbrev insert_ℤ : ℤ → List ℤ → List ℤ
insert_ℤ x xs = if mem_ℤ x xs then xs else x ∷ xs

-- The loop of `get_memory_holes` over the accessed addresses.
unfoldable pub accessed_offsets_sets :
    MemorySegmentManager
    → List MaybeRelocatable
    → SegmentMap (List ℤ)
    → Result (SegmentMap (List ℤ))
accessed_offsets_sets m [] sets = ok sets
accessed_offsets_sets m (int _ ∷ rest) sets = err (Result.assertion not_relocatable)
accessed_offsets_sets m (relocatable addr ∷ rest) sets =
    Result.◌>>◌ (Result.assert (leb_ℤ (pos 0) addr.offset) negative_offset) (
      Result.◌>>=◌ (get_segment_size m addr.segment_index) λ size.
        Result.◌>>◌ (Result.assert (leb_ℤ addr.offset size) offset_over_size) (
          let s = addr.segment_index in
          accessed_offsets_sets m rest
            (put_segment s (insert_ℤ addr.offset (accessed_in s sets)) sets)))

abbrev keys : SegmentMap ℤ → List ℤ
keys [] = []
keys ((s, _) ∷ m) = s ∷ keys m

-- the keys of the second table that the first has not
abbrev other_keys : SegmentMap ℤ → List ℤ → List ℤ
other_keys m [] = []
other_keys m (s ∷ rest) = elim (find_segment s m) [
  | none ↦ s ∷ other_keys m rest
  | some _ ↦ other_keys m rest
]

unfoldable pub sum_holes : MemorySegmentManager → SegmentMap (List ℤ) → List ℤ → Result ℤ
sum_holes m sets [] = ok (pos 0)
sum_holes m sets (s ∷ rest) = Result.◌>>=◌ (get_segment_size m s) λ size.
    Result.◌>>=◌ (sum_holes m sets rest)
      λ holes. ok ((size -ℤ pos (length (accessed_in s sets))) +ℤ holes)

unfoldable pub get_memory_holes : MemorySegmentManager → List MaybeRelocatable → Result ℤ
get_memory_holes m accessed_addresses =
    Result.◌>>=◌ (accessed_offsets_sets m accessed_addresses []) λ sets.
      Result.◌>>=◌ (used_sizes m)
        λ used. sum_holes m sets (keys m.segment_sizes ++ other_keys m.segment_sizes (keys used))

-- One round of the loop of `relocate_segments`, for the segments that are left.
unfoldable pub relocate_from : MemorySegmentManager → SegmentMap ℤ → ℤ → Result (SegmentMap ℤ)
relocate_from m [] current_addr = ok []
relocate_from m ((segment_index, used_size) ∷ rest) current_addr =
    Result.◌>>=◌ (get_segment_size m segment_index) λ size.
      Result.◌>>◌ (Result.assert (leb_ℤ used_size size) segment_overflow) (
        Result.◌>>=◌ (relocate_from m rest (current_addr +ℤ size))
          λ offsets. ok ((segment_index, current_addr) ∷ offsets))

unfoldable pub relocate_segments : MemorySegmentManager → Result (SegmentMap ℤ)
relocate_segments m = Result.◌>>=◌ (used_sizes m) (λ used. relocate_from m used first_memory_addr)

abbrev shift_pages : ℤ → List Page → List Page
shift_pages start [] = []
shift_pages start ((offset, page_id) ∷ rest) = (start +ℤ offset, page_id) ∷ shift_pages start rest

abbrev pages_of : Option (List Page) → List Page
pages_of none = []
pages_of (some pages) = pages

-- The public memory of the `count` segments from `segment_index` on.
unfoldable pub public_memory_from : MemorySegmentManager → SegmentMap ℤ → ℕ → ℕ → Result (List Page)
public_memory_from m segment_offsets segment_index zero = ok []
public_memory_from m segment_offsets segment_index (suc count) =
    Result.◌>>=◌ (or_key_error (find_segment (pos segment_index) segment_offsets)) λ start.
      Result.◌>>=◌ (public_memory_from m segment_offsets (segment_index + 1) count) λ rest. ok (
        shift_pages start (pages_of (find_segment (pos segment_index) m.public_memory_offsets))
        ++ rest)

unfoldable pub get_public_memory_addresses :
    MemorySegmentManager → SegmentMap ℤ → Result (List Page)
get_public_memory_addresses m segment_offsets = public_memory_from m segment_offsets 0 m.n_segments

unfoldable pub initialize_segments_from :
    MemorySegmentManager → MemorySegmentManager → Result MemorySegmentManager
initialize_segments_from m other =
    Result.◌>>◌ (Result.assert (elim m.n_segments [ zero ↦ true | suc _ ↦ false ]) not_empty)
      (ok (record m { n_segments = other.n_segments }))

abbrev store_at : MaybeRelocatable → ℕ → MaybeRelocatable → Exec MemoryDict (Unit {0})
store_at ptr i v = do
  addr ← asks (λ _. add ptr (int (pos i)))
  m' ← asks (λ m. set_item m addr v)
  modify (λ _. m')

-- the loop of `load_data`, from index `i` on
unfoldable pub load_from : MaybeRelocatable → ℕ → List MaybeRelocatable → Exec MemoryDict (Unit {0})
load_from ptr i [] = pure tt
load_from ptr i (v ∷ vs) = let rest = load_from ptr (i + 1) vs in store_at ptr i v >> rest

unfoldable pub load_data :
    MaybeRelocatable → List MaybeRelocatable → Exec MemoryDict MaybeRelocatable
load_data ptr values = do load_from ptr 0 values; asks (λ _. add ptr (int (pos (length values))))

abbrev size_limit : SegmentMap ℤ → ℤ → Bool → Option ℤ
size_limit sizes s true = find_segment s sizes
size_limit sizes s false = elim (find_segment s sizes) [
  | none ↦ none
  | some _ ↦ some segment_size_upper_bound
]

-- the function `is_valid_memory_addr`
unfoldable pub is_valid_memory_addr : MaybeRelocatable → SegmentMap ℤ → Bool → Bool
is_valid_memory_addr (int _) segment_sizes is_concrete_address = false
is_valid_memory_addr (relocatable addr) segment_sizes is_concrete_address =
    elim (size_limit segment_sizes addr.segment_index is_concrete_address) [
      | none ↦ false
      | some size ↦ leb_ℤ (pos 0) addr.offset && ltb_ℤ addr.offset size
    ]

unfoldable pub is_valid_memory_value : MaybeRelocatable → SegmentMap ℤ → Bool
unfolding is_valid_memory_addr
is_valid_memory_value (int _) segment_sizes = true
is_valid_memory_value (relocatable v) segment_sizes =
    is_valid_memory_addr (relocatable v) segment_sizes false

-- the method of the same name
unfoldable pub manager_is_valid_memory_value : MemorySegmentManager → MaybeRelocatable → Result Bool
manager_is_valid_memory_value m value =
    Result.◌>>=◌ (used_sizes m) λ used. ok (is_valid_memory_value value used)
