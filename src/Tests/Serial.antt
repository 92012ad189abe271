-- ===== src/Tests/Serial.antt =====
-- A memory in its binary form (starkware/cairo/lang/vm/memory_dict.py).
use pip_cairo_lang.Prelude.{ℕ, ◌≡◌, refl, arith, List, [], ◌∷◌}
use pip_cairo_lang.Prelude.Int.{pos, ◌*ℤ◌, ◌+ℤ◌}
use pip_cairo_lang.Value.{MaybeRelocatable, int, relocatable}
use pip_cairo_lang.Result.{ok}
use pip_cairo_lang.Relocatable.Bytes.{little_bytes, int_to_bytes, to_bytes}
use pip_cairo_lang.Memory.Dict.{lookup}
use pip_cairo_lang.Memory.{MemoryDict, empty_memory}
use pip_cairo_lang.Memory.Serial.{serialize_cells, serialize, deserialize}
use pip_cairo_lang.Memory.RoundTrip.{AllSerializable, AllNew, deserialize-memory}

abbrev address : ℕ → ℕ → MaybeRelocatable
address s o = relocatable (record { segment_index = pos s; offset = pos o })

-- a cell that holds a number, and one that holds an address
abbrev written : MemoryDict
written = record empty_memory {
  cells = (address 0 1, int (pos 5)) ∷ (address 1 0, address 0 2) ∷ [];
}

abbrev data_bytes : List ℕ
data_bytes =
    1 ∷ 0 ∷ 0 ∷ 0 ∷ 0 ∷ 0 ∷ 0 ∷ 128 ∷ 5 ∷ 0 ∷ 0 ∷ 0 ∷ 0 ∷ 0 ∷ 0 ∷ 0 ∷ 0 ∷ 0 ∷ 0 ∷ 0 ∷ 0 ∷ 128 ∷ 0
    ∷ 128 ∷ 2 ∷ 0 ∷ 0 ∷ 0 ∷ 0 ∷ 0 ∷ 0 ∷ 128 ∷ []

write_memory : serialize written 8 ≡ ok data_bytes
unfolding serialize serialize_cells to_bytes int_to_bytes little_bytes ◌*ℤ◌ ◌+ℤ◌
write_memory = refl

small_cells : AllSerializable written.cells
small_cells = (
  (omega arith, omega arith, omega arith, omega arith),
  tt,
  (
    (omega arith, omega arith, omega arith, omega arith),
    (omega arith, omega arith, omega arith, omega arith),
    tt,
  ),
)

new_keys : AllNew [] written.cells
unfolding lookup
new_keys = (refl, (refl, tt))

deserialize-memory_example : deserialize data_bytes 8 ≡ ok written
deserialize-memory_example =
    deserialize-memory written 8 data_bytes small_cells new_keys (omega arith) write_memory
