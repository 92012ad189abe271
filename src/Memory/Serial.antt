-- ===== src/Memory/Serial.antt =====
-- The binary form of a memory: `serialize` and `deserialize` of
-- starkware/cairo/lang/vm/memory_dict.py.
use pip_cairo_lang.Prelude.{
  ℕ, zero, suc, ◌+◌, ◌/◌, ◌%◌, ◌==◌, false, List, [], ◌∷◌, ◌++◌, take, drop, length,
}
use pip_cairo_lang.Result.{Result, ok, ◌>>=◌, ◌>>◌, assert, active_rules, pair_size}
use pip_cairo_lang.Relocatable.Bytes.{little, to_bytes, from_bytes}
use pip_cairo_lang.Memory.Dict.{Cells, store}
use pip_cairo_lang.Memory.{MemoryDict, no_rules}

-- `ADDR_SIZE_IN_BYTES`
abbrev pub addr_size_in_bytes : ℕ
addr_size_in_bytes = 8

unfoldable pub serialize_cells : Cells → ℕ → Result (List ℕ)
serialize_cells [] field_bytes = ok []
serialize_cells ((addr, value) ∷ rest) field_bytes = do
  a ← to_bytes addr addr_size_in_bytes little
  v ← to_bytes value field_bytes little
  bytes ← serialize_cells rest field_bytes
  ok ((a ++ v) ++ bytes)

unfoldable pub serialize : MemoryDict → ℕ → Result (List ℕ)
serialize m field_bytes = do
  assert (no_rules m.relocation_rules) active_rules
  serialize_cells m.cells field_bytes

-- The first `count` pairs of the data, put into a dictionary in their order.
unfoldable pub read_pairs : ℕ → List ℕ → ℕ → Cells → Result Cells
read_pairs zero bytes field_bytes done = ok done
read_pairs (suc count) bytes field_bytes done = do
  addr ← from_bytes (take addr_size_in_bytes bytes) little
  value ← from_bytes (take field_bytes (drop addr_size_in_bytes bytes)) little
  read_pairs count (drop (addr_size_in_bytes + field_bytes) bytes) field_bytes
      (store addr value done)

unfoldable pub deserialize : List ℕ → ℕ → Result MemoryDict
deserialize bytes field_bytes = do
  assert (length bytes % (addr_size_in_bytes + field_bytes) == 0) pair_size
  cells ← read_pairs (length bytes / (addr_size_in_bytes + field_bytes)) bytes field_bytes []
  ok (record { cells = cells; is_frozen = false; relocation_rules = [] })
