-- ===== src/Relocatable/Bytes.antt =====
-- The byte form of a value: `RelocatableValue.to_bytes` and `from_bytes` of
-- starkware/cairo/lang/vm/relocatable.py, over Python's `int.to_bytes` and `int.from_bytes`.
use Prim.Native.Nat.{bit_and}
use mathlib.Core.List.{reverse}
use pip_cairo_lang.Prelude.{
  ℕ, zero, suc, ◌+◌, ◌-◌, ◌*◌, ◌/◌, ◌%◌, ◌^◌, List, [], ◌∷◌, ltb, length, if◌then◌else◌, ◌==◌,
}
use pip_cairo_lang.Prelude.Int.{ℤ, pos, negsuc, ◌+ℤ◌, ◌*ℤ◌, ltb_ℤ}
use pip_cairo_lang.Prelude.Bits.{shr}
use pip_cairo_lang.Value.{MaybeRelocatable, int, relocatable}
use pip_cairo_lang.Result.{
  Result, ok, err, ◌>>◌, assert, overflow_error, type_error, value_size, felt_range,
}

abbrev pub segment_bits : ℕ
segment_bits = 16

-- `RelocatableValue.OFFSET_BITS`
abbrev pub value_offset_bits : ℕ
value_offset_bits = 47

pub data ByteOrder : Type 0 where
  little big : ByteOrder

-- the base-256 digits of a number, the lowest first
unfoldable pub little_bytes : ℕ → ℕ → List ℕ
little_bytes zero x = []
little_bytes (suc n) x = x % 256 ∷ little_bytes n (x / 256)

unfoldable pub little_value : List ℕ → ℕ
little_value [] = 0
little_value (b ∷ bs) = b + 256 * little_value bs

-- `x.to_bytes(n, order)`: OverflowError for a negative or too large number
unfoldable pub int_to_bytes : ℤ → ℕ → ByteOrder → Result (List ℕ)
int_to_bytes (negsuc x) n order = err overflow_error
int_to_bytes (pos x) n ByteOrder.little =
    if ltb x (256 ^ n) then ok (little_bytes n x) else err overflow_error
int_to_bytes (pos x) n ByteOrder.big =
    if ltb x (256 ^ n) then ok (reverse (little_bytes n x)) else err overflow_error

-- `int.from_bytes(data, order)`
unfoldable pub int_from_bytes : List ℕ → ByteOrder → ℕ
int_from_bytes bytes ByteOrder.little = little_value bytes
int_from_bytes bytes ByteOrder.big = little_value (reverse bytes)

unfoldable pub to_bytes : MaybeRelocatable → ℕ → ByteOrder → Result (List ℕ)
to_bytes (int v) n_bytes order = do
  assert (ltb_ℤ v (pos (2 ^ (8 * n_bytes - 1)))) felt_range
  int_to_bytes v n_bytes order
to_bytes (relocatable v) n_bytes order = do
  assert (ltb (segment_bits + value_offset_bits) (n_bytes * 8)) value_size
  let num =
      pos (2 ^ (8 * n_bytes - 1)) +ℤ v.segment_index *ℤ pos (2 ^ value_offset_bits) +ℤ v.offset
  int_to_bytes num n_bytes order

-- `num` in `n_bytes` bytes: in no bytes the exponent of the tag is -1, so the mask is a float.
abbrev pub value_of_number : ℕ → ℕ → Result MaybeRelocatable
value_of_number zero num = err type_error
value_of_number (suc n) num =
    if bit_and num (2 ^ (8 * suc n - 1)) == 0
    then ok (int (pos num))
    else ok (
        relocatable (record {
          segment_index = pos (bit_and (shr num value_offset_bits) (2 ^ segment_bits - 1));
          offset = pos (bit_and num (2 ^ value_offset_bits - 1));
        }))

unfoldable pub from_bytes : List ℕ → ByteOrder → Result MaybeRelocatable
from_bytes bytes order = value_of_number (length bytes) (int_from_bytes bytes order)
