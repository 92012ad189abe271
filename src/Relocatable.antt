-- ===== src/Relocatable.antt =====
-- Arithmetic, order and relocation of the values of the machine
-- (starkware/cairo/lang/vm/relocatable.py). The modulus of `%` is the prime of the field, a
-- positive number.
pub mod Order
pub mod Bytes
pub mod ByteLaws
use pip_cairo_lang.Prelude.{
  ℕ, Bool, true, false, ◌&&◌, ◌||◌, not, Option, none, some, List, [], ◌∷◌, if◌then◌else◌,
}
use pip_cairo_lang.Prelude.Int.{ℤ, pos, ◌+ℤ◌, ◌-ℤ◌, ◌%ℤ◌, eqb_ℤ, ltb_ℤ}
use pip_cairo_lang.Value.{RelocatableValue, MaybeRelocatable, int, relocatable, eqb}
use pip_cairo_lang.Result.{
  Result, ok, err, ◌>>=◌, ◌>>◌, assert, type_error, not_implemented, two_relocatables, same_segment,
  missing_segment, felt_range,
}

-- `a + b`: `__add__`, and `__radd__` where the left side is an int
unfoldable pub add : MaybeRelocatable → MaybeRelocatable → Result MaybeRelocatable
add (int a) (int b) = ok (int (a +ℤ b))
add (relocatable a) (int b) = ok (relocatable (record a { offset = a.offset +ℤ b }))
add (int a) (relocatable b) = ok (relocatable (record b { offset = b.offset +ℤ a }))
add (relocatable a) (relocatable b) = assert false two_relocatables >> err not_implemented

-- `a - b`: an int has no address to subtract
unfoldable pub sub : MaybeRelocatable → MaybeRelocatable → Result MaybeRelocatable
sub (int a) (int b) = ok (int (a -ℤ b))
sub (relocatable a) (int b) = ok (relocatable (record a { offset = a.offset -ℤ b }))
sub (relocatable a) (relocatable b) = do
  assert (eqb_ℤ a.segment_index b.segment_index) same_segment
  ok (int (a.offset -ℤ b.offset))
sub (int a) (relocatable b) = err type_error

-- `a % p`
unfoldable pub mod_prime : MaybeRelocatable → ℕ → MaybeRelocatable
mod_prime (int a) p = int (pos (a %ℤ p))
mod_prime (relocatable a) p = relocatable (record a { offset = pos (a.offset %ℤ p) })

-- The order of pairs, `(segment_index, offset) < (segment_index, offset)`.
abbrev pub lt_pair : RelocatableValue → RelocatableValue → Bool
lt_pair a b =
    ltb_ℤ a.segment_index b.segment_index
    || (eqb_ℤ a.segment_index b.segment_index && ltb_ℤ a.offset b.offset)

-- `a < b`; with an int on the left Python asks `b.__gt__(a)`, which is `not (b <= a)`.
unfoldable pub lt : MaybeRelocatable → MaybeRelocatable → Bool
lt (int a) (int b) = ltb_ℤ a b
lt (relocatable a) (int b) = false
lt (relocatable a) (relocatable b) = lt_pair a b
lt (int a) (relocatable b) = not (false || eqb (relocatable b) (int a))

-- `a <= b`; with an int on the left it is `b.__ge__(a)`, which is `not (b < a)`.
unfoldable pub le : MaybeRelocatable → MaybeRelocatable → Bool
unfolding lt
le (int a) (int b) = ltb_ℤ a b || eqb_ℤ a b
le (int a) (relocatable b) = not (lt (relocatable b) (int a))
le (relocatable a) b = lt (relocatable a) b || eqb (relocatable a) b

-- `RelocatableValue.to_tuple` and `from_tuple`
unfoldable pub to_tuple : MaybeRelocatable → List ℤ
to_tuple (relocatable v) = v.segment_index ∷ v.offset ∷ []
to_tuple (int v) = v ∷ []

unfoldable pub from_tuple : List ℤ → Result MaybeRelocatable
from_tuple (segment_index ∷ offset ∷ []) =
    ok (relocatable (record { segment_index = segment_index; offset = offset }))
from_tuple (v ∷ []) = ok (int v)
from_tuple _ = err not_implemented

-- A dictionary keyed by segment indices.
abbrev pub SegmentMap {ℓ} : Type ℓ → Type ℓ
SegmentMap V = List (ℤ × V)

module _ {ℓ} {V : Type ℓ} where
  abbrev pub find_segment : ℤ → SegmentMap V → Option V
  find_segment s [] = none
  find_segment s ((t, v) ∷ m) = if eqb_ℤ s t then some v else find_segment s m

abbrev in_field : MaybeRelocatable → ℕ → Result MaybeRelocatable
in_field (int v) prime = do assert (ltb_ℤ v (pos prime)) felt_range; ok (int v)
in_field (relocatable v) prime = ok (relocatable v)

abbrev at_offset : RelocatableValue → Option MaybeRelocatable → ℕ → Bool → Result MaybeRelocatable
at_offset v none prime allow_missing_segments = do
  assert allow_missing_segments missing_segment
  ok (relocatable v)
at_offset v (some base) prime _ = do sum ← add (int v.offset) base; in_field sum prime

-- the function `relocate_value`
unfoldable pub relocate_value :
    MaybeRelocatable → SegmentMap MaybeRelocatable → ℕ → Bool → Result MaybeRelocatable
unfolding add
relocate_value (int v) segment_offsets prime allow_missing_segments = ok (int v)
relocate_value (relocatable v) segment_offsets prime allow_missing_segments =
    at_offset v (find_segment v.segment_index segment_offsets) prime allow_missing_segments
