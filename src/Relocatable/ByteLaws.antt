-- ===== src/Relocatable/ByteLaws.antt =====
-- Reading back the bytes of a value (starkware/cairo/lang/vm/relocatable.py).
use Prim.Native.Nat.{bit_and}
use mathlib.Core.List.{reverse, reverse-reverse}
use native.Mathlib.Nat.{pow-suc, div-eq_of_lt, div-eq-sub-div}
use pip_cairo_lang.Prelude.{
  ℕ, zero, suc, ◌+◌, ◌-◌, ◌*◌, ◌/◌, ◌%◌, ◌^◌, ◌≤◌, ◌<◌, ◌≡◌, refl, sym, ap, subst, ◌∙◌, List, ltb,
  ltb→lt, length, ◌==◌, false, arith, Bool-cases, inl, inr, length-reverse,
}
use pip_cairo_lang.Prelude.Int.{
  ℤ, pos, negsuc, pos_part, neg_part, ◌+ℤ◌, ◌*ℤ◌, ltb_ℤ, int_laws, *ℤ_parts, ◌≤ℤ◌, ◌<ℤ◌,
}
use pip_cairo_lang.Prelude.Bits.{bit_and-mask, bit_and-bit, pow_pos, pow-add}
use pip_cairo_lang.Value.{RelocatableValue, MaybeRelocatable, int, relocatable}
use pip_cairo_lang.Result.{ok, assert-then, ok-injective}
use pip_cairo_lang.Relocatable.Bytes.{
  ByteOrder, little_bytes, little_value, int_to_bytes, int_from_bytes, to_bytes, from_bytes,
  value_of_number,
}

pub length-little_bytes : (n x : ℕ) → length (little_bytes n x) ≡ n
unfolding little_bytes
length-little_bytes zero x = refl
length-little_bytes (suc n) x = ap suc (length-little_bytes n (x / 256))

pub little_value-bytes : (n x : ℕ) → x < 256 ^ n → little_value (little_bytes n x) ≡ x
unfolding little_value little_bytes
little_value-bytes zero x h = omega arith
little_value-bytes (suc n) x h =
    omega (arith, little_value-bytes n (x / 256) (omega (arith, pow-suc 256 n)))

pow_bytes : (n : ℕ) → 256 ^ n ≡ 2 ^ (8 * n)
pow_bytes zero = refl
pow_bytes (suc n) =
    let e : 8 * suc n ≡ 8 * n + 8 = omega arith in
    rw (e, pow-suc 256 n, pow-add (8 * n) 8, pow_bytes n)

-- What `int.from_bytes` makes of the bytes that `int.to_bytes` has made.
record Written (v : ℤ) (n : ℕ) (order : ByteOrder) (bytes : List ℕ) : Type 0 where
  value : v ≡ pos (int_from_bytes bytes order)
  fits : int_from_bytes bytes order < 2 ^ (8 * n)
  size : length bytes ≡ n

int_to_bytes-Written :
    (v : ℤ) (n : ℕ) (order : ByteOrder) (bytes : List ℕ)
    → int_to_bytes v n order ≡ ok bytes
    → Written v n order bytes
unfolding int_to_bytes int_from_bytes
int_to_bytes-Written (negsuc x) n order bytes h = cc
int_to_bytes-Written (pos x) n ByteOrder.little bytes h = elim (Bool-cases (ltb x (256 ^ n))) [
  | inl fits ↦
      let e : little_bytes n x ≡ bytes = ok-injective (rw fits at h) in
      rw (← e) (
        let e1 = little_value-bytes n x (ltb→lt _ _ fits) in
        record {
          value = rw e1;
          fits = rw (e1, ← pow_bytes n) (ltb→lt _ _ fits);
          size = length-little_bytes n x;
        })
  | inr big ↦ absurd (cc (rw big at h))
]
int_to_bytes-Written (pos x) n ByteOrder.big bytes h = elim (Bool-cases (ltb x (256 ^ n))) [
  | inl fits ↦
      let e : reverse (little_bytes n x) ≡ bytes = ok-injective (rw fits at h) in
      rw (← e) (
        let e1 =
          ap little_value (reverse-reverse (little_bytes n x))
          ∙ little_value-bytes n x (ltb→lt _ _ fits) in
        record {
          value = rw e1;
          fits = rw (e1, ← pow_bytes n) (ltb→lt _ _ fits);
          size = length-reverse (little_bytes n x) ∙ length-little_bytes n x;
        })
  | inr big ↦ absurd (cc (rw big at h))
]

tag_clear : (k num : ℕ) → num < 2 ^ k → bit_and num (2 ^ k) ≡ 0
tag_clear k num h = rw (bit_and-bit k num, div-eq_of_lt h) (omega arith)

tag_set : (k num : ℕ) → 2 ^ k ≤ num → num < 2 ^ k * 2 → bit_and num (2 ^ k) ≡ 2 ^ k
tag_set k num h below =
    let one : num / 2 ^ k ≡ 1 =
      div-eq-sub-div (pow_pos k) h
      ∙ omega (arith, div-eq_of_lt {n = num - 2 ^ k} {m = 2 ^ k} (omega arith)) in
    rw (bit_and-bit k num, one) (omega arith)

number_of_int : (n x : ℕ) → 0 < n → x < 2 ^ (8 * n - 1) → value_of_number n x ≡ ok (int (pos x))
number_of_int zero x some_bytes h = absurd (omega arith)
number_of_int (suc n) x some_bytes h = rw (tag_clear (8 * suc n - 1) x h)

-- A tagged number: its offset and what lies above it.
number_of_address :
    (n s f : ℕ)
    → 63 < n * 8
    → 2 ^ (8 * n - 1) + s * 2 ^ 47 + f < 2 ^ (8 * n)
    → value_of_number n (2 ^ (8 * n - 1) + s * 2 ^ 47 + f)
      ≡ ok (
          relocatable
            (record { segment_index = pos ((s + f / 2 ^ 47) % 2 ^ 16); offset = pos (f % 2 ^ 47) }))
number_of_address zero s f wide fits = absurd (omega arith)
number_of_address (suc m) s f wide fits =
    let n = suc m in
    let t = 2 ^ (8 * n - 64) in
    let num = 2 ^ (8 * n - 1) + s * 2 ^ 47 + f in
    let exponent : 8 * n - 1 ≡ 63 + (8 * n - 64) = omega arith in
    let top : 2 ^ (8 * n - 1) ≡ 2 ^ 63 * t =
      ap (λ (k : ℕ). 2 ^ k) exponent ∙ pow-add 63 (8 * n - 64) in
    let next : 8 * n ≡ suc (8 * n - 1) = omega arith in
    let double : 2 ^ (8 * n) ≡ 2 ^ (8 * n - 1) * 2 =
      ap (λ (k : ℕ). 2 ^ k) next ∙ pow-suc 2 (8 * n - 1) in
    let tag : bit_and num (2 ^ (8 * n - 1)) ≡ 2 ^ (8 * n - 1) =
      tag_set (8 * n - 1) num (omega arith) (omega (arith, double)) in
    let nonzero : (2 ^ (8 * n - 1) == 0) ≡ false = ground (arith, pow_pos (8 * n - 1)) in
    let high : num / 2 ^ 47 % 2 ^ 16 ≡ (s + f / 2 ^ 47) % 2 ^ 16 = omega (arith, top) in
    let low : num % 2 ^ 47 ≡ f % 2 ^ 47 = omega (arith, top) in
    rw (tag, nonzero, bit_and-mask 16 (num / 2 ^ 47), bit_and-mask 47 num, high, low)

to_number :
    (n s f : ℕ)
    → pos (2 ^ (8 * n - 1)) +ℤ pos s *ℤ pos (2 ^ 47) +ℤ pos f
      ≡ pos (2 ^ (8 * n - 1) + s * 2 ^ 47 + f)
to_number n s f = omega (int_laws, *ℤ_parts (pos s) (pos (2 ^ 47)))

-- An address with coordinates that are not negative is read back with its segment index modulo
-- 2 ** 16 and its offset modulo 2 ** 47, the offset's excess having been carried into the segment.
pub from_bytes-address :
    (s f n : ℕ) (order : ByteOrder) (bytes : List ℕ)
    → to_bytes (relocatable (record { segment_index = pos s; offset = pos f })) n order ≡ ok bytes
    → from_bytes bytes order
      ≡ ok (
          relocatable
            (record { segment_index = pos ((s + f / 2 ^ 47) % 2 ^ 16); offset = pos (f % 2 ^ 47) }))
unfolding to_bytes from_bytes
from_bytes-address s f n order bytes h =
    let (wide, rest) = assert-then (ltb 63 (n * 8)) _ _ h in
    let w = int_to_bytes-Written _ n order bytes rest in
    let num = 2 ^ (8 * n - 1) + s * 2 ^ 47 + f in
    let value : int_from_bytes bytes order ≡ num = cc (w.value, to_number n s f) in
    rw (w.size, value) (number_of_address n s f (ltb→lt 63 (n * 8) wide) (rw (← value) w.fits))

from_bytes-int :
    (v : ℤ) (n : ℕ) (order : ByteOrder) (bytes : List ℕ)
    → 0 < n
    → to_bytes (int v) n order ≡ ok bytes
    → from_bytes bytes order ≡ ok (int v)
unfolding to_bytes from_bytes
from_bytes-int v n order bytes some_bytes h =
    let (small, rest) = assert-then (ltb_ℤ v (pos (2 ^ (8 * n - 1)))) _ _ h in
    let w = int_to_bytes-Written v n order bytes rest in
    let x = int_from_bytes bytes order in
    let bound : x < 2 ^ (8 * n - 1) = omega (arith, ltb→lt _ _ (rw w.value at small)) in
    rw (w.size, number_of_int n x some_bytes bound, ← w.value)

pub length-to_bytes :
    (v : MaybeRelocatable) (n : ℕ) (order : ByteOrder) (bytes : List ℕ)
    → to_bytes v n order ≡ ok bytes
    → length bytes ≡ n
unfolding to_bytes
length-to_bytes (int v) n order bytes h =
    let (small, rest) = assert-then (ltb_ℤ v (pos (2 ^ (8 * n - 1)))) _ _ h in
    let w = int_to_bytes-Written v n order bytes rest in w.size
length-to_bytes (relocatable v) n order bytes h =
    let (wide, rest) = assert-then (ltb 63 (n * 8)) _ _ h in
    let w = int_to_bytes-Written _ n order bytes rest in w.size

nonneg : (v : ℤ) → pos 0 ≤ℤ v → v ≡ pos (pos_part v)
nonneg (pos n) h = refl
nonneg (negsuc n) h = absurd (omega arith)

-- The values that the byte form can tell apart.
abbrev pub IsSerializable : MaybeRelocatable → Type 0
IsSerializable (int _) = Unit
IsSerializable (relocatable v) =
    (pos 0 ≤ℤ v.segment_index)
    × (v.segment_index <ℤ pos (2 ^ 16))
    × (pos 0 ≤ℤ v.offset)
    × (v.offset <ℤ pos (2 ^ 47))

-- Every integer, and every address with a segment index below 2 ** 16 and an offset below 2 ** 47,
-- is read back from its bytes, for either byte order and any positive number of bytes that it was
-- written in.
pub from_bytes-to_bytes :
    (v : MaybeRelocatable) (n : ℕ) (order : ByteOrder) (bytes : List ℕ)
    → IsSerializable v
    → 0 < n
    → to_bytes v n order ≡ ok bytes
    → from_bytes bytes order ≡ ok v
from_bytes-to_bytes (int v) n order bytes _ some_bytes h =
    from_bytes-int v n order bytes some_bytes h
from_bytes-to_bytes (relocatable v) n order bytes small some_bytes h =
    let s = pos_part v.segment_index in
    let f = pos_part v.offset in
    let e : v ≡ record { segment_index = pos s; offset = pos f } =
      cc (nonneg v.segment_index small.0, nonneg v.offset small.2) in
    let h' = subst (λ (u : RelocatableValue). to_bytes (relocatable u) n order ≡ ok bytes) e h in
    let zs : neg_part v.segment_index ≡ 0 = ap neg_part (nonneg v.segment_index small.0) in
    let zf : neg_part v.offset ≡ 0 = ap neg_part (nonneg v.offset small.2) in
    let es : (s + f / 2 ^ 47) % 2 ^ 16 ≡ s = omega (arith, zs, zf) in
    let ef : f % 2 ^ 47 ≡ f = omega (arith, zf) in
    from_bytes-address s f n order bytes h'
    ∙ rw (es, ef) (ap (λ (u : RelocatableValue). ok (relocatable u)) (sym e))
