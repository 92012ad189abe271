-- ===== src/Prelude/Bits.antt =====
-- Shifts, masks and disjoint unions of bits: `<<`, `>>`, `&` and `|` of Python on nonnegative
-- numbers, with the arithmetic that they stand for.
use Prim.Native.Nat.{
  ℕ, zero, suc, ◌+◌, ◌-◌, ◌*◌, ◌/◌, ◌%◌, ◌^◌, ◌≤◌, ◌<◌, min, max, bit_and, bit_or, digits,
  bit_and-bitwise, bit_or-bitwise,
}
use mathlib.Core.Path.{◌≡◌, refl, sym, ap, ◌∙◌}
use native.Mathlib.Omega.{arith}
use native.Mathlib.Nat.{
  pow-suc, mod-lt, mod-eq_of_lt, div-add-mod, add-mul-mod_self_right, div-div-eq-div-mul, mul_comm,
}

-- x << k and x >> k
abbrev pub shl : ℕ → ℕ → ℕ
shl x k = x * 2 ^ k

abbrev pub shr : ℕ → ℕ → ℕ
shr x k = x / 2 ^ k

-- `bit_and` and `bit_or` go through the binary digits of their first argument; fuel that is not
-- below it makes no difference.
enough_digits :
    (rest : ℕ → ℕ) (op : ℕ → ℕ → ℕ) (x y : ℕ) {k l : ℕ}
    → x ≤ k
    → x ≤ l
    → digits rest op k x y ≡ digits rest op l x y
enough_digits rest op zero y {k = zero} {l = zero} hk hl = refl
enough_digits rest op zero y {k = suc k} {l = zero} hk hl = refl
enough_digits rest op zero y {k = zero} {l = suc l} hk hl = refl
enough_digits rest op zero y {k = suc k} {l = suc l} hk hl = refl
enough_digits rest op (suc x) y {k = suc k} {l = suc l} hk hl =
    let tail =
      enough_digits rest op (suc x / 2) (y / 2) {k = k} {l = l} (omega arith) (omega arith) in
    omega (arith, tail)
enough_digits rest op (suc x) y {k = zero} {l = l} hk hl = absurd (omega arith)
enough_digits rest op (suc x) y {k = suc k} {l = zero} hk hl = absurd (omega arith)

-- The lowest digits of x & y, and the rest.
and_digit : (x y : ℕ) → bit_and x y ≡ min (x % 2) (y % 2) + 2 * bit_and (x / 2) (y / 2)
and_digit zero y = omega (arith, bit_and-bitwise 0 y, bit_and-bitwise 0 (y / 2))
and_digit (suc x) y =
    let h = suc x / 2 in
    let tail =
      enough_digits (λ t. zero) min h (y / 2) {k = x} {l = h} (omega arith) (omega arith) in
    omega (arith, tail, bit_and-bitwise h (y / 2), bit_and-bitwise (suc x) y)

and_zero_below : (bound x : ℕ) → x ≤ bound → bit_and x 0 ≡ 0
and_zero_below bound zero h = refl
and_zero_below (suc bound) (suc x) h =
    let tail = and_zero_below bound (suc x / 2) (omega arith) in
    omega (arith, tail, and_digit (suc x) 0)
and_zero_below zero (suc x) h = absurd (omega arith)

pub pow_pos : (k : ℕ) → 0 < 2 ^ k
pow_pos zero = omega arith
pow_pos (suc k) = omega (arith, pow-suc 2 k, pow_pos k)

-- Powers of two multiply by adding their exponents.
pub pow-add : (a b : ℕ) → 2 ^ (a + b) ≡ 2 ^ a * 2 ^ b
pow-add a zero = let e : a + 0 ≡ a = omega arith in rw e (omega arith)
pow-add a (suc b) =
    let e : a + suc b ≡ suc (a + b) = omega arith in
    rw (e, pow-suc 2 (a + b), pow-suc 2 b, pow-add a b) (omega arith)

mod_twice : (p a : ℕ) → 0 < p → a % (p * 2) ≡ (a / 2 % p) * 2 + a % 2
mod_twice p a h =
    let q = a / 2 / p in
    let r = a / 2 % p in
    let split : a ≡ (r * 2 + a % 2) + q * (p * 2) = omega (arith, div-add-mod (a / 2) p) in
    let bound : r * 2 + a % 2 < p * 2 = omega (arith, mod-lt (a / 2) h) in
    ap (λ n. n % (p * 2)) split
    ∙ (add-mul-mod_self_right (r * 2 + a % 2) q (p * 2) ∙ mod-eq_of_lt bound)

-- The mask `2 ** k - 1` keeps the remainder.
pub bit_and-mask : (k a : ℕ) → bit_and a (2 ^ k - 1) ≡ a % 2 ^ k
bit_and-mask zero a = omega (arith, and_zero_below a a (omega arith))
bit_and-mask (suc k) a =
    let m = 2 ^ k - 1 in
    let odd : 2 ^ suc k - 1 ≡ 2 * m + 1 = omega (arith, pow-suc 2 k, pow_pos k) in
    let half : (2 * m + 1) / 2 ≡ m = omega arith in
    let digit : bit_and a (2 * m + 1) ≡ bit_and (a / 2) m * 2 + a % 2 =
      and_digit a (2 * m + 1) ∙ rw half (omega arith) in
    rw (odd, pow-suc, digit)
      (omega (arith, mod_twice (2 ^ k) a (pow_pos k), bit_and-mask k (a / 2)))

pub bit_and-one : (a : ℕ) → bit_and a 1 ≡ a % 2
bit_and-one a = omega (arith, and_digit a 1, and_zero_below (a / 2) (a / 2) (omega arith))

mod-div_twice : (p a : ℕ) → 0 < p → a / (p * 2) ≡ a / 2 / p
mod-div_twice p a h = sym (div-div-eq-div-mul a 2 p ∙ ap (λ (t : ℕ). a / t) (mul_comm 2 p))

-- A mask of one bit keeps that bit in its place.
pub bit_and-bit : (k a : ℕ) → bit_and a (2 ^ k) ≡ a / 2 ^ k % 2 * 2 ^ k
bit_and-bit zero a = omega (arith, bit_and-one a)
bit_and-bit (suc k) a =
    let half : 2 * 2 ^ k / 2 ≡ 2 ^ k = omega arith in
    let digit : bit_and a (2 * 2 ^ k) ≡ bit_and (a / 2) (2 ^ k) * 2 =
      and_digit a (2 * 2 ^ k) ∙ rw half (omega arith) in
    let twice : 2 ^ suc k ≡ 2 * 2 ^ k = omega (arith, pow-suc 2 k) in
    let high : a / (2 * 2 ^ k) ≡ a / 2 / 2 ^ k =
      ap (λ (t : ℕ). a / t) (mul_comm 2 (2 ^ k)) ∙ mod-div_twice (2 ^ k) a (pow_pos k) in
    rw (twice, digit, high, bit_and-bit k (a / 2)) (grind arith)

pub zero-bit_or : (y : ℕ) → bit_or 0 y ≡ y
zero-bit_or y = bit_or-bitwise 0 y

or_digit : (x y : ℕ) → bit_or x y ≡ max (x % 2) (y % 2) + 2 * bit_or (x / 2) (y / 2)
or_digit zero y = omega (arith, zero-bit_or (y / 2), zero-bit_or y)
or_digit (suc x) y =
    let h = suc x / 2 in
    let tail = enough_digits (λ t. t) max h (y / 2) {k = x} {l = h} (omega arith) (omega arith) in
    omega (arith, tail, bit_or-bitwise h (y / 2), bit_or-bitwise (suc x) y)

or_zero_below : (bound x : ℕ) → x ≤ bound → bit_or x 0 ≡ x
or_zero_below bound zero h = refl
or_zero_below (suc bound) (suc x) h =
    let tail = or_zero_below bound (suc x / 2) (omega arith) in
    omega (arith, tail, or_digit (suc x) 0)
or_zero_below zero (suc x) h = absurd (omega arith)

-- `|` of a number below `2 ** k` and a multiple of `2 ** k` is their sum.
pub bit_or_low : (k x y : ℕ) → y < 2 ^ k → bit_or y (x * 2 ^ k) ≡ y + x * 2 ^ k
bit_or_low zero x y h = let e : y ≡ 0 = omega arith in rw e (omega (arith, zero-bit_or (x * 2 ^ 0)))
bit_or_low (suc k) x y h =
    let even : x * 2 ^ suc k ≡ 2 * (x * 2 ^ k) =
      omega (arith, ap (λ (t : ℕ). x * t) (pow-suc 2 k)) in
    let half : 2 * (x * 2 ^ k) / 2 ≡ x * 2 ^ k = omega arith in
    let rest : bit_or (y / 2) (x * 2 ^ k) ≡ y / 2 + x * 2 ^ k =
      bit_or_low k x (y / 2) (omega (arith, pow-suc 2 k)) in
    let digit : bit_or y (2 * (x * 2 ^ k)) ≡ (y / 2 + x * 2 ^ k) * 2 + y % 2 =
      or_digit y (2 * (x * 2 ^ k)) ∙ rw (half, rest) (omega arith) in
    rw (even, digit) (omega arith)

pub bit_or_high : (k x y : ℕ) → y < 2 ^ k → bit_or (x * 2 ^ k) y ≡ x * 2 ^ k + y
bit_or_high zero x y h =
    let e : y ≡ 0 = omega arith in rw e (omega (arith, or_zero_below (x * 1) (x * 1) (omega arith)))
bit_or_high (suc k) x y h =
    let even : x * 2 ^ suc k ≡ 2 * (x * 2 ^ k) =
      omega (arith, ap (λ (t : ℕ). x * t) (pow-suc 2 k)) in
    let half : 2 * (x * 2 ^ k) / 2 ≡ x * 2 ^ k = omega arith in
    let rest : bit_or (x * 2 ^ k) (y / 2) ≡ x * 2 ^ k + y / 2 =
      bit_or_high k x (y / 2) (omega (arith, pow-suc 2 k)) in
    let digit : bit_or (2 * (x * 2 ^ k)) y ≡ (x * 2 ^ k + y / 2) * 2 + y % 2 =
      or_digit (2 * (x * 2 ^ k)) y ∙ rw (half, rest) (omega arith) in
    rw (even, digit) (omega arith)
