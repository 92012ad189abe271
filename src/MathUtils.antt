-- ===== src/MathUtils.antt =====
-- starkware/python/math_utils.py. `igcdex` is sympy's: an argument of the model.
pub mod DivMod
pub mod Roots
pub mod Ec
pub mod Horner
pub mod SafeDiv
use Prim.Native.Nat.{bit_and}
use pip_cairo_lang.Prelude.{
  ℕ, zero, suc, ◌+◌, ◌-◌, ◌*◌, ◌/◌, ◌%◌, ◌^◌, ◌<◌, ◌≡◌, Bool, true, false, ◌&&◌, not, ltb, leb,
  ◌==◌, if◌then◌else◌, List, [], ◌∷◌,
}
use mathlib.Core.List.{reverse}
use pip_cairo_lang.Prelude.Int.{ℤ, pos, negsuc, ◌+ℤ◌, ◌-ℤ◌, ◌*ℤ◌, ◌%ℤ◌, ◌≤ℤ◌, eqb_ℤ}
use pip_cairo_lang.Result.{
  Result, ok, err, ◌>>=◌, ◌>>◌, assert, not_coprime, zero_division, division_by_zero, not_divisible,
  not_positive, bad_power, bad_root,
}

-- `igcdex(x, y)` is (a, b, g) with x * a + y * b = g, where g is the greatest common divisor.
abbrev pub Gcdex : Type 0
Gcdex = ℤ → ℤ → ℤ × ℤ × ℤ

-- Finds x with (m * x) % p == n % p; p is positive.
unfoldable pub div_mod : Gcdex → ℤ → ℤ → ℕ → Result ℤ
div_mod igcdex n m p = do
  let (a, b, c) = igcdex m (pos p)
  assert (eqb_ℤ c (pos 1)) not_coprime
  ok (pos ((n *ℤ a) %ℤ p))

-- What sympy documents of `igcdex`: the coefficients give the divisor,
pub record IsBezout (igcdex : Gcdex) : Type 0 where
  pub bezout : (x y : ℤ) → x *ℤ (igcdex x y).0 +ℤ y *ℤ (igcdex x y).1 ≡ (igcdex x y).2

-- and it is a common divisor of its arguments, which is not negative.
pub record IsDivisor (igcdex : Gcdex) (x y : ℤ) : Type 0 where
  pub nonneg : pos 0 ≤ℤ (igcdex x y).2
  pub divides_left : (k : ℤ) × (x ≡ (igcdex x y).2 *ℤ k)
  pub divides_right : (k : ℤ) × (y ≡ (igcdex x y).2 *ℤ k)

-- Python's `//` by a positive number
abbrev pub floor_by : ℤ → ℕ → ℤ
floor_by (pos n) d = pos (n / d)
floor_by (negsuc n) d = negsuc (n / d)

-- `x // y`
unfoldable pub floor_div : ℤ → ℤ → Result ℤ
floor_div x (pos zero) = err zero_division
floor_div x (pos (suc d)) = ok (floor_by x (suc d))
floor_div x (negsuc d) = ok (floor_by (pos 0 -ℤ x) (suc d))

abbrev pub magnitude : ℤ → ℕ
magnitude (pos n) = n
magnitude (negsuc n) = suc n

-- `x % y == 0` asks the same of y and of -y.
unfoldable pub safe_div : ℤ → ℤ → Result ℤ
unfolding floor_div
safe_div x y = do
  assert (not (eqb_ℤ y (pos 0))) division_by_zero
  assert (x %ℤ magnitude y == 0) not_divisible
  floor_div x y

unfoldable pub div_ceil : ℤ → ℤ → Result ℤ
unfolding floor_div
div_ceil x y = do q ← floor_div (pos 0 -ℤ x) y; ok (pos 0 -ℤ q)

-- `n.bit_length()`, for n below 2 ^ fuel
unfoldable pub bit_length_within : ℕ → ℕ → ℕ
bit_length_within zero n = 0
bit_length_within (suc fuel) n =
    let rest = bit_length_within fuel (n / 2) in if n == 0 then 0 else suc rest

-- A number is below 2 to its own power.
unfoldable pub bit_length : ℕ → ℕ
unfolding bit_length_within
bit_length n = bit_length_within n n

unfoldable pub next_power_of_2 : ℤ → Result ℕ
next_power_of_2 (pos (suc n)) = do
  let res = 2 ^ bit_length n
  assert (leb (suc n) res && ltb res (2 * suc n)) bad_power
  ok res
next_power_of_2 (pos zero) = assert false not_positive >> ok 0
next_power_of_2 (negsuc n) = assert false not_positive >> ok 0

unfoldable pub is_power_of_2 : ℤ → Bool
is_power_of_2 (pos (suc n)) = bit_and (suc n) n == 0
is_power_of_2 (pos zero) = false
is_power_of_2 (negsuc n) = false

unfoldable pub prev_power_of_2 : ℤ → Result ℕ
unfolding next_power_of_2
prev_power_of_2 (pos (suc n)) = do r ← next_power_of_2 (pos (suc n + 1)); ok (r / 2)
prev_power_of_2 (pos zero) = assert false not_positive >> ok 0
prev_power_of_2 (negsuc n) = assert false not_positive >> ok 0

-- The loop of `isqrt`, with x and y. The x that it leaves falls in each round, so x is fuel enough.
unfoldable pub isqrt_loop : ℕ → ℕ → ℕ → ℕ → ℕ
isqrt_loop zero n x y = x
isqrt_loop (suc fuel) n x y =
    let rest = isqrt_loop fuel n y ((y + n / y) / 2) in if ltb y x then rest else x

unfoldable pub isqrt : ℤ → Result ℕ
isqrt (negsuc n) = assert false not_positive >> ok 0
isqrt (pos n) = do
  let x = isqrt_loop n n n ((n + 1) / 2)
  assert (leb (x ^ 2) n && ltb n ((x + 1) ^ 2)) bad_root
  ok x

-- the loop of `horner_eval`, over the coefficients from the highest on
unfoldable pub horner_loop : ℤ → ℕ → List ℤ → ℤ → ℤ
horner_loop point prime [] res = res
horner_loop point prime (coef ∷ coefs) res =
    horner_loop point prime coefs (pos ((res *ℤ point +ℤ coef) %ℤ prime))

unfoldable pub horner_eval : List ℤ → ℤ → ℕ → ℤ
horner_eval coefs point prime = horner_loop point prime (reverse coefs) (pos 0)
