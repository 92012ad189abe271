-- ===== src/MathUtils/Roots.antt =====
-- Integer roots and powers of two (starkware/python/math_utils.py).
use native.Mathlib.Nat.{
  pow-suc, pow-zero, div-add-mod, mod-lt, mul-le-mul, mul-le-mul_left, div_self,
}
use pip_cairo_lang.Prelude.{
  ℕ, zero, suc, ◌+◌, ◌-◌, ◌*◌, ◌/◌, ◌%◌, ◌^◌, ◌≤◌, ◌<◌, ◌≡◌, refl, ap, arith, true, ltb, leb, ◌&&◌,
  Bool-cases, ◌⊎◌, inl, inr, ltb→lt, leb→le,
}
use pip_cairo_lang.Prelude.Int.{pos}
use pip_cairo_lang.Result.{ok}
use pip_cairo_lang.MathUtils.{bit_length_within, bit_length, next_power_of_2, isqrt_loop, isqrt}

bit_length_within-fits :
    (fuel n : ℕ)
    → n ≤ fuel
    → (n < 2 ^ bit_length_within fuel n)
      × ((2 ^ bit_length_within fuel n ≤ 2 * n) ⊎ ((n ≡ 0) × (bit_length_within fuel n ≡ 0)))
unfolding bit_length_within
bit_length_within-fits zero n h = (omega arith, inr (omega arith, refl))
bit_length_within-fits (suc fuel) zero h = (omega arith, inr (refl, refl))
bit_length_within-fits (suc fuel) (suc n) h =
    let (below, above) = bit_length_within-fits fuel (suc n / 2) (omega arith) in
    let step : bit_length_within (suc fuel) (suc n) ≡ suc (bit_length_within fuel (suc n / 2)) =
      ground arith in
    rw step (
      omega (arith, pow-suc 2 (bit_length_within fuel (suc n / 2))),
      inl (elim above [
        | inl low ↦ omega (arith, pow-suc 2 (bit_length_within fuel (suc n / 2)))
        | inr (half, none_left) ↦ rw none_left (omega arith)
      ]),
    )

-- Every positive x gets a power of two in x..2x-1: the assertion in the function never fails.
pub next_power_of_2_lem :
    (n : ℕ)
    → (k : ℕ) × (next_power_of_2 (pos (suc n)) ≡ ok (2 ^ k)) × (suc n ≤ 2 ^ k) × (2 ^ k < 2 * suc n)
unfolding next_power_of_2 bit_length
next_power_of_2_lem n =
    let (below, above) = bit_length_within-fits n n (omega arith) in
    let k = bit_length n in
    let top : 2 ^ k < 2 * suc n = elim above [
      | inl low ↦ omega arith
      | inr (z, k0) ↦ rw k0 (omega arith)
    ] in
    let e : (leb (suc n) (2 ^ k) && ltb (2 ^ k) (2 * suc n)) ≡ true = ground arith in
    (k, rw e refl, omega arith, top)

-- The arithmetic mean and the geometric mean of two numbers.
means_from : (a d : ℕ) → 4 * (a * (a + d)) ≤ (a + (a + d)) * (a + (a + d))
means_from a d = omega arith

means : (a b : ℕ) → 4 * (a * b) ≤ (a + b) * (a + b)
means a b = elim (Bool-cases (leb a b)) [
  | inl t ↦
      let h = leb→le a b t in
      let e : a + (b - a) ≡ b = ground arith in rw e at (means_from a (b - a))
  | inr t ↦ let e : b + (a - b) ≡ a = ground arith in omega (arith, rw e at (means_from b (a - b)))
]

-- The mean of x and n / x is not below the root.
mean_above : (n x y q r : ℕ) → n ≡ x * q + r → r < x → x + q ≤ 2 * y + 1 → n < (y + 1) * (y + 1)
mean_above n x y q r e h k =
    let wide : x + (q + 1) ≤ 2 * (y + 1) = omega arith in
    omega (arith, means x (q + 1), mul-le-mul wide wide)

isqrt_loop-root :
    (fuel n x : ℕ)
    → x ≤ fuel
    → 0 < n
    → n < (x + 1) * (x + 1)
    → let r = isqrt_loop fuel n x ((x + n / x) / 2) in (r * r ≤ n) × (n < (r + 1) * (r + 1))
unfolding isqrt_loop
isqrt_loop-root zero n zero h p b = absurd (omega arith)
isqrt_loop-root zero n (suc x) h p b = absurd (omega arith)
isqrt_loop-root (suc fuel) n zero h p b = absurd (omega arith)
isqrt_loop-root (suc fuel) n (suc x) h p b =
    elim (Bool-cases (ltb ((suc x + n / suc x) / 2) (suc x))) [
      | inl down ↦
          let y = (suc x + n / suc x) / 2 in
          let c : n < (y + 1) * (y + 1) =
            mean_above n (suc x) y (n / suc x) (n % suc x) (omega (arith, div-add-mod n (suc x)))
              (mod-lt n (omega arith)) (omega arith) in
          rw down (isqrt_loop-root fuel n y (omega (arith, ltb→lt _ _ down)) p c)
      | inr up ↦
          let wide : suc x ≤ n / suc x = ground arith in
          rw up (omega (arith, mul-le-mul_left (suc x) wide, div-add-mod n (suc x)), b)
    ]

isqrt_loop-start :
    (n : ℕ) → let x = isqrt_loop n n n ((n + 1) / 2) in (x * x ≤ n) × (n < (x + 1) * (x + 1))
unfolding isqrt_loop
isqrt_loop-start zero = omega arith
isqrt_loop-start (suc n) =
    let one : (suc n + suc n / suc n) / 2 ≡ (suc n + 1) / 2 =
      ap (λ (t : ℕ). (suc n + t) / 2) (div_self (omega arith)) in
    rw one at (isqrt_loop-root (suc n) (suc n) (suc n) (omega arith) (omega arith) (omega arith))

square : (x : ℕ) → x ^ 2 ≡ x * x
square x = rw (pow-suc x 1, pow-suc x 0, pow-zero x) (omega arith)

root_tests :
    (x n : ℕ) → x * x ≤ n → n < (x + 1) * (x + 1) → (leb (x ^ 2) n && ltb n ((x + 1) ^ 2)) ≡ true
root_tests x n low high =
    let a : x ^ 2 ≤ n = omega (arith, square x) in
    let b : n < (x + 1) ^ 2 = omega (arith, square (x + 1)) in ground arith

-- A number that is not negative has an integer root, which is its floor: the loop ends, and the
-- assertion after it holds.
pub isqrt_lem : (n : ℕ) → (x : ℕ) × (isqrt (pos n) ≡ ok x) × (x * x ≤ n) × (n < (x + 1) * (x + 1))
unfolding isqrt
isqrt_lem n =
    let (low, high) = isqrt_loop-start n in
    let x = isqrt_loop n n n ((n + 1) / 2) in
    let e : (leb (x ^ 2) n && ltb n ((x + 1) ^ 2)) ≡ true = root_tests x n low high in
    (x, rw e refl, low, high)
