-- ===== src/MathUtils/Ec.antt =====
-- Points of an elliptic curve y^2 = x^3 + alpha * x + beta over a prime field, in affine form
-- (starkware/python/math_utils.py).
use pip_cairo_lang.Prelude.{ℕ, zero, suc, ◌-◌, ◌/◌, ◌%◌, ◌==◌, not, if◌then◌else◌}
use pip_cairo_lang.Prelude.Int.{ℤ, pos, ◌+ℤ◌, ◌-ℤ◌, ◌*ℤ◌, ◌%ℤ◌}
use pip_cairo_lang.Result.{Result, ok, err, ◌>>=◌, ◌>>◌, assert, same_x, zero_y, recursion_error}
use pip_cairo_lang.MathUtils.{Gcdex, div_mod}

abbrev pub Affine : Type 0
Affine = ℤ × ℤ

-- A point, or `EC_INFINITY`.
pub data Point : Type 0 where
  infinity : Point
  affine : Affine → Point

unfoldable pub line_slope : Gcdex → Affine → Affine → ℕ → Result ℤ
line_slope igcdex point1 point2 p = do
  assert (not ((point1.0 -ℤ point2.0) %ℤ p == 0)) same_x
  div_mod igcdex (point1.1 -ℤ point2.1) (point1.0 -ℤ point2.0) p

unfoldable pub ec_add : Gcdex → Affine → Affine → ℕ → Result Affine
ec_add igcdex point1 point2 p = do
  m ← line_slope igcdex point1 point2 p
  let x = pos ((m *ℤ m -ℤ point1.0 -ℤ point2.0) %ℤ p)
  let y = pos ((m *ℤ (point1.0 -ℤ x) -ℤ point1.1) %ℤ p)
  ok (x, y)

unfoldable pub ec_double_slope : Gcdex → Affine → ℤ → ℕ → Result ℤ
ec_double_slope igcdex point alpha p = do
  assert (not (point.1 %ℤ p == 0)) zero_y
  div_mod igcdex (pos 3 *ℤ point.0 *ℤ point.0 +ℤ alpha) (pos 2 *ℤ point.1) p

unfoldable pub ec_double : Gcdex → Affine → ℤ → ℕ → Result Affine
ec_double igcdex point alpha p = do
  m ← ec_double_slope igcdex point alpha p
  let x = pos ((m *ℤ m -ℤ pos 2 *ℤ point.0) %ℤ p)
  let y = pos ((m *ℤ (point.0 -ℤ x) -ℤ point.1) %ℤ p)
  ok (x, y)

abbrev to_point : Result Affine → Result Point
to_point r = do a ← r; ok (affine a)

-- the coordinates modulo p
abbrev reduced : Affine → ℕ → ℕ × ℕ
reduced point p = (point.0 %ℤ p, point.1 %ℤ p)

abbrev integers : ℕ × ℕ → Affine
integers (x, y) = (pos x, pos y)

abbrev add_reduced : Gcdex → ℕ × ℕ → ℕ × ℕ → ℤ → ℕ → Result Point
add_reduced igcdex a b alpha p =
    if a.0 == b.0
    then (if a.1 == (p - b.1) % p
        then ok infinity
        else to_point (ec_double igcdex (integers a) alpha p))
    else to_point (ec_add igcdex (integers a) (integers b) p)

unfoldable pub ec_safe_add : Gcdex → Point → Point → ℤ → ℕ → Result Point
ec_safe_add igcdex infinity point2 alpha p = ok point2
ec_safe_add igcdex (affine a) infinity alpha p = ok (affine a)
ec_safe_add igcdex (affine a) (affine b) alpha p =
    add_reduced igcdex (reduced a p) (reduced b p) alpha p

-- The recursion halves m or leaves it even, so the fuel m is enough; for m = 0 it never ends,
-- where Python raises RecursionError.
unfoldable pub ec_mult_within : ℕ → Gcdex → ℕ → Affine → ℤ → ℕ → Result Affine
ec_mult_within zero igcdex m point alpha p = err recursion_error
ec_mult_within (suc fuel) igcdex m point alpha p =
    let even = (do
      doubled ← ec_double igcdex point alpha p
      ec_mult_within fuel igcdex (m / 2) doubled alpha p) in
    let odd = (do
      rest ← ec_mult_within fuel igcdex (m - 1) point alpha p
      ec_add igcdex rest point p) in
    if m == 1 then ok point else if m % 2 == 0 then even else odd

unfoldable pub ec_mult : Gcdex → ℕ → Affine → ℤ → ℕ → Result Affine
ec_mult igcdex m point alpha p = ec_mult_within m igcdex m point alpha p

-- The same recursion, on a point that may be infinity.
unfoldable pub ec_safe_mult_within : ℕ → Gcdex → ℕ → Point → ℤ → ℕ → Result Point
ec_safe_mult_within fuel igcdex zero point alpha p = ok infinity
ec_safe_mult_within zero igcdex (suc m) point alpha p = err recursion_error
ec_safe_mult_within (suc fuel) igcdex (suc m) point alpha p =
    let even = (do
      doubled ← ec_safe_add igcdex point point alpha p
      ec_safe_mult_within fuel igcdex (suc m / 2) doubled alpha p) in
    let odd = (do
      rest ← ec_safe_mult_within fuel igcdex m point alpha p
      ec_safe_add igcdex rest point alpha p) in
    if suc m == 1 then ok point else if suc m % 2 == 0 then even else odd

unfoldable pub ec_safe_mult : Gcdex → ℕ → Point → ℤ → ℕ → Result Point
ec_safe_mult igcdex m point alpha p = ec_safe_mult_within m igcdex m point alpha p
