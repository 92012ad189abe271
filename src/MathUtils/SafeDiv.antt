-- ===== src/MathUtils/SafeDiv.antt =====
-- Exact division (`safe_div` of starkware/python/math_utils.py).
use native.Mathlib.Nat.{mod-lt, div-add-mod}
use pip_cairo_lang.Prelude.{ℕ, zero, suc, ◌*◌, ◌/◌, ◌<◌, ◌≡◌, ap, ◌∙◌, arith, not, ◌==◌}
use pip_cairo_lang.Prelude.Int.{
  ℤ, pos, negsuc, ◌-ℤ◌, ◌*ℤ◌, ◌%ℤ◌, eqb_ℤ, int_laws, -ℤ_parts, *ℤ_parts,
}
use pip_cairo_lang.Prelude.Mod.{parts_of_eq, %ℤ-Cong}
use pip_cairo_lang.Result.{
  ok, assert, assert-eq-ok, bind_elim, ok-injective, division_by_zero, not_divisible,
}
use pip_cairo_lang.MathUtils.{floor_by, floor_div, magnitude, safe_div}

whole : (x : ℤ) (d : ℕ) → 0 < d → x %ℤ d ≡ 0 → pos d *ℤ floor_by x d ≡ x
unfolding ◌%ℤ◌
whole (pos n) d h e = omega (int_laws, *ℤ_parts (pos d) (pos (n / d)), div-add-mod n d)
whole (negsuc n) d h e =
    omega (int_laws, *ℤ_parts (pos d) (negsuc (n / d)), div-add-mod n d, mod-lt n h)

opposite : (x : ℤ) (d : ℕ) → 0 < d → x %ℤ d ≡ 0 → (pos 0 -ℤ x) %ℤ d ≡ 0
unfolding ◌%ℤ◌
opposite x d h e =
    let q = floor_by x d in
    %ℤ-Cong d (pos 0 -ℤ x) (pos 0) h (
      pos 0 -ℤ q,
      omega (
        int_laws,
        parts_of_eq (whole x d h e),
        *ℤ_parts (pos d) q,
        *ℤ_parts (pos d) (pos 0 -ℤ q),
        ap (λ (t : ℕ). d * t) (-ℤ_parts (pos 0) q),
      ),
    )
    ∙ omega arith

turned : (x q : ℤ) (d : ℕ) → pos (suc d) *ℤ q ≡ pos 0 -ℤ x → negsuc d *ℤ q ≡ x
turned x q d h = omega (int_laws, parts_of_eq h, *ℤ_parts (pos (suc d)) q, *ℤ_parts (negsuc d) q)

-- A quotient that `safe_div` returns gives the dividend back.
pub safe_div-exact : (x y q : ℤ) → safe_div x y ≡ ok q → y *ℤ q ≡ x
unfolding safe_div floor_div
safe_div-exact x y q h = bind_elim (assert (not (eqb_ℤ y (pos 0))) division_by_zero) _ h λ u0 h0 h1.
    bind_elim (assert (x %ℤ magnitude y == 0) not_divisible) _ h1 λ u1 hr h2.
      divided y (ground (arith, assert-eq-ok (x %ℤ magnitude y == 0) not_divisible hr)) h2
  where
    divided : (y : ℤ) → x %ℤ magnitude y ≡ 0 → floor_div x y ≡ ok q → y *ℤ q ≡ x
    divided (pos zero) r h = absurd (cc h)
    divided (pos (suc d)) r h = let e = ok-injective h in rw (← e) (whole x (suc d) (omega arith) r)
    divided (negsuc d) r h =
        let e = ok-injective h in
        turned x q d
          (rw (← e) (whole (pos 0 -ℤ x) (suc d) (omega arith) (opposite x (suc d) (omega arith) r)))
