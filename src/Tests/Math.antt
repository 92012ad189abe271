-- ===== src/Tests/Math.antt =====
-- starkware/python/math_utils.py and the register tracking of the compiler, at small numbers.
use pip_cairo_lang.Prelude.{ℕ, ◌+◌, ◌*◌, ◌≤◌, ◌<◌, ◌≡◌, ◌↔◌, refl, arith, [], ◌∷◌}
use pip_cairo_lang.Prelude.Int.{ℤ, pos, negsuc, pos_part, ◌+ℤ◌, ◌-ℤ◌, ◌*ℤ◌, ◌%ℤ◌, ◌≤ℤ◌}
use pip_cairo_lang.Result.{ok}
use pip_cairo_lang.MathUtils.{Gcdex, IsBezout, IsDivisor, div_mod, isqrt, horner_eval}
use pip_cairo_lang.MathUtils.DivMod.{div_mod_lem, div_mod_succeeds}
use pip_cairo_lang.MathUtils.Roots.{isqrt_lem}
use pip_cairo_lang.MathUtils.Horner.{polynomial, horner_eval_lem}
use pip_cairo_lang.RegTracking.{RegChange, unknown, known, meet, add, RegTrackingData, sub_tracking}
use pip_cairo_lang.RegTracking.Laws.{Admits, Covers, meet-Covers, add-Admits, sub_tracking-Admits}

-- Coefficients that serve for 3 and 5: 3 * 2 + 5 * -1 = 1.
abbrev gcdex_3_5 : Gcdex
gcdex_3_5 x y = (pos 2, negsuc 0, x *ℤ pos 2 +ℤ y *ℤ negsuc 0)

gcdex_3_5-IsBezout : IsBezout gcdex_3_5
gcdex_3_5-IsBezout = record { bezout = λ x y. refl }

gcdex_3_5-IsDivisor : IsDivisor gcdex_3_5 (pos 3) (pos 5)
unfolding ◌+ℤ◌ ◌*ℤ◌
gcdex_3_5-IsDivisor = record {
  nonneg = omega arith;
  divides_left = (pos 3, refl);
  divides_right = (pos 5, refl);
}

div_3_by_5 : div_mod gcdex_3_5 (pos 4) (pos 3) 5 ≡ ok (pos 3)
unfolding div_mod ◌+ℤ◌ ◌*ℤ◌ ◌%ℤ◌
div_3_by_5 = refl

div_mod_lem_example :
    (pos 0 ≤ℤ pos 3) × (pos_part (pos 3) < 5) × ((pos 3 *ℤ pos 3) %ℤ 5 ≡ pos 4 %ℤ 5)
div_mod_lem_example =
    div_mod_lem gcdex_3_5 gcdex_3_5-IsBezout (pos 4) (pos 3) 5 (pos 3) (omega arith) div_3_by_5

bezout_3_5 : pos 3 *ℤ pos 2 +ℤ pos 5 *ℤ negsuc 0 ≡ pos 1
unfolding ◌+ℤ◌ ◌*ℤ◌
bezout_3_5 = refl

div_mod_succeeds_example : (x : ℤ) × (div_mod gcdex_3_5 (pos 4) (pos 3) 5 ≡ ok x)
div_mod_succeeds_example =
    div_mod_succeeds gcdex_3_5 (pos 3) 5 gcdex_3_5-IsDivisor (pos 4) (pos 2) (negsuc 0) bezout_3_5

isqrt_lem_example : (x : ℕ) × (isqrt (pos 30) ≡ ok x) × (x * x ≤ 30) × (30 < (x + 1) * (x + 1))
isqrt_lem_example = isqrt_lem 30

horner_eval_lem_example :
    horner_eval (pos 1 ∷ pos 2 ∷ pos 3 ∷ []) (pos 4) 7
    ≡ pos (polynomial (pos 1 ∷ pos 2 ∷ pos 3 ∷ []) (pos 4) %ℤ 7)
horner_eval_lem_example = horner_eval_lem (pos 1 ∷ pos 2 ∷ pos 3 ∷ []) (pos 4) 7 (omega arith)

meet-Covers_example :
    Covers unknown (meet (known (pos 2)) (known (pos 3)))
    ↔ (Covers unknown (known (pos 2)) × Covers unknown (known (pos 3)))
meet-Covers_example = meet-Covers (known (pos 2)) (known (pos 3)) unknown

add-Admits_example :
    (c : RegChange) × (add (known (pos 2)) unknown ≡ ok c) × Admits c (pos 2 +ℤ pos 9)
add-Admits_example = add-Admits (known (pos 2)) unknown (pos 2) (pos 9) refl tt

abbrev tracked : ℤ → RegTrackingData
tracked offset = record { group = pos 1; offset = offset }

abbrev starts : ℤ → ℤ
starts group = pos 100

sub_tracking-Admits_example :
    Admits
      (sub_tracking (tracked (pos 5)) (tracked (pos 2)))
      ((pos 100 +ℤ pos 5) -ℤ (pos 100 +ℤ pos 2))
sub_tracking-Admits_example =
    sub_tracking-Admits starts (tracked (pos 5)) (tracked (pos 2)) (pos 100 +ℤ pos 5)
      (pos 100 +ℤ pos 2) refl refl
