-- ===== src/Relocatable/Order.antt =====
-- The comparisons of starkware/cairo/lang/vm/relocatable.py are a total order in which every
-- integer is below every address.
use pip_cairo_lang.Prelude.{◌≡◌, true, ◌||◌, not, arith}
use pip_cairo_lang.Value.{MaybeRelocatable, int, relocatable, eqb}
use pip_cairo_lang.Relocatable.{lt, le}

-- `<=` is `<` or `==`, and of `a < b` and `b <= a` exactly one holds, whatever the two values are.
pub le-lt : (a b : MaybeRelocatable) → (le a b ≡ (lt a b || eqb a b)) × (le a b ≡ not (lt b a))
unfolding le lt
le-lt (int a) (int b) = ground arith
le-lt (int a) (relocatable b) = ground arith
le-lt (relocatable a) (int b) = ground arith
le-lt (relocatable a) (relocatable b) = ground arith

lt_trans : (a b c : MaybeRelocatable) → lt a b ≡ true → lt b c ≡ true → lt a c ≡ true
unfolding lt
lt_trans (int a) (int b) (int c) h k = ground arith
lt_trans (relocatable a) (relocatable b) (relocatable c) h k = ground arith
lt_trans a b c h k = ground arith
