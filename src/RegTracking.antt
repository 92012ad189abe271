-- ===== src/RegTracking.antt =====
-- starkware/cairo/lang/compiler/preprocessor/reg_tracking.py: what the compiler knows of the change
-- of a register. An expression that is not a constant is only known to be one.
pub mod Laws
use pip_cairo_lang.Prelude.{Bool, true, false, ◌&&◌, if◌then◌else◌}
use pip_cairo_lang.Prelude.Int.{ℤ, pos, ◌+ℤ◌, ◌-ℤ◌, eqb_ℤ}
use pip_cairo_lang.Result.{Result, ok, err, type_error, not_implemented}

pub data RegChange : Type 0 where
  unconstrained unknown : RegChange
  known : ℤ → RegChange

-- `RegChangeLike`
pub data RegChangeLike : Type 0 where
  of_int of_const : ℤ → RegChangeLike
  of_expression : RegChangeLike
  of_change : RegChange → RegChangeLike

unfoldable pub from_expr : RegChangeLike → RegChange
from_expr (of_int n) = known n
from_expr (of_change c) = c
from_expr (of_const n) = known n
from_expr of_expression = unknown

-- `a + b` of two changes. `known + other` gives NotImplemented for another change, and Python then
-- asks `other.__radd__`, which is `other + known`.
unfoldable pub add : RegChange → RegChange → Result RegChange
add unconstrained b = err type_error
add unknown b = ok unknown
add (known m) (known n) = ok (known (m +ℤ n))
add (known m) unknown = ok unknown
add (known m) unconstrained = err type_error

-- `a & b`, with `__rand__` for the same case
unfoldable pub meet : RegChange → RegChange → RegChange
meet unconstrained b = b
meet unknown b = unknown
meet (known m) (known n) = if eqb_ℤ m n then known m else unknown
meet (known m) unknown = unknown
meet (known m) unconstrained = known m

pub record RegTrackingData : Type 0 where
  pub group : ℤ
  pub offset : ℤ

-- `group_alloc`, a callback that gives out group numbers
abbrev pub GroupAlloc : Type 0 → Type 0
GroupAlloc S = S → ℤ × S

unfoldable pub new_tracking : {S : Type 0} → GroupAlloc S → S → RegTrackingData × S
new_tracking group_alloc s =
    let (group, s') = group_alloc s in (record { group = group; offset = pos 0 }, s')

-- `a - b`
unfoldable pub sub_tracking : RegTrackingData → RegTrackingData → RegChange
sub_tracking a b = if eqb_ℤ a.group b.group then known (a.offset -ℤ b.offset) else unknown

-- `add`; an unconstrained change raises
unfoldable pub advance :
    {S : Type 0} → RegTrackingData → RegChangeLike → GroupAlloc S → S → Result RegTrackingData × S
unfolding new_tracking from_expr
advance t change group_alloc s = elim (from_expr change) [
  | known n ↦ (ok (record t { offset = t.offset +ℤ n }), s)
  | unknown ↦ let (fresh, s') = new_tracking group_alloc s in (ok fresh, s')
  | unconstrained ↦ (err not_implemented, s)
]

abbrev pub same_tracking : RegTrackingData → RegTrackingData → Bool
same_tracking a b = eqb_ℤ a.group b.group && eqb_ℤ a.offset b.offset

unfoldable pub converge :
    {S : Type 0} → RegTrackingData → RegTrackingData → GroupAlloc S → S → RegTrackingData × S
unfolding new_tracking
converge a b group_alloc s = if same_tracking a b then (a, s) else new_tracking group_alloc s
