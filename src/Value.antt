-- ===== src/Value.antt =====
-- The values of the Cairo machine (starkware/cairo/lang/vm/relocatable.py): integers, and
-- addresses that are relative to a memory segment.
use pip_cairo_lang.Prelude.{◌≡◌, ◌↔◌, Bool, true, false, ◌&&◌, arith}
use pip_cairo_lang.Prelude.Int.{ℤ, eqb_ℤ, eqb_ℤ_iff}

pub record RelocatableValue : Type 0 where
  pub segment_index : ℤ
  pub offset : ℤ

-- `Union[int, RelocatableValue]`
pub data MaybeRelocatable : Type 0 where
  int : ℤ → MaybeRelocatable
  relocatable : RelocatableValue → MaybeRelocatable

-- `==` of the frozen dataclass, and of two values of the union
abbrev pub eqb_relocatable : RelocatableValue → RelocatableValue → Bool
eqb_relocatable a b = eqb_ℤ a.segment_index b.segment_index && eqb_ℤ a.offset b.offset

abbrev pub eqb : MaybeRelocatable → MaybeRelocatable → Bool
eqb (int a) (int b) = eqb_ℤ a b
eqb (relocatable a) (relocatable b) = eqb_relocatable a b
eqb _ _ = false

pub eqb_iff : (a b : MaybeRelocatable) → (eqb a b ≡ true) ↔ (a ≡ b)
eqb_iff (int a) (int b) = ground (arith, eqb_ℤ_iff a b)
eqb_iff (relocatable a) (relocatable b) =
    ground (arith, eqb_ℤ_iff a.segment_index b.segment_index, eqb_ℤ_iff a.offset b.offset)
eqb_iff (int a) (relocatable b) = ground arith
eqb_iff (relocatable a) (int b) = ground arith
