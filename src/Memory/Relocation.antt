-- ===== src/Memory/Relocation.antt =====
-- The relocation of temporary segments (`relocate_value` of
-- starkware/cairo/lang/vm/memory_dict.py).
pub mod Chains
use pip_cairo_lang.Prelude.{
  [], ℕ, zero, suc, ◌<◌, arith, ◌≡◌, refl, sym, ap, ◌∙◌, ◌⊎◌, none, some, true, false, Bool-cases,
  Option-cases, inl, inr, length,
}
use pip_cairo_lang.Prelude.Int.{ℤ, pos, ◌+ℤ◌, ltb_ℤ}
use pip_cairo_lang.Value.{RelocatableValue, MaybeRelocatable, int, relocatable}
use pip_cairo_lang.Result.{ok, bind_elim, ok-injective}
use pip_cairo_lang.Relocatable.{SegmentMap, find_segment}
use pip_cairo_lang.Memory.{MemoryDict, relocate_address, relocate_value}

-- No rule is left for a segment.
abbrev pub Final : SegmentMap RelocatableValue → ℤ → Type 0
Final rules s = (ltb_ℤ s (pos 0) ≡ false) ⊎ (find_segment s rules ≡ none)

module _ (rules : SegmentMap RelocatableValue) where
  pub relocated :
      (fuel : ℕ) (v : RelocatableValue)
      → Final rules v.segment_index
      → relocate_address fuel rules v ≡ ok v
  unfolding relocate_address
  relocated zero v (inl real) = rw real refl
  relocated (suc fuel) v (inl real) = rw real refl
  relocated zero v (inr unruled) = elim (Bool-cases (ltb_ℤ v.segment_index (pos 0))) [
    | inl t ↦ rw (t, unruled) refl
    | inr t ↦ rw t refl
  ]
  relocated (suc fuel) v (inr unruled) = elim (Bool-cases (ltb_ℤ v.segment_index (pos 0))) [
    | inl t ↦ rw (t, unruled) refl
    | inr t ↦ rw t refl
  ]

  pub cases :
      (v : RelocatableValue)
      → Final rules v.segment_index
        ⊎ ((ltb_ℤ v.segment_index (pos 0) ≡ true)
            × (to : RelocatableValue) × (find_segment v.segment_index rules ≡ some to))
  cases v = elim (Bool-cases (ltb_ℤ v.segment_index (pos 0))) [
    | inr t ↦ inl (inl t)
    | inl t ↦ elim (Option-cases (find_segment v.segment_index rules)) [
      | inl n ↦ inl (inr n)
      | inr (to, found) ↦ inr (t, to, found)
    ]
  ]

  relocate_address-Final :
      (fuel : ℕ) (v r : RelocatableValue)
      → relocate_address fuel rules v ≡ ok r
      → Final rules r.segment_index
  unfolding relocate_address
  relocate_address-Final zero v r h = elim (cases v) [
    | inl final ↦ let e : v ≡ r = ok-injective (sym (relocated zero v final) ∙ h) in rw (← e) final
    | inr (t, to, found) ↦ absurd (cc (rw (t, found) at h))
  ]
  relocate_address-Final (suc fuel) v r h = elim (cases v) [
    | inl final ↦
        let e : v ≡ r = ok-injective (sym (relocated (suc fuel) v final) ∙ h) in rw (← e) final
    | inr (t, to, found) ↦
        bind_elim (relocate_address fuel rules to) _ (rw (t, found) at h) λ r' h1 h2.
          let e : r'.segment_index ≡ r.segment_index =
            ap (λ (x : RelocatableValue). x.segment_index) (ok-injective h2) in
          rw (← e) (relocate_address-Final fuel to r' h1)
  ]

pub relocate_value-bare :
    (m : MemoryDict) (v : MaybeRelocatable) → m.relocation_rules ≡ [] → relocate_value m v ≡ ok v
unfolding relocate_value
relocate_value-bare m (int v) bare = refl
relocate_value-bare m (relocatable v) bare =
    let rules = m.relocation_rules in
    let none_left : find_segment v.segment_index rules ≡ none =
      ap (λ (r : SegmentMap RelocatableValue). find_segment v.segment_index r) bare in
    rw (relocated rules (length rules) v (inr none_left)) refl

-- Relocation is done in one go: a relocated value is relocated to itself.
pub relocate_value-idempotent :
    (m : MemoryDict) (v w : MaybeRelocatable)
    → relocate_value m v ≡ ok w
    → relocate_value m w ≡ ok w
unfolding relocate_value
relocate_value-idempotent m (int v) w h = let e = ok-injective h in rw (← e) refl
relocate_value-idempotent m (relocatable v) w h =
    bind_elim (relocate_address (length m.relocation_rules) m.relocation_rules v) _ h λ r h1 h2.
      let e = ok-injective h2 in
      let final = relocate_address-Final m.relocation_rules _ v r h1 in
      rw (← e) (rw (relocated m.relocation_rules (length m.relocation_rules) r final) refl)
