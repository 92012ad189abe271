-- ===== src/Memory/Relocation/Chains.antt =====
-- Chains of relocation rules, and the fuel that they need (`relocate_value` of
-- starkware/cairo/lang/vm/memory_dict.py).
use pip_cairo_lang.Prelude.{
  ℕ, zero, suc, ◌≤◌, ◌<◌, arith, ◌≡◌, ◌≢◌, refl, sym, ap, some, true, false, Bool, Bool-cases, inl,
  inr, List, [], ◌∷◌, length, if◌then◌else◌,
}
use pip_cairo_lang.Prelude.Int.{ℤ, pos, ◌+ℤ◌, ltb_ℤ, eqb_ℤ, eqb_ℤ_iff}
use pip_cairo_lang.Value.{RelocatableValue, MaybeRelocatable, int, relocatable}
use pip_cairo_lang.Result.{ok}
use pip_cairo_lang.Relocatable.{SegmentMap, find_segment}
use pip_cairo_lang.Memory.{MemoryDict, relocate_address, relocate_value}
use pip_cairo_lang.Memory.Relocation.{relocated, cases}

abbrev seen : ℤ → List ℤ → Bool
seen s [] = false
seen s (t ∷ ts) = if eqb_ℤ s t then true else seen s ts

-- The rules whose segments have not been seen.
abbrev unseen : List ℤ → SegmentMap RelocatableValue → ℕ
unseen visited [] = 0
unseen visited ((t, to) ∷ rules) =
    let n = unseen visited rules in if seen t visited then n else suc n

unseen-length : (rules : SegmentMap RelocatableValue) → unseen [] rules ≡ length rules
unseen-length [] = refl
unseen-length ((t, to) ∷ rules) = ap suc (unseen-length rules)

unseen-le :
    (s : ℤ) (visited : List ℤ) (rules : SegmentMap RelocatableValue)
    → unseen (s ∷ visited) rules ≤ unseen visited rules
unseen-le s visited [] = omega arith
unseen-le s visited ((t, to) ∷ rules) = ground (arith, unseen-le s visited rules)

-- A segment with a rule is one more that has been seen.
unseen-lt :
    (s : ℤ) (to : RelocatableValue) (visited : List ℤ) (rules : SegmentMap RelocatableValue)
    → find_segment s rules ≡ some to
    → seen s visited ≡ false
    → unseen (s ∷ visited) rules < unseen visited rules
unseen-lt s to visited [] found new = absurd (cc found)
unseen-lt s to visited ((t, x) ∷ rules) found new = elim (Bool-cases (eqb_ℤ s t)) [
  | inl e ↦
      let same : s ≡ t = (eqb_ℤ_iff s t).0 e in
      let old : seen t visited ≡ false = rw⁻¹ same new in
      let here : eqb_ℤ t s ≡ true = (eqb_ℤ_iff t s).1 (sym same) in
      rw (here, old) (omega (arith, unseen-le s visited rules))
  | inr e ↦ let less = unseen-lt s to visited rules (rw e at found) new in ground (arith, less)
]

module _ (rules : SegmentMap RelocatableValue) where
  -- The rule of a temporary segment.
  abbrev pub Leads : ℤ → RelocatableValue → Type 0
  Leads s to = (ltb_ℤ s (pos 0) ≡ true) × (find_segment s rules ≡ some to)

  -- One rule after the other.
  pub data Chain : ℤ → RelocatableValue → Type 0 where
    one : {s : ℤ} {to : RelocatableValue} → Leads s to → Chain s to
    more :
        {s : ℤ} {mid to : RelocatableValue} → Chain s mid → Leads mid.segment_index to → Chain s to

  -- No chain of rules comes back to the segment that it begins with.
  abbrev pub IsAcyclic : Type 0
  IsAcyclic = (s : ℤ) (to : RelocatableValue) → Chain s to → to.segment_index ≢ s

  -- A segment that has been seen is not come back to.
  fresh :
      (visited : List ℤ) (v : RelocatableValue)
      → IsAcyclic
      → ((s : ℤ) → seen s visited ≡ true → Chain s v)
      → seen v.segment_index visited ≡ false
  fresh visited v acyclic behind = elim (Bool-cases (seen v.segment_index visited)) [
    | inl old ↦ absurd (acyclic v.segment_index v (behind v.segment_index old) refl)
    | inr new ↦ new
  ]

  behind_next :
      (visited : List ℤ) (v to : RelocatableValue)
      → Leads v.segment_index to
      → ((s : ℤ) → seen s visited ≡ true → Chain s v)
      → (s : ℤ) → seen s (v.segment_index ∷ visited) ≡ true
      → Chain s to
  behind_next visited v to leads behind s h = elim (Bool-cases (eqb_ℤ s v.segment_index)) [
    | inl e ↦ rw ((eqb_ℤ_iff s v.segment_index).0 e) (one leads)
    | inr e ↦ more (behind s (rw e at h)) leads
  ]

  reaches :
      (fuel : ℕ) (visited : List ℤ) (v : RelocatableValue)
      → IsAcyclic
      → ((s : ℤ) → seen s visited ≡ true → Chain s v)
      → unseen visited rules ≤ fuel
      → (r : RelocatableValue) × (relocate_address fuel rules v ≡ ok r)
  unfolding relocate_address
  reaches zero visited v acyclic behind enough = elim (cases rules v) [
    | inl final ↦ (v, relocated rules zero v final)
    | inr (t, to, found) ↦
        let new = fresh visited v acyclic behind in
        absurd (omega (arith, unseen-lt v.segment_index to visited rules found new))
  ]
  reaches (suc fuel) visited v acyclic behind enough = elim (cases rules v) [
    | inl final ↦ (v, relocated rules (suc fuel) v final)
    | inr (t, to, found) ↦
        let new = fresh visited v acyclic behind in
        let (r, e) =
          reaches fuel (v.segment_index ∷ visited) to acyclic
            (behind_next visited v to (t, found) behind)
            (omega (arith, unseen-lt v.segment_index to visited rules found new)) in
        (record r { offset = r.offset +ℤ v.offset }, rw (t, found, e) refl)
  ]

-- Where no chain of rules comes back to the segment that it begins with, every value is relocated.
pub relocate_value-total :
    (m : MemoryDict) (v : MaybeRelocatable)
    → IsAcyclic m.relocation_rules
    → (w : MaybeRelocatable) × (relocate_value m v ≡ ok w)
unfolding relocate_value
relocate_value-total m (int v) acyclic = (int v, refl)
relocate_value-total m (relocatable v) acyclic =
    let rules = m.relocation_rules in
    let (r, e) =
      reaches rules (length rules) [] v acyclic (λ s h. absurd (cc h))
        (omega (arith, unseen-length rules)) in
    (relocatable r, rw e refl)
