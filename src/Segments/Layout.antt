-- ===== src/Segments/Layout.antt =====
-- Where the segments are placed (`relocate_segments` of
-- starkware/cairo/lang/vm/memory_segments.py).
use pip_cairo_lang.Prelude.{
  arith, some-injective, ◌≡◌, refl, sym, ap, ◌∙◌, some, [], ◌∷◌, All, false, Bool-cases, inl, inr,
}
use pip_cairo_lang.Prelude.Int.{ℤ, pos, ◌+ℤ◌, ◌≤ℤ◌, ◌<ℤ◌, leb_ℤ, eqb_ℤ, eqb_ℤ_iff, int_laws}
use pip_cairo_lang.Prelude.Mod.{parts_of_eq}
use pip_cairo_lang.Result.{ok, bind_elim, assert-then, ok-injective, segment_overflow}
use pip_cairo_lang.Relocatable.{SegmentMap, find_segment}
use pip_cairo_lang.Segments.{
  MemorySegmentManager, get_segment_size, relocate_from, relocate_segments, used_sizes,
  first_memory_addr,
}

-- Sizes are not negative.
abbrev pub Sizes : SegmentMap ℤ → Type 0
Sizes = All (λ entry. pos 0 ≤ℤ entry.1)

-- `x` is where the address (s, o) goes, which is one of the used addresses of its segment.
pub record Placed (used offsets : SegmentMap ℤ) (s o x : ℤ) : Type 0 where
  pub size : ℤ
  pub start : ℤ
  pub used_size : find_segment s used ≡ some size
  pub offset_start : find_segment s offsets ≡ some start
  pub low : pos 0 ≤ℤ o
  pub high : o <ℤ size
  pub address : x ≡ start +ℤ o

Placed-tail :
    (rest offs : SegmentMap ℤ) (idx u current t q x : ℤ)
    → eqb_ℤ t idx ≡ false
    → Placed ((idx, u) ∷ rest) ((idx, current) ∷ offs) t q x
    → Placed rest offs t q x
Placed-tail rest offs idx u current t q x tf r = record {
  size = r.size;
  start = r.start;
  used_size = rw tf at (r.used_size);
  offset_start = rw tf at (r.offset_start);
  low = r.low;
  high = r.high;
  address = r.address;
}

same_segment :
    (used offsets : SegmentMap ℤ) (idx s o t q : ℤ) {x : ℤ}
    → s ≡ idx
    → t ≡ idx
    → Placed used offsets s o x
    → Placed used offsets t q x
    → (s ≡ t) × (o ≡ q)
same_segment used offsets idx s o t q es et p r =
    let same : s ≡ t = es ∙ sym et in
    let start : p.start ≡ r.start =
      some-injective
        (sym p.offset_start ∙ (ap (λ (z : ℤ). find_segment z offsets) same ∙ r.offset_start)) in
    (same, omega (int_laws, parts_of_eq start, parts_of_eq p.address, parts_of_eq r.address))

module _ (m : MemorySegmentManager) where
  -- Segments are placed from the current address on.
  from_start :
      (used offsets : SegmentMap ℤ) (current s start : ℤ)
      → Sizes used
      → relocate_from m used current ≡ ok offsets
      → find_segment s offsets ≡ some start
      → current ≤ℤ start
  unfolding relocate_from
  from_start [] offsets current s start k h f = absurd (cc (rw (← ok-injective h) at f))
  from_start ((idx, u) ∷ rest) offsets current s start k h f =
      bind_elim (get_segment_size m idx) _ h λ size hs h1.
        let (fits, h2) = assert-then (leb_ℤ u size) segment_overflow _ h1 in
        bind_elim (relocate_from m rest (current +ℤ size)) _ h2 λ offs hr h3.
          let f' = rw (← ok-injective h3) at f in
          elim (Bool-cases (eqb_ℤ s idx)) [
            | inl t ↦
                let e : current ≡ start = some-injective (rw t at f') in
                omega (int_laws, parts_of_eq e)
            | inr t ↦
                let later = from_start rest offs (current +ℤ size) s start k.1 hr (rw t at f') in
                let fit : u ≤ℤ size = ground arith in omega (int_laws, k.0)
          ]

  -- A used address of the first segment lies below all that come after it.
  clash :
      (rest offs used offsets : SegmentMap ℤ) (current size u s o t q x : ℤ)
      → Sizes rest
      → u ≤ℤ size
      → relocate_from m rest (current +ℤ size) ≡ ok offs
      → find_segment s used ≡ some u
      → find_segment s offsets ≡ some current
      → Placed used offsets s o x
      → Placed rest offs t q x
      → ⊥
  clash rest offs used offsets current size u s o t q x k fit hr fu fo p r =
      let later = from_start rest offs (current +ℤ size) t r.start k hr r.offset_start in
      let eu : p.size ≡ u = some-injective (sym p.used_size ∙ fu) in
      let eo : p.start ≡ current = some-injective (sym p.offset_start ∙ fo) in
      omega (
        int_laws,
        later,
        fit,
        p.high,
        r.low,
        parts_of_eq eu,
        parts_of_eq eo,
        parts_of_eq p.address,
        parts_of_eq r.address,
      )

  from-injective :
      (used offsets : SegmentMap ℤ) (current s o t q x : ℤ)
      → Sizes used
      → relocate_from m used current ≡ ok offsets
      → Placed used offsets s o x
      → Placed used offsets t q x
      → (s ≡ t) × (o ≡ q)
  unfolding relocate_from
  from-injective [] offsets current s o t q x k h p r = absurd (cc p.used_size)
  from-injective ((idx, u) ∷ rest) offsets current s o t q x k h p r =
      bind_elim (get_segment_size m idx) _ h λ size hs h1.
        let (fits, h2) = assert-then (leb_ℤ u size) segment_overflow _ h1 in
        bind_elim (relocate_from m rest (current +ℤ size)) _ h2 λ offs hr h3.
          let e = ok-injective h3 in
          let fit : u ≤ℤ size = ground arith in
          let p' = rw (← e) at p in
          let r' = rw (← e) at r in
          elim (Bool-cases (eqb_ℤ s idx)) [
            | inl ts ↦ elim (Bool-cases (eqb_ℤ t idx)) [
              | inl tt' ↦
                  same_segment _ _ idx s o t q ((eqb_ℤ_iff s idx).0 ts) ((eqb_ℤ_iff t idx).0 tt') p'
                    r'
              | inr tf ↦ absurd (
                  clash rest offs _ _ current size u s o t q x k.1 fit hr (rw ts refl) (rw ts refl)
                    p' (Placed-tail _ _ _ _ _ _ _ _ tf r'))
            ]
            | inr sf ↦ elim (Bool-cases (eqb_ℤ t idx)) [
              | inl tt' ↦ absurd (
                  clash rest offs _ _ current size u t q s o x k.1 fit hr (rw tt' refl)
                    (rw tt' refl) r' (Placed-tail _ _ _ _ _ _ _ _ sf p'))
              | inr tf ↦
                  from-injective rest offs (current +ℤ size) s o t q x k.1 hr
                    (Placed-tail _ _ _ _ _ _ _ _ sf p') (Placed-tail _ _ _ _ _ _ _ _ tf r')
            ]
          ]

-- The used addresses of all segments go to different addresses: where two of them go to the same
-- one, they are one address.
pub relocate_segments-injective :
    (m : MemorySegmentManager) (used offsets : SegmentMap ℤ) (s o t q x : ℤ)
    → used_sizes m ≡ ok used
    → Sizes used
    → relocate_segments m ≡ ok offsets
    → Placed used offsets s o x
    → Placed used offsets t q x
    → (s ≡ t) × (o ≡ q)
unfolding relocate_segments
relocate_segments-injective m used offsets s o t q x hu k h p r =
    from-injective m used offsets first_memory_addr s o t q x k (rw hu at h) p r
