-- ===== src/Segments/Sizes.antt =====
-- The sizes that a frozen memory gives its segments (`compute_effective_sizes` of
-- starkware/cairo/lang/vm/memory_segments.py).
use pip_cairo_lang.Prelude.{
  some-injective, ℕ, zero, suc, arith, ◌≡◌, refl, sym, ap, ◌∙◌, Bool, none, some, [], ◌∷◌, All,
  true, false, Bool-cases, Option-cases, inl, inr, if◌then◌else◌,
}
use pip_cairo_lang.Prelude.Int.{ℤ, pos, ◌+ℤ◌, ◌≤ℤ◌, ◌<ℤ◌, ltb_ℤ, eqb_ℤ, eqb_ℤ_iff, int_laws}
use pip_cairo_lang.Value.{RelocatableValue, MaybeRelocatable, int, relocatable}
use pip_cairo_lang.Result.{ok, ok-injective}
use pip_cairo_lang.Exec.Steps.{Returns, asks_elim, modify_then, modify-Returns}
use pip_cairo_lang.Relocatable.{SegmentMap, find_segment}
use pip_cairo_lang.Memory.{MemoryDict}
use pip_cairo_lang.Memory.Dict.{Cells}
use pip_cairo_lang.Segments.{
  MemorySegmentManager, put_segment, max_ℤ, widen, widen_all, zero_sizes, compute_effective_sizes,
  is_cached,
}
use pip_cairo_lang.Segments.Layout.{Sizes}

-- An address inside its segment.
pub record Covered (sizes : SegmentMap ℤ) (addr : MaybeRelocatable) : Type 0 where
  pub place : RelocatableValue
  pub is_place : addr ≡ relocatable place
  pub size : ℤ
  pub found : find_segment place.segment_index sizes ≡ some size
  pub inside : place.offset <ℤ size

pub find-put :
    (s t v : ℤ) (m : SegmentMap ℤ)
    → find_segment s (put_segment t v m) ≡ (if eqb_ℤ s t then some v else find_segment s m)
find-put s t v [] = refl
find-put s t v ((idx, w) ∷ m) = elim (Bool-cases (eqb_ℤ t idx)) [
  | inl e ↦ let same : t ≡ idx = (eqb_ℤ_iff t idx).0 e in rw e (rw (← same) (twice (eqb_ℤ s t)))
  | inr e ↦
      rw (e, find-put s t v m)
        (apart (eqb_ℤ s idx) (eqb_ℤ s t) λ a b. cc (e, a, (eqb_ℤ_iff s t).0 b))
]
  where
    twice :
        (b : Bool)
        → (if b then some v else find_segment s m)
          ≡ (if b then some v else if b then some w else find_segment s m)
    twice true = refl
    twice false = refl

    apart :
        (a b : Bool)
        → (a ≡ true → b ≡ true → ⊥)
        → (if a then some w else if b then some v else find_segment s m)
          ≡ (if b then some v else if a then some w else find_segment s m)
    apart true true k = absurd (k refl refl)
    apart true false k = refl
    apart false b k = refl

Sizes-put : (t v : ℤ) (m : SegmentMap ℤ) → pos 0 ≤ℤ v → Sizes m → Sizes (put_segment t v m)
Sizes-put t v [] h k = (h, tt)
Sizes-put t v ((idx, w) ∷ m) h k = elim (Bool-cases (eqb_ℤ t idx)) [
  | inl e ↦ rw e (h, k.1)
  | inr e ↦ rw e (k.0, Sizes-put t v m h k.1)
]

Sizes-find : (s v : ℤ) (m : SegmentMap ℤ) → Sizes m → find_segment s m ≡ some v → pos 0 ≤ℤ v
Sizes-find s v [] k f = absurd (cc f)
Sizes-find s v ((idx, w) ∷ m) k f = elim (Bool-cases (eqb_ℤ s idx)) [
  | inl e ↦ let same : some w ≡ some v = rw e at f in rw (← some-injective same) k.0
  | inr e ↦ Sizes-find s v m k.1 (rw e at f)
]

max_above : (a b : ℤ) → b <ℤ max_ℤ a (b +ℤ pos 1)
max_above a b = elim (Bool-cases (ltb_ℤ a (b +ℤ pos 1))) [
  | inl e ↦ rw e (omega int_laws)
  | inr e ↦ let low : b +ℤ pos 1 ≤ℤ a = ground arith in rw e (omega int_laws)
]

max_left : (a b c : ℤ) → c <ℤ a → c <ℤ max_ℤ a b
max_left a b c h = elim (Bool-cases (ltb_ℤ a b)) [
  | inl e ↦ let low : a <ℤ b = ground arith in rw e (omega int_laws)
  | inr e ↦ rw e h
]

max_nonneg : (a b : ℤ) → pos 0 ≤ℤ a → pos 0 ≤ℤ max_ℤ a b
max_nonneg a b h = elim (Bool-cases (ltb_ℤ a b)) [
  | inl e ↦ let low : a <ℤ b = ground arith in rw e (omega int_laws)
  | inr e ↦ rw e h
]

-- What one address does to the table.
record Widened (sizes sizes' : SegmentMap ℤ) (addr : MaybeRelocatable) : Type 0 where
  covers : Covered sizes' addr
  keeps : (k : MaybeRelocatable) → Covered sizes k → Covered sizes' k
  nonneg : Sizes sizes → Sizes sizes'

widened_keeps :
    (sizes : SegmentMap ℤ) (a : RelocatableValue) (before : ℤ) (k : MaybeRelocatable)
    → find_segment a.segment_index sizes ≡ some before
    → Covered sizes k
    → Covered (put_segment a.segment_index (max_ℤ before (a.offset +ℤ pos 1)) sizes) k
widened_keeps sizes a before k e c =
    let s = c.place.segment_index in
    let new = max_ℤ before (a.offset +ℤ pos 1) in
    let put = find-put s a.segment_index new sizes in
    elim (Bool-cases (eqb_ℤ s a.segment_index)) [
      | inl t ↦
          let same : find_segment s sizes ≡ some before =
            ap (λ (z : ℤ). find_segment z sizes) ((eqb_ℤ_iff _ _).0 t) ∙ e in
          let size : c.size ≡ before = some-injective (sym c.found ∙ same) in
          record {
            place = c.place;
            is_place = c.is_place;
            size = new;
            found = put ∙ rw t refl;
            inside = max_left before _ c.place.offset (rw size at (c.inside));
          }
      | inr t ↦ record {
        place = c.place;
        is_place = c.is_place;
        size = c.size;
        found = put ∙ rw t (c.found);
        inside = c.inside;
      }
    ]

widen-Widened :
    (sizes sizes' : SegmentMap ℤ) (addr : MaybeRelocatable)
    → widen sizes addr ≡ ok sizes'
    → Widened sizes sizes' addr
widen-Widened sizes sizes' (int v) h = absurd (cc h)
widen-Widened sizes sizes' (relocatable a) h =
    elim (Option-cases (find_segment a.segment_index sizes)) [
      | inl e ↦ absurd (cc (rw (widen, e) at h))
      | inr (before, e) ↦
          let new = max_ℤ before (a.offset +ℤ pos 1) in
          let e' : put_segment a.segment_index new sizes ≡ sizes' =
            ok-injective (rw (widen, e) at h) in
          rw (← e') (record {
            covers = record {
              place = a;
              is_place = refl;
              size = new;
              found =
                  find-put a.segment_index a.segment_index new sizes
                  ∙ rw ((eqb_ℤ_iff a.segment_index a.segment_index).1 refl) refl;
              inside = max_above before a.offset;
            };
            keeps = λ k c. widened_keeps sizes a before k e c;
            nonneg =
                λ k. Sizes-put _ new sizes (max_nonneg before _ (Sizes-find _ before sizes k e)) k;
          })
    ]

-- The whole table, after some cells.
record Measured (cells : Cells) (sizes used : SegmentMap ℤ) : Type 0 where
  covers : All (λ cell. Covered used cell.0) cells
  keeps : (k : MaybeRelocatable) → Covered sizes k → Covered used k
  nonneg : Sizes sizes → Sizes used

widen_all-Measured :
    (cells : Cells) (sizes : SegmentMap ℤ) (m m' : MemorySegmentManager)
    → Returns (widen_all cells sizes) m tt m'
    → (used : SegmentMap ℤ) × (m'.segment_used_sizes ≡ some used) × Measured cells sizes used
unfolding widen_all
widen_all-Measured [] sizes m m' h =
    let e = modify-Returns (λ m. record m { segment_used_sizes = some sizes }) m h in
    (
      sizes,
      ap (λ (u : MemorySegmentManager). u.segment_used_sizes) e,
      record { covers = tt; keeps = λ k c. c; nonneg = λ k. k },
    )
widen_all-Measured ((addr, v) ∷ rest) sizes m m' h =
    let h1 = modify_then (λ m. record m { segment_used_sizes = some sizes }) _ m h in
    asks_elim _ _ _ h1 λ sizes' hw h2.
      let w = widen-Widened sizes sizes' addr hw in
      let (used, e, r) = widen_all-Measured rest sizes' _ m' h2 in
      (
        used,
        e,
        record {
          covers = (r.keeps addr w.covers, r.covers);
          keeps = λ k c. r.keeps k (w.keeps k c);
          nonneg = λ k. r.nonneg (w.nonneg k);
        },
      )

Sizes-zero : (first : ℤ) (n : ℕ) → Sizes (zero_sizes first n)
unfolding zero_sizes
Sizes-zero first zero = tt
Sizes-zero first (suc n) = (omega arith, Sizes-zero (first +ℤ pos 1) n)

-- The sizes that are computed are not negative, and every cell of the memory lies inside its
-- segment.
pub compute_effective_sizes-covers :
    (memory : MemoryDict) (include_tmp_segments : Bool) (m m' : MemorySegmentManager)
    → m.segment_used_sizes ≡ none
    → Returns (compute_effective_sizes memory include_tmp_segments) m tt m'
    → (used : SegmentMap ℤ) × (m'.segment_used_sizes ≡ some used)
      × Sizes used
      × All (λ cell. Covered used cell.0) memory.cells
unfolding compute_effective_sizes
compute_effective_sizes-covers memory tmp m m' fresh h = asks_elim _ _ m h λ cached hc h1.
    let open_case : cached ≡ false = sym (ok-injective hc) ∙ ap is_cached fresh in
    asks_elim _ _ m (rw open_case at h1) λ u frozen h2. asks_elim _ _ m h2 λ span hs h3.
      let (used, e, r) = widen_all-Measured memory.cells _ m m' h3 in
      (used, e, r.nonneg (Sizes-zero span.0 span.1), r.covers)
