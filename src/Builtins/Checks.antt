-- ===== src/Builtins/Checks.antt =====
-- The size that a builtin gives its segment (`finalize_segments` of
-- starkware/cairo/lang/vm/builtin_runner.py).
use pip_cairo_lang.Prelude.{
  ◌≡◌, ◌≢◌, refl, sym, ap, ◌∙◌, arith, inl, inr, Bool-cases, if◌then◌else◌, Bool, true, false, some,
  [],
}
use pip_cairo_lang.Prelude.Int.{ℤ, ◌*ℤ◌, ◌≤ℤ◌, ltb_ℤ, eqb_ℤ, eqb_ℤ_iff}
use pip_cairo_lang.Value.{RelocatableValue}
use pip_cairo_lang.Result.{ok, bind_elim, ok-injective}
use pip_cairo_lang.Relocatable.{SegmentMap, find_segment}
use pip_cairo_lang.Segments.{
  MemorySegmentManager, finalize, get_segment_size, get_segment_used_size, put_segment,
}
use pip_cairo_lang.Segments.Sizes.{find-put}
use pip_cairo_lang.MathUtils.{safe_div}
use pip_cairo_lang.MathUtils.SafeDiv.{safe_div-exact}
use pip_cairo_lang.Builtins.{
  SimpleBuiltinRunner, Runner, base_of, insufficient_if, get_used_cells,
  get_used_cells_and_allocated_size, finalize_segments,
}

insufficient : (t : Bool) {u : Unit {0}} → insufficient_if t ≡ ok u → t ≡ false
insufficient true h = absurd (cc h)
insufficient false h = refl

not_below : (a c : ℤ) → ltb_ℤ c a ≡ false → a ≤ℤ c
not_below a c h = ground arith

used_fits :
    (b : SimpleBuiltinRunner) (runner : Runner) (sizes : ℤ × ℤ)
    → get_used_cells_and_allocated_size b runner ≡ ok sizes
    → (get_used_cells b runner ≡ ok sizes.0)
      × (n : ℤ) × (b.ratio ≤ℤ runner.current_step)
      × (b.ratio *ℤ n ≡ runner.current_step)
      × (b.cells_per_instance *ℤ n ≡ sizes.1)
      × (sizes.0 ≤ℤ sizes.1)
unfolding get_used_cells_and_allocated_size
used_fits b runner sizes h =
    bind_elim (insufficient_if (ltb_ℤ runner.current_step b.ratio)) _ h λ u0 h0 h1.
      bind_elim (get_used_cells b runner) _ h1 λ used hu h2.
        bind_elim (safe_div runner.current_step b.ratio) _ h2 λ n hn h3.
          bind_elim (insufficient_if (ltb_ℤ (b.cells_per_instance *ℤ n) used)) _ h3 λ u1 hs h4.
            let e : (used, b.cells_per_instance *ℤ n) ≡ sizes = ok-injective h4 in
            rw (← e) (
              hu,
              n,
              not_below b.ratio runner.current_step (insufficient _ h0),
              safe_div-exact runner.current_step b.ratio n hn,
              refl,
              not_below used (b.cells_per_instance *ℤ n) (insufficient _ hs),
            )

-- What the finalization of a builtin's segment leaves: the used and the allocated size.
pub record Allotted (b : SimpleBuiltinRunner) (runner : Runner) (base : RelocatableValue)
    (m : MemorySegmentManager) : Type 0 where
  pub used : ℤ
  pub instances : ℤ
  pub used_found : get_segment_used_size runner.segments base.segment_index ≡ ok used
  pub enough_steps : b.ratio ≤ℤ runner.current_step
  pub whole : b.ratio *ℤ instances ≡ runner.current_step
  pub size_found : get_segment_size m base.segment_index ≡ ok (b.cells_per_instance *ℤ instances)
  pub fits : used ≤ℤ b.cells_per_instance *ℤ instances
  pub others :
      (s : ℤ)
      → s ≢ base.segment_index
      → find_segment s m.segment_sizes ≡ find_segment s runner.segments.segment_sizes

size_of_found :
    (m : MemorySegmentManager) (s size : ℤ)
    → find_segment s m.segment_sizes ≡ some size
    → get_segment_size m s ≡ ok size
unfolding get_segment_size
size_of_found m s size h = rw (get_segment_size, h) refl

-- When a builtin finalizes its segment without an error, the step count is not below the builtin's
-- ratio and is the ratio times a whole number of instances, the segment's size becomes that number
-- times the cells of an instance, the used size of the segment is at most this, and the sizes of
-- all other segments are kept.
pub finalize_segments-Allotted :
    (b : SimpleBuiltinRunner) (runner : Runner) (base : RelocatableValue) (m : MemorySegmentManager)
    → base_of b ≡ ok base
    → finalize_segments b runner ≡ ok m
    → Allotted b runner base m
unfolding finalize_segments get_used_cells finalize
finalize_segments-Allotted b runner base m hb h =
    bind_elim (get_used_cells_and_allocated_size b runner) _ h λ sizes hs h1.
      let (hu, n, enough, exact, size, fits) = used_fits b runner sizes hs in
      let before = runner.segments.segment_sizes in
      let s = base.segment_index in
      let done = finalize s (some sizes.1) [] runner.segments in
      let h2 : done ≡ m = ok-injective (rw hb at h1) in
      let found : find_segment s (put_segment s sizes.1 before) ≡ some sizes.1 =
        find-put s s sizes.1 before ∙ rw ((eqb_ℤ_iff s s).1 refl) refl in
      record {
        used = sizes.0;
        instances = n;
        used_found = rw hb at hu;
        enough_steps = enough;
        whole = exact;
        size_found = rw (← h2) (size_of_found done s sizes.1 found ∙ ap ok (sym size));
        fits = rw size fits;
        others = λ t other. rw (← h2) (find-put t s sizes.1 before ∙ kept t s sizes.1 before other);
      }
  where
    kept :
        (t s size : ℤ) (before : SegmentMap ℤ)
        → t ≢ s
        → (if eqb_ℤ t s then some size else find_segment t before) ≡ find_segment t before
    kept t s size before other = elim (Bool-cases (eqb_ℤ t s)) [
      | inl e ↦ absurd (other ((eqb_ℤ_iff t s).0 e))
      | inr e ↦ rw e refl
    ]
