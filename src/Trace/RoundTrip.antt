-- ===== src/Trace/RoundTrip.antt =====
-- Reading back a serialized trace entry (starkware/cairo/lang/vm/trace_entry.py).
use pip_cairo_lang.Prelude
use pip_cairo_lang.Prelude.{
  ℕ, zero, suc, ◌+◌, ◌^◌, ◌<◌, ◌==◌, ◌≡◌, refl, sym, ◌∙◌, arith, true, ◌&&◌, List, [], ◌∷◌, ◌++◌,
  take, drop, length, length-append, take-++, drop-++,
}
use pip_cairo_lang.Prelude.Int.{pos, negsuc, ltb_ℤ, leb_ℤ}
use pip_cairo_lang.Value.{MaybeRelocatable, int, relocatable}
use pip_cairo_lang.Result.{ok, ok-injective, assert-then, bind_elim, trace_value}
use pip_cairo_lang.Relocatable.Bytes.{little_bytes, little_value}
use pip_cairo_lang.Relocatable.ByteLaws.{little_value-bytes}
use pip_cairo_lang.Vm.State.{TraceEntry}
use pip_cairo_lang.Trace.{checked_word, serialize, deserialize}

-- A word is an int from 0 up to 2 ** 64.
checked_word-value :
    (v : MaybeRelocatable) (n : ℕ) → checked_word v ≡ ok n → (v ≡ int (pos n)) × (n < 256 ^ 8)
unfolding checked_word
checked_word-value (relocatable _) n h = cc
checked_word-value (int (pos x)) n h =
    let (t, e) =
      assert-then (leb_ℤ (pos 0) (pos x) && ltb_ℤ (pos x) (pos (2 ^ 64))) trace_value _ h in
    let same : x ≡ n = ok-injective e in rw (← same) (refl, ground arith)
checked_word-value (int (negsuc x)) n h =
    let (t, e) =
      assert-then (leb_ℤ (pos 0) (negsuc x) && ltb_ℤ (negsuc x) (pos (2 ^ 64))) trace_value _ h in
    absurd (ground arith)

-- Three words of eight bytes, one after the other.
abbrev three : ℕ → ℕ → ℕ → List ℕ
three a b c = little_bytes 8 a ++ (little_bytes 8 b ++ little_bytes 8 c)

read_three :
    (a f p : ℕ)
    → a < 256 ^ 8
    → f < 256 ^ 8
    → p < 256 ^ 8
    → deserialize (three a f p)
      ≡ ok (record { pc = int (pos p); ap = int (pos a); fp = int (pos f) })
unfolding deserialize little_bytes
read_three a f p ha hf hp =
    let e : deserialize (three a f p)
        ≡ ok (record {
          pc = int (pos (little_value (little_bytes 8 p)));
          ap = int (pos (little_value (little_bytes 8 a)));
          fp = int (pos (little_value (little_bytes 8 f)));
        }) =
      refl in
    e ∙ rw (little_value-bytes 8 p hp, little_value-bytes 8 a ha, little_value-bytes 8 f hf) refl

entry_of_fields :
    (entry : TraceEntry) {p a f : MaybeRelocatable}
    → entry.pc ≡ p
    → entry.ap ≡ a
    → entry.fp ≡ f
    → record { pc = p; ap = a; fp = f } ≡ entry
entry_of_fields entry hp ha hf = rw (← hp, ← ha, ← hf) refl

-- A trace entry that has been written is read back as it was.
pub deserialize-serialize :
    (entry : TraceEntry) (bytes : List ℕ)
    → serialize entry ≡ ok bytes
    → deserialize bytes ≡ ok entry
unfolding serialize
deserialize-serialize entry bytes h = bind_elim (checked_word entry.ap) _ h λ ap ha h1.
    bind_elim (checked_word entry.fp) _ h1 λ fp hf h2.
      bind_elim (checked_word entry.pc) _ h2 λ pc hp h3.
        let (ea, ba) = checked_word-value entry.ap ap ha in
        let (ef, bf) = checked_word-value entry.fp fp hf in
        let (ep, bp) = checked_word-value entry.pc pc hp in
        rw (← ok-injective h3)
          (read_three ap fp pc ba bf bp ∙ Prelude.ap ok (entry_of_fields entry ep ea ef))
