-- ===== src/Trace.antt =====
-- The execution trace, its binary form and its relocation (starkware/cairo/lang/vm/trace_entry.py).
-- `struct.pack("<3Q", ...)` writes three unsigned 64-bit numbers, the low byte first.
pub mod RoundTrip
use pip_cairo_lang.Prelude.{
  ℕ, ◌*◌, ◌^◌, ◌==◌, Bool, false, ◌&&◌, List, [], ◌∷◌, ◌++◌, take, drop, length,
}
use pip_cairo_lang.Prelude.Int.{ℤ, pos, ltb_ℤ, leb_ℤ, pos_part}
use pip_cairo_lang.Value.{MaybeRelocatable, int, relocatable}
use pip_cairo_lang.Result.{Result, ok, ◌>>=◌, ◌>>◌, assert, trace_value, trace_size}
use pip_cairo_lang.Relocatable.{SegmentMap, relocate_value}
use pip_cairo_lang.Relocatable.Bytes.{little_bytes, little_value}
use pip_cairo_lang.Vm.State.{TraceEntry}

-- a value that passes both assertions of `serialize`, as a number
unfoldable pub checked_word : MaybeRelocatable → Result ℕ
checked_word (relocatable _) = assert false trace_value >> ok 0
checked_word (int x) = do
  assert (leb_ℤ (pos 0) x && ltb_ℤ x (pos (2 ^ 64))) trace_value
  ok (pos_part x)

-- `serialize`: ap, fp and pc
unfoldable pub serialize : TraceEntry → Result (List ℕ)
unfolding checked_word
serialize entry = do
  ap ← checked_word entry.ap
  fp ← checked_word entry.fp
  pc ← checked_word entry.pc
  ok (little_bytes 8 ap ++ (little_bytes 8 fp ++ little_bytes 8 pc))

abbrev pub serialization_size : ℕ
serialization_size = 3 * 8

abbrev word_at : ℕ → List ℕ → MaybeRelocatable
word_at start serialized = int (pos (little_value (take 8 (drop start serialized))))

unfoldable pub deserialize : List ℕ → Result TraceEntry
deserialize serialized = do
  assert (length serialized == serialization_size) trace_size
  ok (record { pc = word_at 16 serialized; ap = word_at 0 serialized; fp = word_at 8 serialized })

unfoldable pub relocate_trace :
    List TraceEntry → SegmentMap MaybeRelocatable → ℕ → Bool → Result (List TraceEntry)
relocate_trace [] segment_offsets prime allow_missing_segments = ok []
relocate_trace (entry ∷ trace) segment_offsets prime allow_missing_segments = do
  pc ← relocate_value entry.pc segment_offsets prime allow_missing_segments
  ap ← relocate_value entry.ap segment_offsets prime allow_missing_segments
  fp ← relocate_value entry.fp segment_offsets prime allow_missing_segments
  new_trace ← relocate_trace trace segment_offsets prime allow_missing_segments
  ok (record { pc = pc; ap = ap; fp = fp } ∷ new_trace)
