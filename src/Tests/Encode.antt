-- ===== src/Tests/Encode.antt =====
-- The encoding of one instruction, `[ap] = [[fp + 1]] + 7` at ap, and of an address
-- (starkware/cairo/lang/compiler/encode.py, starkware/cairo/lang/vm/relocatable.py,
-- starkware/cairo/lang/vm/trace_entry.py).
use pip_cairo_lang.Prelude.{ℕ, ◌≡◌, ◌↔◌, ◌<◌, ◌^◌, ◌+◌, ◌/◌, ◌%◌, refl, arith, some, List, [], ◌∷◌}
use pip_cairo_lang.Prelude.Int.{ℤ, pos, negsuc, ◌+ℤ◌, ◌%ℤ◌, ◌*ℤ◌}
use pip_cairo_lang.Value.{RelocatableValue, int, relocatable}
use pip_cairo_lang.Result.{ok}
use pip_cairo_lang.Instruction.{
  Register, Op1Addr, Res, PcUpdate, ApUpdate, FpUpdate, Opcode, Instruction, instruction,
}
use pip_cairo_lang.Encode.Encoder.{encode_instruction, encode_flags, encode_word, with_imm}
use pip_cairo_lang.Encode.Decoder.{decode_instruction}
use pip_cairo_lang.Encode.RoundTrip.{
  IsEncodable, decode-encode, encode_instruction_iff, reduced_imm, first,
}
use pip_cairo_lang.Encode.Canonical.{encode-decode}
use pip_cairo_lang.Relocatable.Bytes.{little, little_bytes, int_to_bytes, to_bytes, from_bytes}
use pip_cairo_lang.Relocatable.ByteLaws.{from_bytes-to_bytes, from_bytes-address}
use pip_cairo_lang.Vm.State.{TraceEntry}
use pip_cairo_lang.Trace.{serialize, deserialize}
use pip_cairo_lang.Trace.RoundTrip.{deserialize-serialize}

abbrev prime : ℕ
prime = 2 ^ 64 + 13

-- `[fp] = [ap - 1] + 7; ap++`
abbrev sample : Instruction
sample = record {
  off0 = pos 0;
  off1 = negsuc 0;
  off2 = pos 1;
  imm = some (pos 7);
  dst_register = Register.fp;
  op0_register = Register.ap;
  op1_addr = Op1Addr.imm;
  res = Res.add;
  pc_update = PcUpdate.regular;
  ap_update = ApUpdate.add1;
  fp_update = FpUpdate.regular;
  opcode = Opcode.assert_eq;
}

abbrev sample_word : ℕ
sample_word = 5198702088799879168

encode_sample : encode_instruction (instruction sample) prime ≡ ok (pos sample_word ∷ pos 7 ∷ [])
unfolding encode_instruction encode_flags encode_word ◌+ℤ◌ ◌%ℤ◌
encode_sample = refl

decode-encode_example :
    decode_instruction (pos sample_word) (first (pos 7 ∷ []))
    ≡ ok (record sample { imm = reduced_imm (some (pos 7)) prime })
decode-encode_example = decode-encode sample prime (pos sample_word) (pos 7 ∷ []) encode_sample

encode_instruction_iff_example :
    ((words : List ℤ) × (encode_instruction (instruction sample) prime ≡ ok words))
    ↔ (IsEncodable sample × (2 ^ 64 < prime))
encode_instruction_iff_example = encode_instruction_iff sample prime

encode-decode_example :
    encode_instruction
      (instruction (record sample { imm = reduced_imm (some (pos 7)) prime }))
      prime
    ≡ ok (with_imm sample_word (reduced_imm (some (pos 7)) prime) prime)
encode-decode_example =
    encode-decode sample_word prime (first (pos 7 ∷ []))
      (record sample { imm = reduced_imm (some (pos 7)) prime }) decode-encode_example (omega arith)

abbrev place : RelocatableValue
place = record { segment_index = pos 1; offset = pos 2 }

abbrev place_bytes : List ℕ
place_bytes = 2 ∷ 0 ∷ 0 ∷ 0 ∷ 0 ∷ 128 ∷ 0 ∷ 128 ∷ []

write_place : to_bytes (relocatable place) 8 little ≡ ok place_bytes
unfolding to_bytes int_to_bytes little_bytes ◌+ℤ◌ ◌*ℤ◌
write_place = refl

from_bytes-to_bytes_example : from_bytes place_bytes little ≡ ok (relocatable place)
from_bytes-to_bytes_example =
    from_bytes-to_bytes (relocatable place) 8 little place_bytes (omega arith) (omega arith)
      write_place

-- a segment index that needs 17 bits, in nine bytes
abbrev far : RelocatableValue
far = record { segment_index = pos (2 ^ 16 + 1); offset = pos 2 }

abbrev far_bytes : List ℕ
far_bytes = 2 ∷ 0 ∷ 0 ∷ 0 ∷ 0 ∷ 128 ∷ 0 ∷ 128 ∷ 128 ∷ []

write_far : to_bytes (relocatable far) 9 little ≡ ok far_bytes
unfolding to_bytes int_to_bytes little_bytes ◌+ℤ◌ ◌*ℤ◌
write_far = refl

from_bytes-address_example :
    from_bytes far_bytes little
    ≡ ok (
        relocatable (record {
          segment_index = pos ((2 ^ 16 + 1 + 2 / 2 ^ 47) % 2 ^ 16);
          offset = pos (2 % 2 ^ 47);
        }))
from_bytes-address_example = from_bytes-address (2 ^ 16 + 1) 2 9 little far_bytes write_far

abbrev entry : TraceEntry
entry = record { pc = int (pos 1); ap = int (pos 260); fp = int (pos 3) }

abbrev entry_bytes : List ℕ
entry_bytes =
    4 ∷ 1 ∷ 0 ∷ 0 ∷ 0 ∷ 0 ∷ 0 ∷ 0 ∷ 3 ∷ 0 ∷ 0 ∷ 0 ∷ 0 ∷ 0 ∷ 0 ∷ 0 ∷ 1 ∷ 0 ∷ 0 ∷ 0 ∷ 0 ∷ 0 ∷ 0 ∷ 0
    ∷ []

write_entry : serialize entry ≡ ok entry_bytes
unfolding serialize little_bytes
write_entry = refl

deserialize-serialize_example : deserialize entry_bytes ≡ ok entry
deserialize-serialize_example = deserialize-serialize entry entry_bytes write_entry
