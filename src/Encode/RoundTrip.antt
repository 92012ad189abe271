-- ===== src/Encode/RoundTrip.antt =====
-- Encoding succeeds exactly on the instructions that keep the checks of `encode_instruction`, and
-- decoding gives the instruction back (starkware/cairo/lang/compiler/encode.py).
use pip_cairo_lang.Prelude.{
  ℕ, ◌^◌, ◌<◌, ◌≡◌, ◌↔◌, refl, true, Option, none, some, List, [], ◌∷◌, arith, lt→ltb, ltb→lt,
}
use pip_cairo_lang.Prelude.Int.{ℤ, pos, ◌+ℤ◌, ◌-ℤ◌, ◌%ℤ◌}
use pip_cairo_lang.Result.{ok, assert-then}
use pip_cairo_lang.Instruction.{Instruction, instruction, decode_instruction_values}
use pip_cairo_lang.Encode.Flags.{
  is_imm, has_imm, is_jnz, is_unconstrained, is_add2, is_call, same, same_fp, fp_update_of,
}
use pip_cairo_lang.Encode.Encoder.{
  in_range, offset_enc, with_imm, encode_flags, encode_word, encode_instruction,
}
use pip_cairo_lang.Encode.Decoder.{decode_instruction}
use pip_cairo_lang.Encode.Layout.{
  instruction_sum, fits_instruction, encode_flags-sum, encode_word-sum, register_code, op1_code,
  res_code, pc_code, ap_code, opcode_code,
}
use pip_cairo_lang.Encode.Fields.{
  register_bits, op1_bits, res_bits, pc_bits, ap_bits, opcode_bits, decode_register-code,
  decode_op1-code, decode_pc-code, decode_opcode-code, decode_res-code, res_jnz_check,
  decode_ap-code, decode_call_ap-read, decode_fp-opcode, decode_imm-same, values_of_word,
}

-- The conditions that `encode_instruction` asserts of an instruction.
pub record IsEncodable (i : Instruction) : Type 0 where
  pub off0 : in_range i.off0 ≡ true
  pub off1 : in_range i.off1 ≡ true
  pub off2 : in_range i.off2 ≡ true
  pub imm : same (has_imm i.imm) (is_imm i.op1_addr) ≡ true
  pub res : same (is_unconstrained i.res) (is_jnz i.pc_update) ≡ true
  pub ap_update : same (is_add2 i.ap_update) (is_call i.opcode) ≡ true
  pub fp_update : same_fp i.fp_update (fp_update_of i.opcode) ≡ true

abbrev pub word : Instruction → ℕ
word i = encode_word (encode_flags i) (offset_enc i.off0) (offset_enc i.off1) (offset_enc i.off2)

offset_enc-lt : (off : ℤ) → in_range off ≡ true → offset_enc off < 2 ^ 16
unfolding ◌+ℤ◌
offset_enc-lt off h = ground arith

offset_of_enc : (off : ℤ) → in_range off ≡ true → pos (offset_enc off) -ℤ pos (2 ^ 15) ≡ off
unfolding ◌+ℤ◌ ◌-ℤ◌
offset_of_enc off h = ground arith

instruction_sum-lt : (i : Instruction) → instruction_sum i < 2 ^ 15
instruction_sum-lt i = omega (arith, fits_instruction i)

word-lt : (i : Instruction) → IsEncodable i → word i < 2 ^ 63
word-lt i h = rw encode_flags-sum (
    omega (
      arith,
      instruction_sum-lt i,
      offset_enc-lt i.off0 h.off0,
      offset_enc-lt i.off1 h.off1,
      offset_enc-lt i.off2 h.off2,
      encode_word-sum (instruction_sum i) (offset_enc i.off0) (offset_enc i.off1)
          (offset_enc i.off2),
    ))

-- An instruction that keeps the checks is encoded, whatever the prime above 2 ** 64.
pub encode_of_IsEncodable :
    (i : Instruction) (p : ℕ)
    → IsEncodable i
    → 2 ^ 64 < p
    → encode_instruction (instruction i) p ≡ ok (with_imm (word i) i.imm p)
unfolding encode_instruction
encode_of_IsEncodable i p h big = rw (
  lt→ltb (2 ^ 64) p big,
  h.off0,
  h.off1,
  h.off2,
  h.imm,
  h.res,
  h.ap_update,
  h.fp_update,
  lt→ltb (word i) p (omega (arith, word-lt i h)),
)

-- and nothing else is.
pub IsEncodable-of_encode :
    (i : Instruction) (p : ℕ) (words : List ℤ)
    → encode_instruction (instruction i) p ≡ ok words
    → IsEncodable i × (2 ^ 64 < p)
unfolding encode_instruction
IsEncodable-of_encode i p words h =
    let s1 = assert-then _ _ _ h in
    let s2 = assert-then _ _ _ s1.1 in
    let s3 = assert-then _ _ _ s2.1 in
    let s4 = assert-then _ _ _ s3.1 in
    let s5 = assert-then _ _ _ s4.1 in
    let s6 = assert-then _ _ _ s5.1 in
    let s7 = assert-then _ _ _ s6.1 in
    let s8 = assert-then _ _ _ s7.1 in
    (
      record {
        off0 = s2.0;
        off1 = s3.0;
        off2 = s4.0;
        imm = s5.0;
        res = s6.0;
        ap_update = s7.0;
        fp_update = s8.0;
      },
      ltb→lt (2 ^ 64) p s1.0,
    )

-- An instruction is encoded exactly when the prime is above 2 ** 64, its offsets are in range and
-- its fields agree with one another; the last assertion, that the word is below the prime, never
-- fails.
pub encode_instruction_iff :
    (i : Instruction) (p : ℕ)
    → ((words : List ℤ) × (encode_instruction (instruction i) p ≡ ok words))
      ↔ (IsEncodable i × (2 ^ 64 < p))
encode_instruction_iff i p = (
  λ h. IsEncodable-of_encode i p h.0 h.1,
  λ h. (with_imm (word i) i.imm p, encode_of_IsEncodable i p h.0 h.1),
)

-- The word of an instruction is decoded field by field, whatever immediate comes with it.
module _ (i : Instruction) (h : IsEncodable i) where
  abbrev d : ℕ
  d = register_code i.dst_register

  abbrev b : ℕ
  b = register_code i.op0_register

  abbrev o : ℕ
  o = op1_code i.op1_addr

  abbrev r : ℕ
  r = res_code i.res

  abbrev p : ℕ
  p = pc_code i.pc_update

  abbrev a : ℕ
  a = ap_code i.ap_update

  abbrev c : ℕ
  c = opcode_code i.opcode

  values_of_instruction :
      decode_instruction_values (pos (word i))
      ≡ ok (record {
        flags = instruction_sum i;
        off0 = offset_enc i.off0;
        off1 = offset_enc i.off1;
        off2 = offset_enc i.off2;
      })
  values_of_instruction = rw (encode_flags-sum i) (
      values_of_word (instruction_sum i) (offset_enc i.off0) (offset_enc i.off1) (offset_enc i.off2)
        (instruction_sum-lt i) (offset_enc-lt i.off0 h.off0) (offset_enc-lt i.off1 h.off1)
        (offset_enc-lt i.off2 h.off2))

  decode_word :
      (imm : Option ℤ)
      → same (has_imm imm) (is_imm i.op1_addr) ≡ true
      → decode_instruction (pos (word i)) imm ≡ ok (record i { imm = imm })
  unfolding decode_instruction
  decode_word imm hi =
      let fits = fits_instruction i in
      let q = register_bits d b o r p a c fits in
      let q1 = op1_bits d b o r p a c fits in
      let q2 = pc_bits d b o r p a c fits in
      let q3 = res_bits d b o r p a c fits in
      let q4 = ap_bits d b o r p a c fits in
      let q5 = opcode_bits d b o r p a c fits in
      rw (values_of_instruction, q.0, q.1, q1.0, q1.1, q1.2)
        (rw
          (
            decode_register-code i.dst_register,
            decode_register-code i.op0_register,
            decode_op1-code i.op1_addr,
            decode_imm-same i.op1_addr imm hi,
          )
          (rw (q2.0, q2.1, q2.2, decode_pc-code i.pc_update, q3.0, q3.1)
            (rw
              (
                decode_res-code i.pc_update i.res h.res,
                res_jnz_check i.pc_update i.res h.res,
                q4.0,
                q4.1,
                decode_ap-code i.ap_update,
              )
              (rw
                (
                  q5.0,
                  q5.1,
                  q5.2,
                  decode_opcode-code i.opcode,
                  decode_call_ap-read i.opcode i.ap_update h.ap_update,
                )
                (rw (
                  offset_of_enc i.off0 h.off0,
                  offset_of_enc i.off1 h.off1,
                  offset_of_enc i.off2 h.off2,
                  decode_fp-opcode i.fp_update i.opcode h.fp_update,
                ))))))

abbrev pub first : List ℤ → Option ℤ
first [] = none
first (x ∷ _) = some x

-- The immediate as it is stored in the second word.
abbrev pub reduced_imm : Option ℤ → ℕ → Option ℤ
reduced_imm none p = none
reduced_imm (some v) p = some (pos (v %ℤ p))

first-with_imm :
    (n : ℕ) (imm : Option ℤ) (p : ℕ) (w : ℤ) (rest : List ℤ)
    → with_imm n imm p ≡ w ∷ rest
    → (w ≡ pos n) × (first rest ≡ reduced_imm imm p)
first-with_imm n none p w rest h = ground arith
first-with_imm n (some v) p w rest h = ground arith

has_imm-reduced : (imm : Option ℤ) (p : ℕ) → has_imm (reduced_imm imm p) ≡ has_imm imm
has_imm-reduced none p = refl
has_imm-reduced (some v) p = refl

-- Whenever an instruction is encoded, decoding its words gives the instruction back, with the
-- immediate reduced modulo the prime.
pub decode-encode :
    (i : Instruction) (p : ℕ) (w : ℤ) (rest : List ℤ)
    → encode_instruction (instruction i) p ≡ ok (w ∷ rest)
    → decode_instruction w (first rest) ≡ ok (record i { imm = reduced_imm i.imm p })
decode-encode i p w rest h =
    let (valid, big) = IsEncodable-of_encode i p (w ∷ rest) h in
    let words : with_imm (word i) i.imm p ≡ w ∷ rest = cc (encode_of_IsEncodable i p valid big) in
    let parts = first-with_imm (word i) i.imm p w rest words in
    rw (parts.0, parts.1)
      (decode_word i valid (reduced_imm i.imm p) (rw (has_imm-reduced i.imm p) valid.imm))
