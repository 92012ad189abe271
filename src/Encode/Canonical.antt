-- ===== src/Encode/Canonical.antt =====
-- Encoding a decoded instruction gives its word back: no two words are decoded to one instruction
-- (starkware/cairo/lang/compiler/encode.py).
use pip_cairo_lang.Prelude.{
  ℕ, zero, suc, ◌+◌, ◌*◌, ◌/◌, ◌%◌, ◌^◌, ◌<◌, ◌≡◌, refl, ap, ◌∙◌, subst, true, ◌||◌, not, Option,
  arith,
}
use pip_cairo_lang.Prelude.Int.{ℤ, pos, ◌+ℤ◌, ◌-ℤ◌}
use pip_cairo_lang.Prelude.Bits.{bit_and-mask}
use pip_cairo_lang.Result.{ok, bind_elim, assert-eq-ok, ok-injective}
use pip_cairo_lang.Instruction.{
  Op1Addr, Res, PcUpdate, ApUpdate, Opcode, Instruction, instruction, Fields,
  decode_instruction_values,
}
use pip_cairo_lang.Encode.Flags.{
  is_imm, has_imm, is_jnz, is_unconstrained, is_add2, is_call, same, same_fp, fp_update_of,
}
use pip_cairo_lang.Encode.Encoder.{in_range, offset_enc, with_imm, encode_instruction}
use pip_cairo_lang.Encode.Decoder.{
  flag_bit, decode_register, decode_op1, decode_imm, decode_pc, decode_res, decode_ap,
  decode_opcode, decode_call_ap, decode_fp, decode_instruction,
}
use pip_cairo_lang.Encode.Layout.{
  flags_sum, instruction_sum, encode_flags-sum, encode_word-sum, flag_bit_lem, register_code,
  op1_code, res_code, pc_code, ap_code, opcode_code,
}
use pip_cairo_lang.Encode.RoundTrip.{IsEncodable, word, encode_of_IsEncodable}

op1_code-decode :
    (x y z : ℕ) (o : Op1Addr) → decode_op1 x y z ≡ ok o → op1_code o ≡ x + 2 * z + 4 * y
unfolding decode_op1
op1_code-decode x y z o h = ground arith

pc_code-decode : (x y z : ℕ) (o : PcUpdate) → decode_pc x y z ≡ ok o → pc_code o ≡ x + 2 * y + 4 * z
unfolding decode_pc
pc_code-decode x y z o h = ground arith

opcode_code-decode :
    (x y z : ℕ) (o : Opcode) → decode_opcode x y z ≡ ok o → opcode_code o ≡ x + 2 * y + 4 * z
unfolding decode_opcode
opcode_code-decode x y z o h = ground arith

res_code-decode :
    (p : PcUpdate) (x y : ℕ) (r : Res) → decode_res p x y ≡ ok r → res_code r ≡ x + 2 * y
unfolding decode_res
res_code-decode p x y r h = ground arith

res_jnz :
    (p : PcUpdate) (x y : ℕ) (r : Res)
    → decode_res p x y ≡ ok r
    → (not (is_jnz p) || is_unconstrained r) ≡ true
    → same (is_unconstrained r) (is_jnz p) ≡ true
unfolding decode_res
res_jnz p x y r h k = ground arith

ap_code-decode :
    (x y : ℕ) (c : Opcode) (a b : ApUpdate)
    → decode_ap x y ≡ ok a
    → decode_call_ap c a ≡ ok b
    → (ap_code b ≡ x + 2 * y) × (same (is_add2 b) (is_call c) ≡ true)
unfolding decode_ap decode_call_ap
ap_code-decode x y c a b h k = ground arith

imm_same :
    (o : Op1Addr) (imm imm' : Option ℤ)
    → decode_imm o imm ≡ ok imm'
    → same (has_imm imm') (is_imm o) ≡ true
unfolding decode_imm
imm_same o imm imm' h = ground arith

register_code-decode : (n k : ℕ) → register_code (decode_register (flag_bit n k)) ≡ flag_bit n k
unfolding decode_register
register_code-decode n k = below_two (flag_bit n k) (omega (arith, flag_bit_lem n k))
  where
    below_two : (m : ℕ) → m < 2 → register_code (decode_register m) ≡ m
    below_two zero h = refl
    below_two (suc zero) h = refl
    below_two (suc (suc m)) h = absurd (omega arith)

record Decoded (n : ℕ) (i : Instruction) : Type 0 where
  fits : n < 2 ^ 63
  flags : instruction_sum i ≡ n / 2 ^ 48
  off0 : i.off0 ≡ pos (n % 2 ^ 16) -ℤ pos (2 ^ 15)
  off1 : i.off1 ≡ pos (n / 2 ^ 16 % 2 ^ 16) -ℤ pos (2 ^ 15)
  off2 : i.off2 ≡ pos (n / 2 ^ 32 % 2 ^ 16) -ℤ pos (2 ^ 15)
  imm : same (has_imm i.imm) (is_imm i.op1_addr) ≡ true
  res : same (is_unconstrained i.res) (is_jnz i.pc_update) ≡ true
  ap_update : same (is_add2 i.ap_update) (is_call i.opcode) ≡ true
  fp_update : same_fp i.fp_update (fp_update_of i.opcode) ≡ true

same_fp-decode : (c : Opcode) → same_fp (decode_fp c) (fp_update_of c) ≡ true
same_fp-decode Opcode.call = refl
same_fp-decode _ = refl

values-inv :
    (n : ℕ) (v : Fields)
    → decode_instruction_values (pos n) ≡ ok v
    → (n < 2 ^ 63)
      × (v.flags ≡ n / 2 ^ 48)
      × (v.off0 ≡ n % 2 ^ 16)
      × (v.off1 ≡ n / 2 ^ 16 % 2 ^ 16)
      × (v.off2 ≡ n / 2 ^ 32 % 2 ^ 16)
unfolding decode_instruction_values
values-inv n v h =
    ground (arith, bit_and-mask 16 n, bit_and-mask 16 (n / 2 ^ 16), bit_and-mask 16 (n / 2 ^ 32))

sum_of_bits :
    (f : ℕ)
    → f < 2 ^ 15
    → flags_sum
        (flag_bit f 0)
        (flag_bit f 1)
        (flag_bit f 2 + 2 * flag_bit f 3 + 4 * flag_bit f 4)
        (flag_bit f 5 + 2 * flag_bit f 6)
        (flag_bit f 7 + 2 * flag_bit f 8 + 4 * flag_bit f 9)
        (flag_bit f 10 + 2 * flag_bit f 11)
        (flag_bit f 12 + 2 * flag_bit f 13 + 4 * flag_bit f 14)
      ≡ f
sum_of_bits f h = omega (arith, flag_bit_lem)

-- What `decode_instruction` returns, from the parts that it has read.
abbrev decoded_instruction :
    Fields → Op1Addr → Option ℤ → PcUpdate → Res → ApUpdate → Opcode → Instruction
decoded_instruction v o imm' p r b c = record {
  off0 = pos v.off0 -ℤ pos (2 ^ 15);
  off1 = pos v.off1 -ℤ pos (2 ^ 15);
  off2 = pos v.off2 -ℤ pos (2 ^ 15);
  imm = imm';
  dst_register = decode_register (flag_bit v.flags 0);
  op0_register = decode_register (flag_bit v.flags 1);
  op1_addr = o;
  res = r;
  pc_update = p;
  ap_update = b;
  fp_update = decode_fp c;
  opcode = c;
}

-- The parts that a successful decoding has read, put together.
module _ (n : ℕ) (v : Fields) (o : Op1Addr) (imm imm' : Option ℤ) (p : PcUpdate) (r : Res)
    (a b : ApUpdate) (c : Opcode) (hv : decode_instruction_values (pos n) ≡ ok v)
    (ho : decode_op1 (flag_bit v.flags 2) (flag_bit v.flags 4) (flag_bit v.flags 3) ≡ ok o)
    (hi : decode_imm o imm ≡ ok imm')
    (hp : decode_pc (flag_bit v.flags 7) (flag_bit v.flags 8) (flag_bit v.flags 9) ≡ ok p)
    (hr : decode_res p (flag_bit v.flags 5) (flag_bit v.flags 6) ≡ ok r)
    (hj : (not (is_jnz p) || is_unconstrained r) ≡ true)
    (ha : decode_ap (flag_bit v.flags 10) (flag_bit v.flags 11) ≡ ok a)
    (hc : decode_opcode (flag_bit v.flags 12) (flag_bit v.flags 13) (flag_bit v.flags 14) ≡ ok c)
    (hb : decode_call_ap c a ≡ ok b) where
  result-flags : instruction_sum (decoded_instruction v o imm' p r b c) ≡ v.flags
  result-flags =
      let f = v.flags in
      rw
        (
          register_code-decode f 0,
          register_code-decode f 1,
          op1_code-decode _ _ _ o ho,
          pc_code-decode _ _ _ p hp,
          res_code-decode p _ _ r hr,
          (ap_code-decode _ _ c a b ha hb).0,
          opcode_code-decode _ _ _ c hc,
        )
        (sum_of_bits f (omega (arith, values-inv n v hv)))

  result-Decoded : Decoded n (decoded_instruction v o imm' p r b c)
  result-Decoded =
      let facts = values-inv n v hv in
      record {
        fits = facts.0;
        flags = result-flags ∙ facts.1;
        off0 = cc (facts.2);
        off1 = cc (facts.3);
        off2 = cc (facts.4);
        imm = imm_same o imm imm' hi;
        res = res_jnz p _ _ r hr hj;
        ap_update = (ap_code-decode _ _ c a b ha hb).1;
        fp_update = same_fp-decode c;
      }

decoded :
    (n : ℕ) (imm : Option ℤ) (i : Instruction) → decode_instruction (pos n) imm ≡ ok i → Decoded n i
unfolding decode_instruction
decoded n imm i h = bind_elim _ _ h λ v hv h1. bind_elim _ _ h1 λ o ho h2.
    bind_elim _ _ h2 λ imm' hi h3. bind_elim _ _ h3 λ p hp h4. bind_elim _ _ h4 λ r hr h5.
      bind_elim _ _ h5 λ _ hj h6. bind_elim _ _ h6 λ a ha h7. bind_elim _ _ h7 λ c hc h8.
        bind_elim _ _ h8 λ b hb h9. subst (Decoded n) (ok-injective h9) (
          result-Decoded n v o imm imm' p r a b c hv ho hi hp hr
            (assert-eq-ok (not (is_jnz p) || is_unconstrained r) _ hj) ha hc hb)

offset_round :
    (m : ℕ)
    → m < 2 ^ 16
    → (in_range (pos m -ℤ pos (2 ^ 15)) ≡ true) × (offset_enc (pos m -ℤ pos (2 ^ 15)) ≡ m)
unfolding ◌-ℤ◌ ◌+ℤ◌
offset_round m h = ground arith

Decoded-IsEncodable : (n : ℕ) (i : Instruction) → Decoded n i → IsEncodable i
Decoded-IsEncodable n i d = record {
  off0 = rw d.off0 (offset_round (n % 2 ^ 16) (omega arith)).0;
  off1 = rw d.off1 (offset_round (n / 2 ^ 16 % 2 ^ 16) (omega arith)).0;
  off2 = rw d.off2 (offset_round (n / 2 ^ 32 % 2 ^ 16) (omega arith)).0;
  imm = d.imm;
  res = d.res;
  ap_update = d.ap_update;
  fp_update = d.fp_update;
}

word-Decoded : (n : ℕ) (i : Instruction) → Decoded n i → word i ≡ n
word-Decoded n i d =
    let e0 : offset_enc i.off0 ≡ n % 2 ^ 16 =
      ap offset_enc d.off0 ∙ (offset_round (n % 2 ^ 16) (omega arith)).1 in
    let e1 : offset_enc i.off1 ≡ n / 2 ^ 16 % 2 ^ 16 =
      ap offset_enc d.off1 ∙ (offset_round (n / 2 ^ 16 % 2 ^ 16) (omega arith)).1 in
    let e2 : offset_enc i.off2 ≡ n / 2 ^ 32 % 2 ^ 16 =
      ap offset_enc d.off2 ∙ (offset_round (n / 2 ^ 32 % 2 ^ 16) (omega arith)).1 in
    rw
      (
        e0,
        e1,
        e2,
        encode_flags-sum,
        d.flags,
        encode_word-sum (n / 2 ^ 48) (n % 2 ^ 16) (n / 2 ^ 16 % 2 ^ 16) (n / 2 ^ 32 % 2 ^ 16)
            (omega arith) (omega arith) (omega arith),
      )
      (omega arith)

-- Whenever a word is decoded, encoding the instruction under a prime above 2 ** 64 gives the same
-- word, followed by the immediate if there is one.
pub encode-decode :
    (n p : ℕ) (imm : Option ℤ) (i : Instruction)
    → decode_instruction (pos n) imm ≡ ok i
    → 2 ^ 64 < p
    → encode_instruction (instruction i) p ≡ ok (with_imm n i.imm p)
encode-decode n p imm i h big =
    let d = decoded n imm i h in
    rw (← word-Decoded n i d) (encode_of_IsEncodable i p (Decoded-IsEncodable n i d) big)
