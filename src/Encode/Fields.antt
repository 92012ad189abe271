-- ===== src/Encode/Fields.antt =====
-- The parts of an encoded word (starkware/cairo/lang/compiler/encode.py), decoded one by one.
use pip_cairo_lang.Prelude.{
  ℕ, ◌+◌, ◌*◌, ◌/◌, ◌%◌, ◌^◌, ◌<◌, ◌≡◌, refl, true, ◌||◌, not, Option, none, some, arith, ltb,
  lt→ltb,
}
use pip_cairo_lang.Prelude.Int.{ℤ, pos}
use pip_cairo_lang.Prelude.Bits.{bit_and-mask}
use pip_cairo_lang.Result.{ok}
use pip_cairo_lang.Instruction.{
  Register, Op1Addr, Res, PcUpdate, ApUpdate, FpUpdate, Opcode, decode_instruction_values,
}
use pip_cairo_lang.Encode.Flags.{
  is_imm, has_imm, is_jnz, is_unconstrained, is_add2, is_call, same, same_fp, fp_update_of,
}
use pip_cairo_lang.Encode.Encoder.{encode_word}
use pip_cairo_lang.Encode.Decoder.{
  flag_bit, decode_register, decode_op1, decode_imm, decode_pc, decode_res, decode_ap,
  decode_opcode, decode_call_ap, decode_fp,
}
use pip_cairo_lang.Encode.Layout.{
  flags_sum, FitsFields, encode_word-sum, flag_bit_lem, register_code, op1_code, res_code, pc_code,
  ap_code, opcode_code,
}

-- The seven fields of the flags, read bit by bit.
module _ (d b o r p a c : ℕ) (fits : FitsFields d b o r p a c) where
  abbrev pub f : ℕ
  f = flags_sum d b o r p a c

  pub register_bits : (flag_bit f 0 ≡ d) × (flag_bit f 1 ≡ b)
  register_bits = omega (arith, flag_bit_lem)

  pub op1_bits : (flag_bit f 2 ≡ o % 2) × (flag_bit f 4 ≡ o / 4 % 2) × (flag_bit f 3 ≡ o / 2 % 2)
  op1_bits = omega (arith, flag_bit_lem)

  pub res_bits : (flag_bit f 5 ≡ r % 2) × (flag_bit f 6 ≡ r / 2 % 2)
  res_bits = omega (arith, flag_bit_lem)

  pub pc_bits : (flag_bit f 7 ≡ p % 2) × (flag_bit f 8 ≡ p / 2 % 2) × (flag_bit f 9 ≡ p / 4 % 2)
  pc_bits = omega (arith, flag_bit_lem)

  pub ap_bits : (flag_bit f 10 ≡ a % 2) × (flag_bit f 11 ≡ a / 2 % 2)
  ap_bits = omega (arith, flag_bit_lem)

  pub opcode_bits :
      (flag_bit f 12 ≡ c % 2) × (flag_bit f 13 ≡ c / 2 % 2) × (flag_bit f 14 ≡ c / 4 % 2)
  opcode_bits = omega (arith, flag_bit_lem)

-- Each dictionary of the decoder inverts the one of the encoder.
pub decode_register-code : (r : Register) → decode_register (register_code r) ≡ r
unfolding decode_register
decode_register-code Register.ap = refl
decode_register-code Register.fp = refl

pub decode_op1-code :
    (o : Op1Addr) → decode_op1 (op1_code o % 2) (op1_code o / 4 % 2) (op1_code o / 2 % 2) ≡ ok o
unfolding decode_op1
decode_op1-code Op1Addr.imm = refl
decode_op1-code _ = refl

pub decode_pc-code :
    (p : PcUpdate) → decode_pc (pc_code p % 2) (pc_code p / 2 % 2) (pc_code p / 4 % 2) ≡ ok p
unfolding decode_pc
decode_pc-code PcUpdate.jump = refl
decode_pc-code _ = refl

pub decode_opcode-code :
    (c : Opcode)
    → decode_opcode (opcode_code c % 2) (opcode_code c / 2 % 2) (opcode_code c / 4 % 2) ≡ ok c
unfolding decode_opcode
decode_opcode-code Opcode.call = refl
decode_opcode-code _ = refl

-- The two Res members without a flag are told apart by the jump.
pub decode_res-code :
    (p : PcUpdate) (r : Res)
    → same (is_unconstrained r) (is_jnz p) ≡ true
    → decode_res p (res_code r % 2) (res_code r / 2 % 2) ≡ ok r
unfolding decode_res
decode_res-code PcUpdate.jnz Res.op1 h = cc
decode_res-code PcUpdate.jnz Res.unconstrained h = refl
decode_res-code PcUpdate.jnz _ h = cc
decode_res-code _ Res.op1 h = refl
decode_res-code _ Res.unconstrained h = cc
decode_res-code _ _ h = refl

pub res_jnz_check :
    (p : PcUpdate) (r : Res)
    → same (is_unconstrained r) (is_jnz p) ≡ true
    → (not (is_jnz p) || is_unconstrained r) ≡ true
res_jnz_check p r h = ground arith

-- So are the two updates of ap without a flag, by the opcode.
abbrev pub read_ap : ApUpdate → ApUpdate
read_ap ApUpdate.add2 = ApUpdate.regular
read_ap a = a

pub decode_ap-code : (a : ApUpdate) → decode_ap (ap_code a % 2) (ap_code a / 2 % 2) ≡ ok (read_ap a)
unfolding decode_ap
decode_ap-code ApUpdate.add2 = refl
decode_ap-code _ = refl

pub decode_call_ap-read :
    (c : Opcode) (a : ApUpdate)
    → same (is_add2 a) (is_call c) ≡ true
    → decode_call_ap c (read_ap a) ≡ ok a
unfolding decode_call_ap
decode_call_ap-read Opcode.call ApUpdate.add2 h = refl
decode_call_ap-read Opcode.call _ h = cc
decode_call_ap-read _ ApUpdate.add2 h = cc
decode_call_ap-read _ _ h = refl

pub decode_fp-opcode :
    (x : FpUpdate) (c : Opcode) → same_fp x (fp_update_of c) ≡ true → decode_fp c ≡ x
decode_fp-opcode FpUpdate.regular Opcode.call h = cc
decode_fp-opcode FpUpdate.regular Opcode.ret h = cc
decode_fp-opcode FpUpdate.regular _ h = refl
decode_fp-opcode FpUpdate.ap_plus2 Opcode.call h = refl
decode_fp-opcode FpUpdate.ap_plus2 _ h = cc
decode_fp-opcode FpUpdate.dst Opcode.ret h = refl
decode_fp-opcode FpUpdate.dst _ h = cc

pub decode_imm-same :
    (o : Op1Addr) (imm : Option ℤ)
    → same (has_imm imm) (is_imm o) ≡ true
    → decode_imm o imm ≡ ok imm
unfolding decode_imm
decode_imm-same Op1Addr.imm none h = cc
decode_imm-same Op1Addr.imm (some v) h = refl
decode_imm-same _ none h = refl
decode_imm-same _ (some v) h = cc

pub values_of_word :
    (f a b c : ℕ)
    → f < 2 ^ 15
    → a < 2 ^ 16
    → b < 2 ^ 16
    → c < 2 ^ 16
    → decode_instruction_values (pos (encode_word f a b c))
      ≡ ok (record { flags = f; off0 = a; off1 = b; off2 = c })
unfolding decode_instruction_values
values_of_word f a b c hf ha hb hc =
    let w = f * 2 ^ 48 + c * 2 ^ 32 + b * 2 ^ 16 + a in
    let below : ltb w (2 ^ 63) ≡ true = lt→ltb w (2 ^ 63) (omega arith) in
    let ef : w / 2 ^ 48 ≡ f = omega arith in
    let ea : w % 2 ^ 16 ≡ a = omega arith in
    let eb : w / 2 ^ 16 % 2 ^ 16 ≡ b = omega arith in
    let ec : w / 2 ^ 32 % 2 ^ 16 ≡ c = omega arith in
    rw (
      encode_word-sum f a b c ha hb hc,
      below,
      bit_and-mask 16 w,
      bit_and-mask 16 (w / 2 ^ 16),
      bit_and-mask 16 (w / 2 ^ 32),
      ef,
      ea,
      eb,
      ec,
    )
