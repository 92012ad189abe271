-- ===== src/Encode/Encoder.antt =====
-- `encode_instruction` of starkware/cairo/lang/compiler/encode.py.
use Prim.Native.Nat.{bit_or}
use pip_cairo_lang.Prelude.{
  ℕ, ◌+◌, ◌-◌, ◌*◌, ◌^◌, Bool, ◌&&◌, Option, none, some, List, [], ◌∷◌, ltb,
}
use pip_cairo_lang.Prelude.Int.{ℤ, pos, negsuc, pos_part, ◌+ℤ◌, ◌%ℤ◌, leb_ℤ, ltb_ℤ}
use pip_cairo_lang.Prelude.Bits.{shl}
use pip_cairo_lang.Result.{
  Result, ok, ◌>>◌, assert, prime_size, offset_range, imm_presence, res_jnz, ap_call, fp_opcode,
  encoding_range,
}
use pip_cairo_lang.Instruction.{
  offset_bits, Instruction, BytecodeElement, bytecode_data, instruction,
}
use pip_cairo_lang.Encode.Flags.{
  dst_reg_bit, op0_reg_bit, register_flag, op1_flag, res_flag, pc_flag, ap_flag, fp_update_of,
  opcode_flag, is_imm, is_unconstrained, is_jnz, is_add2, is_call, has_imm, same, same_fp,
}

-- -(2 ** 15) <= off < 2 ** 15
abbrev pub in_range : ℤ → Bool
in_range off =
    leb_ℤ (negsuc (2 ^ (offset_bits - 1) - 1)) off && ltb_ℤ off (pos (2 ^ (offset_bits - 1)))

-- Past its range check an offset is encoded as a number that is not negative.
abbrev pub offset_enc : ℤ → ℕ
offset_enc off = pos_part (off +ℤ pos (2 ^ (offset_bits - 1)))

unfoldable pub encode_flags : Instruction → ℕ
encode_flags i =
    let f0 = bit_or 0 (register_flag i.dst_register dst_reg_bit) in
    let f1 = bit_or f0 (register_flag i.op0_register op0_reg_bit) in
    let f2 = bit_or f1 (op1_flag i.op1_addr) in
    let f3 = bit_or f2 (res_flag i.res) in
    let f4 = bit_or f3 (pc_flag i.pc_update) in
    let f5 = bit_or f4 (ap_flag i.ap_update) in bit_or f5 (opcode_flag i.opcode)

-- `encoding`, from the flags and the three encoded offsets
unfoldable pub encode_word : ℕ → ℕ → ℕ → ℕ → ℕ
encode_word flags off0_enc off1_enc off2_enc =
    bit_or
      (bit_or (bit_or (shl flags (3 * offset_bits)) (shl off2_enc (2 * offset_bits)))
        (shl off1_enc offset_bits))
      off0_enc

abbrev pub with_imm : ℕ → Option ℤ → ℕ → List ℤ
with_imm encoding none prime = pos encoding ∷ []
with_imm encoding (some imm) prime = pos encoding ∷ pos (imm %ℤ prime) ∷ []

unfoldable pub encode_instruction : BytecodeElement → ℕ → Result (List ℤ)
encode_instruction (bytecode_data d) prime = ok (pos (d %ℤ prime) ∷ [])
encode_instruction (instruction inst) prime = do
  assert (ltb (2 ^ (3 * offset_bits + 16)) prime) prime_size
  assert (in_range inst.off0) offset_range
  assert (in_range inst.off1) offset_range
  assert (in_range inst.off2) offset_range
  assert (same (has_imm inst.imm) (is_imm inst.op1_addr)) imm_presence
  assert (same (is_unconstrained inst.res) (is_jnz inst.pc_update)) res_jnz
  assert (same (is_add2 inst.ap_update) (is_call inst.opcode)) ap_call
  assert (same_fp inst.fp_update (fp_update_of inst.opcode)) fp_opcode
  let encoding =
      encode_word (encode_flags inst) (offset_enc inst.off0) (offset_enc inst.off1)
        (offset_enc inst.off2)
  assert (ltb encoding prime) encoding_range
  ok (with_imm encoding inst.imm prime)
