-- ===== src/Encode/Decoder.antt =====
-- `decode_instruction` and `is_call_instruction` of starkware/cairo/lang/compiler/encode.py.
use Prim.Native.Nat.{bit_and}
use pip_cairo_lang.Prelude.{
  ℕ, zero, suc, ◌-◌, ◌^◌, Bool, true, false, ◌&&◌, ◌||◌, not, Option, none, if◌then◌else◌,
}
use pip_cairo_lang.Prelude.Int.{ℤ, pos, ◌-ℤ◌}
use pip_cairo_lang.Prelude.Bits.{shr}
use pip_cairo_lang.Result.{
  Result, ok, err, ◌>>=◌, ◌>>◌, assert, key_error, res_jnz, missing_imm, call_ap_update,
}
use pip_cairo_lang.Instruction.{
  offset_bits, Register, Op1Addr, Res, PcUpdate, ApUpdate, FpUpdate, Opcode, Instruction,
  decode_instruction_values,
}
use pip_cairo_lang.Encode.Flags.{
  dst_reg_bit, op0_reg_bit, op1_imm_bit, op1_fp_bit, op1_ap_bit, res_add_bit, res_mul_bit,
  pc_jump_abs_bit, pc_jump_rel_bit, pc_jnz_bit, ap_add_bit, ap_add1_bit, opcode_call_bit,
  opcode_ret_bit, opcode_assert_eq_bit, is_unconstrained, is_jnz, is_add2, is_call, has_imm,
  same_fp,
}

-- (flags >> k) & 1
unfoldable pub flag_bit : ℕ → ℕ → ℕ
flag_bit flags k = bit_and (shr flags k) 1

-- The dictionaries of `decode_instruction`; a key that is not there raises KeyError.
unfoldable pub decode_register : ℕ → Register
decode_register zero = Register.ap
decode_register (suc _) = Register.fp

unfoldable pub decode_op1 : ℕ → ℕ → ℕ → Result Op1Addr
decode_op1 (suc zero) zero zero = ok Op1Addr.imm
decode_op1 zero (suc zero) zero = ok Op1Addr.ap
decode_op1 zero zero (suc zero) = ok Op1Addr.fp
decode_op1 zero zero zero = ok Op1Addr.op0
decode_op1 _ _ _ = err key_error

unfoldable pub decode_pc : ℕ → ℕ → ℕ → Result PcUpdate
decode_pc (suc zero) zero zero = ok PcUpdate.jump
decode_pc zero (suc zero) zero = ok PcUpdate.jump_rel
decode_pc zero zero (suc zero) = ok PcUpdate.jnz
decode_pc zero zero zero = ok PcUpdate.regular
decode_pc _ _ _ = err key_error

unfoldable pub decode_res : PcUpdate → ℕ → ℕ → Result Res
decode_res pc_update (suc zero) zero = ok Res.add
decode_res pc_update zero (suc zero) = ok Res.mul
decode_res pc_update zero zero = ok (if is_jnz pc_update then Res.unconstrained else Res.op1)
decode_res pc_update (suc zero) (suc zero) = ok Res.symbolic
decode_res _ _ _ = err key_error

unfoldable pub decode_ap : ℕ → ℕ → Result ApUpdate
decode_ap (suc zero) zero = ok ApUpdate.add
decode_ap zero (suc zero) = ok ApUpdate.add1
decode_ap zero zero = ok ApUpdate.regular
decode_ap _ _ = err key_error

unfoldable pub decode_opcode : ℕ → ℕ → ℕ → Result Opcode
decode_opcode (suc zero) zero zero = ok Opcode.call
decode_opcode zero (suc zero) zero = ok Opcode.ret
decode_opcode zero zero (suc zero) = ok Opcode.assert_eq
decode_opcode zero zero zero = ok Opcode.nop
decode_opcode zero (suc zero) (suc zero) = ok Opcode.verify_lt
decode_opcode (suc zero) zero (suc zero) = ok Opcode.verify_geq
decode_opcode (suc zero) (suc zero) zero = ok Opcode.verify_eq
decode_opcode (suc zero) (suc zero) (suc zero) = ok Opcode.verify_neq
decode_opcode _ _ _ = err key_error

-- An immediate is wanted exactly in immediate mode, and is dropped otherwise.
unfoldable pub decode_imm : Op1Addr → Option ℤ → Result (Option ℤ)
decode_imm Op1Addr.imm imm = do assert (has_imm imm) missing_imm; ok imm
decode_imm _ imm = ok none

-- CALL wants no update of ap among the flags, and stands for ADD2.
unfoldable pub decode_call_ap : Opcode → ApUpdate → Result ApUpdate
decode_call_ap Opcode.call ApUpdate.regular = ok ApUpdate.add2
decode_call_ap Opcode.call _ = assert false call_ap_update >> ok ApUpdate.add2
decode_call_ap _ ap_update = ok ap_update

abbrev pub decode_fp : Opcode → FpUpdate
decode_fp Opcode.call = FpUpdate.ap_plus2
decode_fp Opcode.ret = FpUpdate.dst
decode_fp _ = FpUpdate.regular

unfoldable pub decode_instruction : ℤ → Option ℤ → Result Instruction
decode_instruction encoding imm = do
  v ← decode_instruction_values encoding
  let dst_register = decode_register (flag_bit v.flags dst_reg_bit)
  let op0_register = decode_register (flag_bit v.flags op0_reg_bit)
  op1_addr ←
      decode_op1 (flag_bit v.flags op1_imm_bit) (flag_bit v.flags op1_ap_bit)
        (flag_bit v.flags op1_fp_bit)
  imm' ← decode_imm op1_addr imm
  pc_update ←
      decode_pc (flag_bit v.flags pc_jump_abs_bit) (flag_bit v.flags pc_jump_rel_bit)
        (flag_bit v.flags pc_jnz_bit)
  res ← decode_res pc_update (flag_bit v.flags res_add_bit) (flag_bit v.flags res_mul_bit)
  assert (not (is_jnz pc_update) || is_unconstrained res) res_jnz
  ap_flags ← decode_ap (flag_bit v.flags ap_add_bit) (flag_bit v.flags ap_add1_bit)
  opcode ←
      decode_opcode (flag_bit v.flags opcode_call_bit) (flag_bit v.flags opcode_ret_bit)
        (flag_bit v.flags opcode_assert_eq_bit)
  ap_update ← decode_call_ap opcode ap_flags
  ok (record {
    off0 = pos v.off0 -ℤ pos (2 ^ (offset_bits - 1));
    off1 = pos v.off1 -ℤ pos (2 ^ (offset_bits - 1));
    off2 = pos v.off2 -ℤ pos (2 ^ (offset_bits - 1));
    imm = imm';
    dst_register = dst_register;
    op0_register = op0_register;
    op1_addr = op1_addr;
    res = res;
    pc_update = pc_update;
    ap_update = ap_update;
    fp_update = decode_fp opcode;
    opcode = opcode;
  })

-- the tests of `is_call_instruction` on a decoded instruction
abbrev pub is_jump : PcUpdate → Bool
is_jump PcUpdate.jump = true
is_jump PcUpdate.jump_rel = true
is_jump _ = false

abbrev pub is_op1 : Res → Bool
is_op1 Res.op1 = true
is_op1 _ = false

abbrev pub looks_like_call : Instruction → Bool
looks_like_call i =
    is_op1 i.res
    && is_jump i.pc_update
    && is_add2 i.ap_update
    && same_fp i.fp_update FpUpdate.ap_plus2
    && is_call i.opcode

unfoldable pub is_call_instruction : ℤ → Option ℤ → Bool
is_call_instruction encoded imm = elim (decode_instruction encoded imm) [
  | ok i ↦ looks_like_call i
  | err _ ↦ false
]
