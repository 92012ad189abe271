-- ===== src/Encode/Flags.antt =====
-- starkware/cairo/lang/compiler/encode.py: the flag of each member of the instruction's enums.
use Prim.Native.Nat.{bit_or}
use pip_cairo_lang.Prelude.{ℕ, Bool, true, false, not, Option, none, some}
use pip_cairo_lang.Prelude.Int.{ℤ}
use pip_cairo_lang.Prelude.Bits.{shl}
use pip_cairo_lang.Instruction.{Register, Op1Addr, Res, PcUpdate, ApUpdate, FpUpdate, Opcode}

-- The positions of the flags, DST_REG_BIT to OPCODE_ASSERT_EQ_BIT.
abbrev pub dst_reg_bit : ℕ
dst_reg_bit = 0

abbrev pub op0_reg_bit : ℕ
op0_reg_bit = 1

abbrev pub op1_imm_bit : ℕ
op1_imm_bit = 2

abbrev pub op1_fp_bit : ℕ
op1_fp_bit = 3

abbrev pub op1_ap_bit : ℕ
op1_ap_bit = 4

abbrev pub res_add_bit : ℕ
res_add_bit = 5

abbrev pub res_mul_bit : ℕ
res_mul_bit = 6

abbrev pub pc_jump_abs_bit : ℕ
pc_jump_abs_bit = 7

abbrev pub pc_jump_rel_bit : ℕ
pc_jump_rel_bit = 8

abbrev pub pc_jnz_bit : ℕ
pc_jnz_bit = 9

abbrev pub ap_add_bit : ℕ
ap_add_bit = 10

abbrev pub ap_add1_bit : ℕ
ap_add1_bit = 11

abbrev pub opcode_call_bit : ℕ
opcode_call_bit = 12

abbrev pub opcode_ret_bit : ℕ
opcode_ret_bit = 13

abbrev pub opcode_assert_eq_bit : ℕ
opcode_assert_eq_bit = 14

-- The dictionaries of `encode_instruction`, one for each enum.
abbrev pub register_flag : Register → ℕ → ℕ
register_flag Register.fp bit = shl 1 bit
register_flag Register.ap bit = 0

abbrev pub op1_flag : Op1Addr → ℕ
op1_flag Op1Addr.imm = shl 1 op1_imm_bit
op1_flag Op1Addr.ap = shl 1 op1_ap_bit
op1_flag Op1Addr.fp = shl 1 op1_fp_bit
op1_flag Op1Addr.op0 = 0

abbrev pub res_flag : Res → ℕ
res_flag Res.add = shl 1 res_add_bit
res_flag Res.mul = shl 1 res_mul_bit
res_flag Res.op1 = 0
res_flag Res.unconstrained = 0
res_flag Res.symbolic = bit_or (shl 1 res_add_bit) (shl 1 res_mul_bit)

abbrev pub pc_flag : PcUpdate → ℕ
pc_flag PcUpdate.jump = shl 1 pc_jump_abs_bit
pc_flag PcUpdate.jump_rel = shl 1 pc_jump_rel_bit
pc_flag PcUpdate.jnz = shl 1 pc_jnz_bit
pc_flag PcUpdate.regular = 0

abbrev pub ap_flag : ApUpdate → ℕ
ap_flag ApUpdate.add = shl 1 ap_add_bit
ap_flag ApUpdate.add1 = shl 1 ap_add1_bit
ap_flag ApUpdate.add2 = 0
ap_flag ApUpdate.regular = 0

abbrev pub fp_update_of : Opcode → FpUpdate
fp_update_of Opcode.nop = FpUpdate.regular
fp_update_of Opcode.call = FpUpdate.ap_plus2
fp_update_of Opcode.ret = FpUpdate.dst
fp_update_of Opcode.assert_eq = FpUpdate.regular
fp_update_of Opcode.verify_lt = FpUpdate.regular
fp_update_of Opcode.verify_neq = FpUpdate.regular
fp_update_of Opcode.verify_eq = FpUpdate.regular
fp_update_of Opcode.verify_geq = FpUpdate.regular

abbrev pub opcode_flag : Opcode → ℕ
opcode_flag Opcode.call = shl 1 opcode_call_bit
opcode_flag Opcode.ret = shl 1 opcode_ret_bit
opcode_flag Opcode.assert_eq = shl 1 opcode_assert_eq_bit
opcode_flag Opcode.verify_eq = bit_or (shl 1 opcode_call_bit) (shl 1 opcode_ret_bit)
opcode_flag Opcode.verify_neq =
    bit_or (bit_or (shl 1 opcode_assert_eq_bit) (shl 1 opcode_call_bit)) (shl 1 opcode_ret_bit)
opcode_flag Opcode.verify_lt = bit_or (shl 1 opcode_ret_bit) (shl 1 opcode_assert_eq_bit)
opcode_flag Opcode.verify_geq = bit_or (shl 1 opcode_assert_eq_bit) (shl 1 opcode_call_bit)
opcode_flag Opcode.nop = 0

-- The tests `x is Enum.MEMBER`, and `==` of two Booleans and of two members.
abbrev pub is_imm : Op1Addr → Bool
is_imm Op1Addr.imm = true
is_imm _ = false

abbrev pub is_unconstrained : Res → Bool
is_unconstrained Res.unconstrained = true
is_unconstrained _ = false

abbrev pub is_jnz : PcUpdate → Bool
is_jnz PcUpdate.jnz = true
is_jnz _ = false

abbrev pub is_add2 : ApUpdate → Bool
is_add2 ApUpdate.add2 = true
is_add2 _ = false

abbrev pub is_call : Opcode → Bool
is_call Opcode.call = true
is_call _ = false

abbrev pub has_imm : Option ℤ → Bool
has_imm none = false
has_imm (some _) = true

abbrev pub same : Bool → Bool → Bool
same true b = b
same false b = not b

abbrev pub same_fp : FpUpdate → FpUpdate → Bool
same_fp FpUpdate.regular FpUpdate.regular = true
same_fp FpUpdate.ap_plus2 FpUpdate.ap_plus2 = true
same_fp FpUpdate.dst FpUpdate.dst = true
same_fp _ _ = false
