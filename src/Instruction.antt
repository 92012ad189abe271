-- ===== src/Instruction.antt =====
-- The Cairo instruction (starkware/cairo/lang/compiler/instruction.py): its enums, the record of
-- its fields, and the split of an encoded word into flags and offsets.
use Prim.Native.Nat.{bit_and}
use pip_cairo_lang.Prelude.{ℕ, ◌+◌, ◌-◌, ◌*◌, ◌^◌, Option, none, some, ltb, if◌then◌else◌}
use pip_cairo_lang.Prelude.Int.{ℤ, pos, negsuc}
use pip_cairo_lang.Prelude.Bits.{shr}
use pip_cairo_lang.Result.{Result, ok, err, assertion, unsupported_instruction}

abbrev pub offset_bits : ℕ
offset_bits = 16

abbrev pub n_flags : ℕ
n_flags = 15

pub data Register : Type 0 where
  ap fp : Register

pub data Op1Addr : Type 0 where
  imm ap fp op0 : Op1Addr

pub data Res : Type 0 where
  op1 add mul unconstrained symbolic : Res

pub data PcUpdate : Type 0 where
  regular jump jump_rel jnz : PcUpdate

pub data ApUpdate : Type 0 where
  regular add add1 add2 : ApUpdate

pub data FpUpdate : Type 0 where
  regular ap_plus2 dst : FpUpdate

pub data Opcode : Type 0 where
  nop assert_eq call ret verify_lt verify_eq verify_geq verify_neq : Opcode

pub record Instruction : Type 0 where
  pub off0 : ℤ
  pub off1 : ℤ
  pub off2 : ℤ
  pub imm : Option ℤ
  pub dst_register : Register
  pub op0_register : Register
  pub op1_addr : Op1Addr
  pub res : Res
  pub pc_update : PcUpdate
  pub ap_update : ApUpdate
  pub fp_update : FpUpdate
  pub opcode : Opcode

-- `Instruction.size`
unfoldable pub size : Instruction → ℕ
size i = elim i.imm [ none ↦ 1 | some _ ↦ 2 ]

-- `BytecodeData` and `Instruction`, the two classes of `BytecodeElement`
pub data BytecodeElement : Type 0 where
  bytecode_data : ℤ → BytecodeElement
  instruction : Instruction → BytecodeElement

pub record Fields : Type 0 where
  pub flags : ℕ
  pub off0 : ℕ
  pub off1 : ℕ
  pub off2 : ℕ

unfoldable pub decode_instruction_values : ℤ → Result Fields
decode_instruction_values (negsuc n) = err (assertion unsupported_instruction)
decode_instruction_values (pos encoded) =
    if ltb encoded (2 ^ (3 * offset_bits + n_flags))
    then ok (record {
      flags = shr encoded (3 * offset_bits);
      off0 = bit_and encoded (2 ^ offset_bits - 1);
      off1 = bit_and (shr encoded offset_bits) (2 ^ offset_bits - 1);
      off2 = bit_and (shr encoded (2 * offset_bits)) (2 ^ offset_bits - 1);
    })
    else err (assertion unsupported_instruction)
