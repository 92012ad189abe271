-- ===== src/Encode/Layout.antt =====
-- The layout of an encoded word (starkware/cairo/lang/compiler/encode.py): the chains of `|` are
-- sums of fields that do not overlap, and `>>` and `&` read the fields back.
use Prim.Native.Nat.{bit_or}
use pip_cairo_lang.Prelude.{ℕ, ◌+◌, ◌*◌, ◌/◌, ◌%◌, ◌^◌, ◌<◌, ◌≡◌, arith}
use pip_cairo_lang.Prelude.Bits.{zero-bit_or, bit_or_low, bit_or_high, bit_and-one}
use pip_cairo_lang.Instruction.{Register, Op1Addr, Res, PcUpdate, ApUpdate, Opcode, Instruction}
use pip_cairo_lang.Encode.Flags.{register_flag, op1_flag, res_flag, pc_flag, ap_flag, opcode_flag}
use pip_cairo_lang.Encode.Encoder.{encode_flags, encode_word}
use pip_cairo_lang.Encode.Decoder.{flag_bit}

-- The number that each member has in its own field.
abbrev pub register_code : Register → ℕ
register_code Register.ap = 0
register_code Register.fp = 1

abbrev pub op1_code : Op1Addr → ℕ
op1_code Op1Addr.imm = 1
op1_code Op1Addr.ap = 4
op1_code Op1Addr.fp = 2
op1_code Op1Addr.op0 = 0

abbrev pub res_code : Res → ℕ
res_code Res.op1 = 0
res_code Res.add = 1
res_code Res.mul = 2
res_code Res.unconstrained = 0
res_code Res.symbolic = 3

abbrev pub pc_code : PcUpdate → ℕ
pc_code PcUpdate.regular = 0
pc_code PcUpdate.jump = 1
pc_code PcUpdate.jump_rel = 2
pc_code PcUpdate.jnz = 4

abbrev pub ap_code : ApUpdate → ℕ
ap_code ApUpdate.regular = 0
ap_code ApUpdate.add = 1
ap_code ApUpdate.add1 = 2
ap_code ApUpdate.add2 = 0

abbrev pub opcode_code : Opcode → ℕ
opcode_code Opcode.nop = 0
opcode_code Opcode.assert_eq = 4
opcode_code Opcode.call = 1
opcode_code Opcode.ret = 2
opcode_code Opcode.verify_lt = 6
opcode_code Opcode.verify_eq = 3
opcode_code Opcode.verify_geq = 5
opcode_code Opcode.verify_neq = 7

register_field :
    (r : Register)
    → (register_flag r 0 ≡ register_code r)
      × (register_flag r 1 ≡ register_code r * 2 ^ 1)
      × (register_code r < 2)
register_field Register.ap = omega arith
register_field Register.fp = omega arith

op1_field : (o : Op1Addr) → (op1_flag o ≡ op1_code o * 2 ^ 2) × (op1_code o < 8)
op1_field Op1Addr.imm = omega arith
op1_field _ = omega arith

res_field : (r : Res) → (res_flag r ≡ res_code r * 2 ^ 5) × (res_code r < 4)
res_field Res.add = omega arith
res_field _ = omega arith

pc_field : (p : PcUpdate) → (pc_flag p ≡ pc_code p * 2 ^ 7) × (pc_code p < 8)
pc_field PcUpdate.jump = omega arith
pc_field _ = omega arith

ap_field : (a : ApUpdate) → (ap_flag a ≡ ap_code a * 2 ^ 10) × (ap_code a < 4)
ap_field ApUpdate.add = omega arith
ap_field _ = omega arith

opcode_field : (c : Opcode) → (opcode_flag c ≡ opcode_code c * 2 ^ 12) × (opcode_code c < 8)
opcode_field Opcode.call = omega arith
opcode_field _ = omega arith

-- The seven fields, side by side.
abbrev pub flags_sum : ℕ → ℕ → ℕ → ℕ → ℕ → ℕ → ℕ → ℕ
flags_sum d b o r p a c =
    d + b * 2 ^ 1 + o * 2 ^ 2 + r * 2 ^ 5 + p * 2 ^ 7 + a * 2 ^ 10 + c * 2 ^ 12

pub record FitsFields (d b o r p a c : ℕ) : Type 0 where
  pub dst_register : d < 2
  pub op0_register : b < 2
  pub op1_addr : o < 8
  pub res : r < 4
  pub pc_update : p < 8
  pub ap_update : a < 4
  pub opcode : c < 8

or_fields :
    (d b o r p a c : ℕ)
    → FitsFields d b o r p a c
    → bit_or
        (bit_or
          (bit_or
            (bit_or (bit_or (bit_or (bit_or 0 d) (b * 2 ^ 1)) (o * 2 ^ 2)) (r * 2 ^ 5))
            (p * 2 ^ 7))
          (a * 2 ^ 10))
        (c * 2 ^ 12)
      ≡ flags_sum d b o r p a c
or_fields d b o r p a c h = rw (
  zero-bit_or d,
  bit_or_low 1 b d (omega arith),
  bit_or_low 2 o (d + b * 2 ^ 1) (omega arith),
  bit_or_low 5 r (d + b * 2 ^ 1 + o * 2 ^ 2) (omega arith),
  bit_or_low 7 p (d + b * 2 ^ 1 + o * 2 ^ 2 + r * 2 ^ 5) (omega arith),
  bit_or_low 10 a (d + b * 2 ^ 1 + o * 2 ^ 2 + r * 2 ^ 5 + p * 2 ^ 7) (omega arith),
  bit_or_low 12 c (d + b * 2 ^ 1 + o * 2 ^ 2 + r * 2 ^ 5 + p * 2 ^ 7 + a * 2 ^ 10) (omega arith),
)

abbrev pub instruction_sum : Instruction → ℕ
instruction_sum i =
    flags_sum (register_code i.dst_register) (register_code i.op0_register) (op1_code i.op1_addr)
      (res_code i.res) (pc_code i.pc_update) (ap_code i.ap_update) (opcode_code i.opcode)

abbrev pub FitsInstruction : Instruction → Type 0
FitsInstruction i =
    FitsFields (register_code i.dst_register) (register_code i.op0_register) (op1_code i.op1_addr)
      (res_code i.res) (pc_code i.pc_update) (ap_code i.ap_update) (opcode_code i.opcode)

pub fits_instruction : (i : Instruction) → FitsInstruction i
fits_instruction i = record {
  dst_register = (register_field i.dst_register).2;
  op0_register = (register_field i.op0_register).2;
  op1_addr = (op1_field i.op1_addr).1;
  res = (res_field i.res).1;
  pc_update = (pc_field i.pc_update).1;
  ap_update = (ap_field i.ap_update).1;
  opcode = (opcode_field i.opcode).1;
}

pub encode_flags-sum : (i : Instruction) → encode_flags i ≡ instruction_sum i
unfolding encode_flags
encode_flags-sum i =
    rw
      (
        (register_field i.dst_register).0,
        (register_field i.op0_register).1,
        (op1_field i.op1_addr).0,
        (res_field i.res).0,
        (pc_field i.pc_update).0,
        (ap_field i.ap_update).0,
        (opcode_field i.opcode).0,
      )
      (or_fields _ _ _ _ _ _ _ (fits_instruction i))

pub encode_word-sum :
    (f a b c : ℕ)
    → a < 2 ^ 16
    → b < 2 ^ 16
    → c < 2 ^ 16
    → encode_word f a b c ≡ f * 2 ^ 48 + c * 2 ^ 32 + b * 2 ^ 16 + a
unfolding encode_word
encode_word-sum f a b c ha hb hc =
    let s2 : f * 2 ^ 48 + c * 2 ^ 32 ≡ (f * 2 ^ 16 + c) * 2 ^ 32 = omega arith in
    let s1 : (f * 2 ^ 16 + c) * 2 ^ 32 + b * 2 ^ 16 ≡ ((f * 2 ^ 16 + c) * 2 ^ 16 + b) * 2 ^ 16 =
      omega arith in
    rw
      (
        bit_or_high 48 f (c * 2 ^ 32) (omega arith),
        s2,
        bit_or_high 32 (f * 2 ^ 16 + c) (b * 2 ^ 16) (omega arith),
        s1,
        bit_or_high 16 ((f * 2 ^ 16 + c) * 2 ^ 16 + b) a ha,
      )
      (omega arith)

pub flag_bit_lem : (f k : ℕ) → flag_bit f k ≡ f / 2 ^ k % 2
unfolding flag_bit
flag_bit_lem f k = bit_and-one (f / 2 ^ k)
