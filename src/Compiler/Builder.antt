-- ===== src/Compiler/Builder.antt =====
-- Building the instructions of the machine from those of the syntax tree
-- (starkware/cairo/lang/compiler/instruction_builder.py). An error carries which
-- `InstructionBuilderError` it is.
pub mod Parts
pub mod Encodable
pub mod Sugar
pub mod Size
use pip_cairo_lang.Prelude.{ℕ, ◌-◌, ◌^◌, Bool, true, false, ◌&&◌, Option, none, some, if◌then◌else◌}
use pip_cairo_lang.Prelude.Int.{ℤ, pos, negsuc, ◌*ℤ◌, leb_ℤ, ltb_ℤ}
use pip_cairo_lang.Result.{
  BuilderCheck, Result, ok, err, ◌>>=◌, ◌>>◌, attribute_error, type_error, instruction_builder,
  not_implemented_body, immediate_operand, bad_jump_offset, bad_call_offset, ap_with_call,
  ap_with_ret, ap_with_addap, ap_with_dw, dw_not_const, invalid_rhs, bad_operator, bad_operand,
  not_deref, bad_sign, offset_not_const, not_register,
}
use pip_cairo_lang.Instruction.{
  offset_bits, Register, Op1Addr, Res, PcUpdate, ApUpdate, FpUpdate, Opcode, Instruction,
  BytecodeElement, bytecode_data, instruction, size,
}
use pip_cairo_lang.Compiler.Expr.{Operator, Expr, InstructionBody, InstructionAst, is_const_expr}

abbrev pub fail {ℓ} : {A : Type ℓ} → BuilderCheck → Result A
fail c = err (instruction_builder c)

-- `if test: raise`
abbrev pub refuse : Bool → BuilderCheck → Result (Unit {0})
refuse true c = fail c
refuse false c = ok tt

unfoldable pub parse_dereference : Expr → Result Expr
parse_dereference (Expr.deref addr) = ok addr
parse_dereference _ = fail not_deref

unfoldable pub parse_register : Expr → Result Register
parse_register (Expr.reg r) = ok r
parse_register _ = fail not_register

-- 1 for "+" and -1 for "-"
abbrev pub sign_of : Operator → Result ℤ
sign_of Operator.add = ok (pos 1)
sign_of Operator.sub = ok (negsuc 0)
sign_of _ = fail bad_sign

-- -offset_limit <= offset < offset_limit
abbrev pub within_limit : ℤ → Bool
within_limit offset =
    leb_ℤ (negsuc (2 ^ (offset_bits - 1) - 1)) offset && ltb_ℤ offset (pos (2 ^ (offset_bits - 1)))

abbrev pub limited : ℤ → Result ℤ
limited offset = if within_limit offset then ok offset else fail offset_not_const

abbrev pub const_offset : ℤ → Expr → Result ℤ
const_offset sign (Expr.const v) = limited (sign *ℤ v)
const_offset sign _ = fail offset_not_const

unfoldable pub parse_offset : Expr → Result (Expr × ℤ)
parse_offset (Expr.operator a op b) = do
  sign ← sign_of op
  offset ← const_offset sign b
  ok (a, offset)
parse_offset e = ok (e, pos 0)

unfoldable pub parse_register_offset : Expr → Result (Register × ℤ)
parse_register_offset e = do
  (register_expr, offset) ← parse_offset e
  reg ← parse_register register_expr
  ok (reg, offset)

-- The fields of an instruction that describe the value of its res operand.
pub record ResDescription : Type 0 where
  pub off1 : ℤ
  pub off2 : ℤ
  pub imm : Option ℤ
  pub op0_register : Register
  pub op1_addr : Op1Addr
  pub res : Res

-- `Op1Addr.FP if op1_reg is Register.FP else Op1Addr.AP`
abbrev pub op1_addr_of : Register → Op1Addr
op1_addr_of Register.fp = Op1Addr.fp
op1_addr_of Register.ap = Op1Addr.ap

-- an immediate; op0 is not involved and is [fp - 1]
abbrev pub immediate : ℤ → Res → ResDescription
immediate v res = record {
  off1 = negsuc 0;
  off2 = pos 1;
  imm = some v;
  op0_register = Register.fp;
  op1_addr = Op1Addr.imm;
  res = res;
}

-- [[reg + off1] + off2]
unfoldable pub parse_double_deref : Expr → Result ResDescription
parse_double_deref e = do
  (inner, off2) ← parse_offset e
  inner_addr ← parse_dereference inner
  (op0_register, off1) ← parse_register_offset inner_addr
  ok (record {
    off1 = off1;
    off2 = off2;
    imm = none;
    op0_register = op0_register;
    op1_addr = Op1Addr.op0;
    res = Res.op1;
  })

-- [reg + off2]
unfoldable pub parse_single_deref : Expr → Result ResDescription
parse_single_deref e = do
  (op1_reg, off2) ← parse_register_offset e
  ok (record {
    off1 = negsuc 0;
    off2 = off2;
    imm = none;
    op0_register = Register.fp;
    op1_addr = op1_addr_of op1_reg;
    res = Res.op1;
  })

unfoldable pub parse_res_deref : Expr → Result ResDescription
parse_res_deref (Expr.deref e) = parse_double_deref (Expr.deref e)
parse_res_deref (Expr.operator (Expr.deref a) op b) =
    parse_double_deref (Expr.operator (Expr.deref a) op b)
parse_res_deref e = parse_single_deref e

abbrev pub res_of : Operator → Result Res
res_of Operator.add = ok Res.add
res_of Operator.mul = ok Res.mul
res_of _ = fail bad_operator

-- The second operand of an operator: where op1 is, its offset, and its immediate.
unfoldable pub parse_op1 : Expr → Result (Op1Addr × ℤ × Option ℤ)
parse_op1 (Expr.const v) = ok (Op1Addr.imm, pos 1, some v)
parse_op1 (Expr.deref addr) = do
  (op1_reg, off2) ← parse_register_offset addr
  ok (op1_addr_of op1_reg, off2, none)
parse_op1 _ = fail bad_operand

unfoldable pub parse_res_operator : Expr → Operator → Expr → Result ResDescription
parse_res_operator a op b = do
  res ← res_of op
  op0_expr ← parse_dereference a
  (op0_register, off1) ← parse_register_offset op0_expr
  (op1_addr, off2, imm) ← parse_op1 b
  ok (record {
    off1 = off1;
    off2 = off2;
    imm = imm;
    op0_register = op0_register;
    op1_addr = op1_addr;
    res = res;
  })

-- `expr.tag.val`: only a constant has an integer there. Two more classes have an expression there;
-- the code would make it an immediate, which is a TypeError as soon as it is encoded, and here at once.
abbrev pub tag_value : Expr → Result ℤ
tag_value (Expr.const v) = ok v
tag_value (Expr.neg val) = err type_error
tag_value (Expr.parentheses val) = err type_error
tag_value _ = err attribute_error

unfoldable pub parse_res : Expr → Result ResDescription
parse_res (Expr.deref addr) = parse_res_deref addr
parse_res (Expr.const v) = ok (immediate v Res.op1)
parse_res (Expr.operator a op b) = parse_res_operator a op b
parse_res (Expr.symbolic tag) = do v ← tag_value tag; ok (immediate v Res.symbolic)
parse_res _ = fail invalid_rhs

-- `ApUpdate.ADD1 if inc_ap else ApUpdate.REGULAR`
abbrev pub ap_update_of : Bool → ApUpdate
ap_update_of true = ApUpdate.add1
ap_update_of false = ApUpdate.regular

-- `PcUpdate.JUMP_REL if relative else PcUpdate.JUMP`
abbrev pub pc_update_of : Bool → PcUpdate
pc_update_of true = PcUpdate.jump_rel
pc_update_of false = PcUpdate.jump

-- The instruction with a given opcode that compares [reg + off0] with res: the common body of
-- `_build_assert_eq_instruction_inner` and of the four `_build_verify_*_instruction_inner`.
unfoldable pub build_comparison : Opcode → Expr → Expr → Bool → Result Instruction
build_comparison opcode a b inc_ap = do
  dst_expr ← parse_dereference a
  (dst_register, off0) ← parse_register_offset dst_expr
  desc ← parse_res b
  ok (record {
    off0 = off0;
    off1 = desc.off1;
    off2 = desc.off2;
    imm = desc.imm;
    dst_register = dst_register;
    op0_register = desc.op0_register;
    op1_addr = desc.op1_addr;
    res = desc.res;
    pc_update = PcUpdate.regular;
    ap_update = ap_update_of inc_ap;
    fp_update = FpUpdate.regular;
    opcode = opcode;
  })

abbrev is_const : Expr → Bool
is_const (Expr.const _) = true
is_const _ = false

-- `a = x - y` is turned into `x = a + y`, and `a = x / y` into `x = a * y`.
unfoldable pub apply_inverse_syntactic_sugar : Expr → Expr → Result (Expr × Expr)
apply_inverse_syntactic_sugar a (Expr.operator x Operator.sub y) = do
  refuse (is_const y) immediate_operand
  ok (x, Expr.operator a Operator.add y)
apply_inverse_syntactic_sugar a (Expr.operator x Operator.div y) = do
  refuse (is_const y) immediate_operand
  ok (x, Expr.operator a Operator.mul y)
apply_inverse_syntactic_sugar a b = ok (a, b)

unfoldable pub build_assert_eq_inner : Expr → Expr → Bool → Result Instruction
build_assert_eq_inner a b inc_ap = do
  (a', b') ← apply_inverse_syntactic_sugar a b
  build_comparison Opcode.assert_eq a' b' inc_ap

-- The second attempt is made after an `InstructionBuilderError` only, and its own error, whatever
-- it is, gives way to the first one.
abbrev pub or_swapped {ℓ} : {A : Type ℓ} → Result A → Result A → Result A
or_swapped (ok i) second = ok i
or_swapped (err (instruction_builder c)) (ok i) = ok i
or_swapped (err e) second = err e

unfoldable pub build_assert_eq : Expr → Expr → Bool → Result Instruction
build_assert_eq a b inc_ap =
    or_swapped (build_assert_eq_inner a b inc_ap) (build_assert_eq_inner b a inc_ap)

unfoldable pub build_verify : Opcode → Expr → Expr → Bool → Result Instruction
build_verify opcode a b inc_ap =
    or_swapped (build_comparison opcode a b inc_ap) (build_comparison opcode b a inc_ap)

-- dst is not involved and is [fp - 1].
unfoldable pub build_jump : Expr → Bool → Bool → Result Instruction
build_jump val relative inc_ap = do
  desc ← parse_res val
  ok (record {
    off0 = negsuc 0;
    off1 = desc.off1;
    off2 = desc.off2;
    imm = desc.imm;
    dst_register = Register.fp;
    op0_register = desc.op0_register;
    op1_addr = desc.op1_addr;
    res = desc.res;
    pc_update = pc_update_of relative;
    ap_update = ap_update_of inc_ap;
    fp_update = FpUpdate.regular;
    opcode = Opcode.nop;
  })

-- The offset of a conditional jump, or the target of a call: a constant or [reg + off].
unfoldable pub parse_target : Expr → BuilderCheck → Result (Op1Addr × ℤ × Option ℤ)
parse_target (Expr.deref addr) c = do
  (op1_reg, off2) ← parse_register_offset addr
  ok (op1_addr_of op1_reg, off2, none)
parse_target (Expr.const v) c = ok (Op1Addr.imm, pos 1, some v)
parse_target _ c = fail c

unfoldable pub build_jnz : Expr → Expr → Bool → Result Instruction
build_jnz jump_offset condition inc_ap = do
  cond_addr ← parse_dereference condition
  (dst_register, off0) ← parse_register_offset cond_addr
  (op1_addr, off2, imm) ← parse_target jump_offset bad_jump_offset
  ok (record {
    off0 = off0;
    off1 = negsuc 0;
    off2 = off2;
    imm = imm;
    dst_register = dst_register;
    op0_register = Register.fp;
    op1_addr = op1_addr;
    res = Res.unconstrained;
    pc_update = PcUpdate.jnz;
    ap_update = ap_update_of inc_ap;
    fp_update = FpUpdate.regular;
    opcode = Opcode.nop;
  })

-- dst is [ap], for fp, and op0 is [ap + 1], for pc.
unfoldable pub build_call : Expr → Bool → Bool → Result Instruction
build_call val relative inc_ap = do
  (op1_addr, off2, imm) ← parse_target val bad_call_offset
  refuse inc_ap ap_with_call
  ok (record {
    off0 = pos 0;
    off1 = pos 1;
    off2 = off2;
    imm = imm;
    dst_register = Register.ap;
    op0_register = Register.ap;
    op1_addr = op1_addr;
    res = Res.op1;
    pc_update = pc_update_of relative;
    ap_update = ApUpdate.add2;
    fp_update = FpUpdate.ap_plus2;
    opcode = Opcode.call;
  })

-- dst is [fp - 2], the caller's fp, and op1 is [fp - 1], the return address.
unfoldable pub build_ret : Bool → Result Instruction
build_ret inc_ap = do
  refuse inc_ap ap_with_ret
  ok (record {
    off0 = negsuc 1;
    off1 = negsuc 0;
    off2 = negsuc 0;
    imm = none;
    dst_register = Register.fp;
    op0_register = Register.fp;
    op1_addr = Op1Addr.fp;
    res = Res.op1;
    pc_update = PcUpdate.jump;
    ap_update = ApUpdate.regular;
    fp_update = FpUpdate.dst;
    opcode = Opcode.ret;
  })

unfoldable pub build_addap : Expr → Bool → Result Instruction
build_addap e inc_ap = do
  desc ← parse_res e
  refuse inc_ap ap_with_addap
  ok (record {
    off0 = negsuc 0;
    off1 = desc.off1;
    off2 = desc.off2;
    imm = desc.imm;
    dst_register = Register.fp;
    op0_register = desc.op0_register;
    op1_addr = desc.op1_addr;
    res = desc.res;
    pc_update = PcUpdate.regular;
    ap_update = ApUpdate.add;
    fp_update = FpUpdate.regular;
    opcode = Opcode.nop;
  })

abbrev pub word_of : Expr → Result ℤ
word_of (Expr.const v) = ok v
word_of _ = fail dw_not_const

unfoldable pub build_data_word : Expr → Bool → Result BytecodeElement
build_data_word e inc_ap = do refuse inc_ap ap_with_dw; v ← word_of e; ok (bytecode_data v)

abbrev pub as_element : Result Instruction → Result BytecodeElement
as_element m = do i ← m; ok (instruction i)

abbrev pub build_body : InstructionBody → Bool → Result BytecodeElement
build_body (InstructionBody.assert_eq a b) inc_ap = as_element (build_assert_eq a b inc_ap)
build_body (InstructionBody.verify_eq a b) inc_ap =
    as_element (build_verify Opcode.verify_eq a b inc_ap)
build_body (InstructionBody.verify_lt a b) inc_ap =
    as_element (build_verify Opcode.verify_lt a b inc_ap)
build_body (InstructionBody.verify_geq a b) inc_ap =
    as_element (build_verify Opcode.verify_geq a b inc_ap)
build_body (InstructionBody.verify_neq a b) inc_ap =
    as_element (build_verify Opcode.verify_neq a b inc_ap)
build_body (InstructionBody.jump val relative) inc_ap = as_element (build_jump val relative inc_ap)
build_body (InstructionBody.jnz jump_offset condition) inc_ap =
    as_element (build_jnz jump_offset condition inc_ap)
build_body (InstructionBody.call val relative) inc_ap = as_element (build_call val relative inc_ap)
build_body InstructionBody.ret inc_ap = as_element (build_ret inc_ap)
build_body (InstructionBody.add_ap e) inc_ap = as_element (build_addap e inc_ap)
build_body (InstructionBody.define_word e) inc_ap = build_data_word e inc_ap
build_body _ inc_ap = fail not_implemented_body

unfoldable pub build_instruction : InstructionAst → Result BytecodeElement
build_instruction ast = build_body ast.body ast.inc_ap

-- `BytecodeElement.size`
abbrev pub element_size : BytecodeElement → ℕ
element_size (bytecode_data _) = 1
element_size (instruction i) = size i

-- Whether an assertion has the form [reg + off] = const: an `InstructionBuilderError` says no.
abbrev pub caught : Result (Register × ℤ) → Result Bool → Result Bool
caught (ok _) rest = rest
caught (err (instruction_builder _)) rest = ok false
caught (err e) rest = err e

unfoldable pub has_const_form : Expr → Expr → Result Bool
has_const_form a b = caught (parse_dereference a >>= parse_register_offset) (is_const_expr b)

abbrev pub two_or : Bool → Result ℕ → Result ℕ
two_or true built = ok 2
two_or false built = built

abbrev pub early_size : InstructionBody → Result ℕ → Result ℕ
early_size (InstructionBody.jump_to_label _ _) built = ok 2
early_size (InstructionBody.call_label _) built = ok 2
early_size (InstructionBody.assert_eq a b) built = do fits ← has_const_form a b; two_or fits built
early_size _ built = built

unfoldable pub get_instruction_size : InstructionAst → Bool → Result ℕ
get_instruction_size ast allow_auto_deduction =
    let built = build_instruction ast >>= λ e. ok (element_size e) in
    if allow_auto_deduction then early_size ast.body built else built
