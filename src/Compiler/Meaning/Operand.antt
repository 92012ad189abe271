-- ===== src/Compiler/Meaning/Operand.antt =====
-- The operands that an instruction addresses are those of the expressions that it was built from
-- (`_parse_res` of starkware/cairo/lang/compiler/instruction_builder.py, `RunContext` of
-- starkware/cairo/lang/vm/vm_core.py).
use pip_cairo_lang.Prelude.{◌<◌, ◌≡◌, refl, sym, ap, ◌∙◌, Option, none, some, some-injective, List}
use pip_cairo_lang.Prelude.Int.{ℤ, pos, ◌%ℤ◌, eqb_ℤ, eqb_ℤ_iff}
use pip_cairo_lang.Value.{MaybeRelocatable, int}
use pip_cairo_lang.Result.{ok, ◌>>=◌, assert-then, bind_elim, ok-injective}
use pip_cairo_lang.Relocatable.{mod_prime}
use pip_cairo_lang.Instruction.{Register, Op1Addr, Instruction}
use pip_cairo_lang.Memory.{MemoryDict}
use pip_cairo_lang.Memory.Dict.{lookup}
use pip_cairo_lang.Vm.State.{RunContext, Operands, Vm, memory_of}
use pip_cairo_lang.Vm.Addresses.{
  displace, compute_dst_addr, compute_op0_addr, compute_op1_addr, op1_base,
}
use pip_cairo_lang.Vm.Deduction.Agrees.{mod_prime-mod_prime}
use pip_cairo_lang.Vm.Settled.{Settled}
use pip_cairo_lang.Compiler.Expr.{Expr}
use pip_cairo_lang.Compiler.Builder.{op1_addr_of, parse_offset, parse_register_offset}
use pip_cairo_lang.Compiler.Meaning.{value}
use pip_cairo_lang.Compiler.Meaning.Offsets.{parse_offset-value, parse_register_offset-value}

-- The immediate of an instruction stands after it in the program, modulo the prime.
abbrev pub Loaded : RunContext → Instruction → MemoryDict → Type 0
Loaded c i m =
    (v : ℤ) (addr : MaybeRelocatable)
    → i.imm ≡ some v
    → displace c.pc (pos 1) c.prime ≡ ok addr
    → lookup addr m.cells ≡ some (int (pos (v %ℤ c.prime)))

-- The address of op1, for each place that it can have.
abbrev Op1At :
    RunContext → Instruction → Option MaybeRelocatable → MaybeRelocatable → Op1Addr → Type 0
Op1At c i cell a Op1Addr.imm = displace c.pc (pos 1) c.prime ≡ ok a
Op1At c i cell a Op1Addr.ap = displace c.ap i.off2 c.prime ≡ ok a
Op1At c i cell a Op1Addr.fp = displace c.fp i.off2 c.prime ≡ ok a
Op1At c i cell a Op1Addr.op0 =
    (base : MaybeRelocatable) × (cell ≡ some base) × (displace base i.off2 c.prime ≡ ok a)

op1_base-Op1At :
    (c : RunContext) (i : Instruction) (cell : Option MaybeRelocatable) (a : MaybeRelocatable)
    (k : Op1Addr)
    → (op1_base c i k cell >>= λ base. displace base i.off2 c.prime) ≡ ok a
    → Op1At c i cell a k
op1_base-Op1At c i cell a Op1Addr.imm h =
    bind_elim (op1_base c i Op1Addr.imm cell) _ h λ base hb h1.
      let (one, e) = assert-then (eqb_ℤ i.off2 (pos 1)) _ _ hb in
      let off : i.off2 ≡ pos 1 = (eqb_ℤ_iff i.off2 (pos 1)).0 one in rw (← off, ok-injective e) h1
op1_base-Op1At c i cell a Op1Addr.ap h = h
op1_base-Op1At c i cell a Op1Addr.fp h = h
op1_base-Op1At c i none a Op1Addr.op0 h = absurd (cc h)
op1_base-Op1At c i (some base) a Op1Addr.op0 h = (base, refl, h)

pub value_deref :
    (c : RunContext) (m : MemoryDict) (a : Expr) (addr v : MaybeRelocatable)
    → value c m a ≡ ok addr
    → lookup addr m.cells ≡ some v
    → value c m (Expr.deref a) ≡ ok (mod_prime v c.prime)
unfolding value
value_deref c m a addr v ha hv = rw (ha, hv) refl

module _ (c : RunContext) (i : Instruction) (o : Operands) (addresses : List MaybeRelocatable)
    (s : Vm) (positive : 0 < c.prime) (settled : Settled c i o addresses s) where
  abbrev m : MemoryDict
  m = memory_of s

  pub dst-value :
      (a : Expr)
      → parse_register_offset a ≡ ok (i.dst_register, i.off0)
      → value c m (Expr.deref a) ≡ ok (mod_prime o.dst c.prime)
  unfolding compute_dst_addr
  dst-value a h =
      value_deref c m a settled.dst_addr o.dst
        (parse_register_offset-value c m a i.dst_register i.off0 settled.dst_addr positive h
          settled.dst_at)
        settled.dst

  pub op0-value :
      (a : Expr)
      → parse_register_offset a ≡ ok (i.op0_register, i.off1)
      → value c m (Expr.deref a) ≡ ok (mod_prime o.op0 c.prime)
  unfolding compute_op0_addr
  op0-value a h =
      value_deref c m a settled.op0_addr o.op0
        (parse_register_offset-value c m a i.op0_register i.off1 settled.op0_addr positive h
          settled.op0_at)
        settled.op0

  op1_place : (k : Op1Addr) → i.op1_addr ≡ k → Op1At c i settled.op1_at.0 settled.op1_addr k
  unfolding compute_op1_addr
  op1_place k e = op1_base-Op1At c i settled.op1_at.0 settled.op1_addr k (rw e at settled.op1_at.1)

  -- [reg + off]
  pub op1_register-value :
      (a : Expr) (r : Register)
      → i.op1_addr ≡ op1_addr_of r
      → parse_register_offset a ≡ ok (r, i.off2)
      → value c m (Expr.deref a) ≡ ok (mod_prime o.op1 c.prime)
  op1_register-value a Register.ap e h =
      value_deref c m a settled.op1_addr o.op1
        (parse_register_offset-value c m a Register.ap i.off2 settled.op1_addr positive h
          (op1_place Op1Addr.ap e))
        settled.op1
  op1_register-value a Register.fp e h =
      value_deref c m a settled.op1_addr o.op1
        (parse_register_offset-value c m a Register.fp i.off2 settled.op1_addr positive h
          (op1_place Op1Addr.fp e))
        settled.op1

  -- [[reg + off1] + off2]
  pub op1_double-value :
      (e inner : Expr)
      → i.op1_addr ≡ Op1Addr.op0
      → parse_offset e ≡ ok (inner, i.off2)
      → value c m inner ≡ ok (mod_prime o.op0 c.prime)
      → value c m (Expr.deref e) ≡ ok (mod_prime o.op1 c.prime)
  op1_double-value e inner place h hv =
      let (base, cell, at) = op1_place Op1Addr.op0 place in
      let same : o.op0 ≡ base = settled.op1_at.2 base cell in
      value_deref c m e settled.op1_addr o.op1
        (parse_offset-value c m e inner i.off2 base settled.op1_addr positive h (rw same at hv) at)
        settled.op1

  -- an immediate
  pub op1_imm :
      (v : ℤ)
      → Loaded c i m
      → i.op1_addr ≡ Op1Addr.imm
      → i.imm ≡ some v
      → value c m (Expr.const v) ≡ ok (mod_prime o.op1 c.prime)
  unfolding value mod_prime
  op1_imm v loaded place imm =
      let there = loaded v settled.op1_addr imm (op1_place Op1Addr.imm place) in
      let same : int (pos (v %ℤ c.prime)) ≡ o.op1 = some-injective (sym there ∙ settled.op1) in
      ap ok (
        sym (mod_prime-mod_prime (int v) c.prime positive)
        ∙ ap (λ (x : MaybeRelocatable). mod_prime x c.prime) same)
