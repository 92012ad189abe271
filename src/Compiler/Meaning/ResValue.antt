-- ===== src/Compiler/Meaning/ResValue.antt =====
-- The result of an instruction is the value of the expression that res was built from
-- (`_parse_res` of starkware/cairo/lang/compiler/instruction_builder.py, `compute_res` of
-- starkware/cairo/lang/vm/vm_core.py).
use pip_cairo_lang.Prelude.{ℕ, ◌<◌, ◌≡◌, sym, ap, ◌∙◌, Option, some-injective, List}
use pip_cairo_lang.Prelude.Int.{ℤ, pos, ◌*ℤ◌, ◌%ℤ◌}
use pip_cairo_lang.Value.{MaybeRelocatable, int, relocatable}
use pip_cairo_lang.Result.{ok, bind_elim, ok-injective}
use pip_cairo_lang.Relocatable.{add, mod_prime}
use pip_cairo_lang.Instruction.{Op1Addr, Res, Instruction}
use pip_cairo_lang.Memory.{MemoryDict}
use pip_cairo_lang.Vm.State.{RunContext, Operands, Vm, memory_of}
use pip_cairo_lang.Vm.Deduction.{symbolic_res}
use pip_cairo_lang.Vm.Deduction.Agrees.{Agrees, mod_prime-mod_prime}
use pip_cairo_lang.Vm.Settled.{Settled}
use pip_cairo_lang.Compiler.Expr.{Operator, Expr}
use pip_cairo_lang.Compiler.Builder.{
  ResDescription, op1_addr_of, parse_dereference, parse_offset, parse_register_offset,
  parse_double_deref, parse_single_deref, parse_res_deref, res_of, parse_op1, parse_res_operator,
  tag_value, parse_res,
}
use pip_cairo_lang.Compiler.Meaning.{times, value}
use pip_cairo_lang.Compiler.Meaning.Arithmetic.{add-mod_prime, times-mod_prime}
use pip_cairo_lang.Compiler.Meaning.Offsets.{value_operator}
use pip_cairo_lang.Compiler.Meaning.Operand.{
  Loaded, op0-value, op1_register-value, op1_double-value, op1_imm,
}

-- The fields of an instruction that describe res.
abbrev pub res_part : Instruction → ResDescription
res_part i = record {
  off1 = i.off1;
  off2 = i.off2;
  imm = i.imm;
  op0_register = i.op0_register;
  op1_addr = i.op1_addr;
  res = i.res;
}

pub parse_dereference-deref : (e addr : Expr) → parse_dereference e ≡ ok addr → e ≡ Expr.deref addr
unfolding parse_dereference
parse_dereference-deref (Expr.deref a) addr h = ap Expr.deref (ok-injective h)
parse_dereference-deref _ addr h = absurd (cc h)

-- The same for a product, which only integers have.
product_reduced :
    (p : ℕ) (x y r : MaybeRelocatable)
    → 0 < p
    → Agrees p Res.mul x y r
    → (u : MaybeRelocatable) × (times (mod_prime x p) (mod_prime y p) ≡ ok u)
      × (mod_prime u p ≡ mod_prime r p)
unfolding mod_prime
product_reduced p (int a) (int b) r h (q, computed, same) =
    let result : int (pos ((a *ℤ b) %ℤ p)) ≡ q = some-injective (ok-injective computed) in
    let (u, product, reduced) = times-mod_prime p h a b in
    (
      u,
      product,
      reduced
          ∙ (sym (mod_prime-mod_prime (int (a *ℤ b)) p h)
              ∙ (ap (λ (x : MaybeRelocatable). mod_prime x p) result ∙ same)),
    )
product_reduced p (int a) (relocatable b) r h (q, computed, same) = absurd (cc computed)
product_reduced p (relocatable a) y r h (q, computed, same) = absurd (cc computed)

module _ (c : RunContext) (i : Instruction) (o : Operands) (addresses : List MaybeRelocatable)
    (s : Vm) (positive : 0 < c.prime) (settled : Settled c i o addresses s)
    (loaded : Loaded c i (memory_of s)) (r : MaybeRelocatable)
    (agrees : Agrees c.prime i.res o.op0 o.op1 r) where
  abbrev m : MemoryDict
  m = memory_of s

  -- where res is op1
  only_op1 : i.res ≡ Res.op1 → mod_prime o.op1 c.prime ≡ mod_prime r c.prime
  only_op1 e =
      let (q, computed, same) = agrees in
      let first : o.op1 ≡ q = some-injective (ok-injective (rw e at computed)) in rw first same

  double_deref-value :
      (e : Expr)
      → parse_double_deref e ≡ ok (res_part i)
      → value c m (Expr.deref e) ≡ ok (mod_prime r c.prime)
  unfolding parse_double_deref
  double_deref-value e h = bind_elim (parse_offset e) _ h λ q hq h1.
      bind_elim (parse_dereference q.0) _ h1 λ inner hi h2.
        bind_elim (parse_register_offset inner) _ h2 λ v hv h3.
          let d = ok-injective h3 in
          let off2 : q.1 ≡ i.off2 = ap (λ (d : ResDescription). d.off2) d in
          let off1 : v.1 ≡ i.off1 = ap (λ (d : ResDescription). d.off1) d in
          let reg : v.0 ≡ i.op0_register = ap (λ (d : ResDescription). d.op0_register) d in
          let place : Op1Addr.op0 ≡ i.op1_addr = ap (λ (d : ResDescription). d.op1_addr) d in
          let res : Res.op1 ≡ i.res = ap (λ (d : ResDescription). d.res) d in
          let base : value c m q.0 ≡ ok (mod_prime o.op0 c.prime) =
            rw (parse_dereference-deref q.0 inner hi)
              (op0-value c i o addresses s positive settled inner (rw (← off1, ← reg) hv)) in
          op1_double-value c i o addresses s positive settled e q.0 (sym place) (rw (← off2) hq)
            base
          ∙ ap ok (only_op1 (sym res))

  single_deref-value :
      (e : Expr)
      → parse_single_deref e ≡ ok (res_part i)
      → value c m (Expr.deref e) ≡ ok (mod_prime r c.prime)
  unfolding parse_single_deref
  single_deref-value e h = bind_elim (parse_register_offset e) _ h λ v hv h1.
      let d = ok-injective h1 in
      let off2 : v.1 ≡ i.off2 = ap (λ (d : ResDescription). d.off2) d in
      let place : op1_addr_of v.0 ≡ i.op1_addr = ap (λ (d : ResDescription). d.op1_addr) d in
      let res : Res.op1 ≡ i.res = ap (λ (d : ResDescription). d.res) d in
      op1_register-value c i o addresses s positive settled e v.0 (sym place) (rw (← off2) hv)
      ∙ ap ok (only_op1 (sym res))

  deref-value :
      (e : Expr)
      → parse_res_deref e ≡ ok (res_part i)
      → value c m (Expr.deref e) ≡ ok (mod_prime r c.prime)
  unfolding parse_res_deref
  deref-value (Expr.deref e) h = double_deref-value (Expr.deref e) h
  deref-value (Expr.operator (Expr.deref a) op b) h =
      double_deref-value (Expr.operator (Expr.deref a) op b) h
  deref-value e h = single_deref-value e h

  -- The second operand of an operator.
  op1-value :
      (b : Expr)
      → parse_op1 b ≡ ok (i.op1_addr, i.off2, i.imm)
      → value c m b ≡ ok (mod_prime o.op1 c.prime)
  unfolding parse_op1
  op1-value (Expr.const v) h =
      let d = ok-injective h in
      op1_imm c i o addresses s positive settled v loaded
        (sym (ap (λ (d : Op1Addr × ℤ × Option ℤ). d.0) d))
        (sym (ap (λ (d : Op1Addr × ℤ × Option ℤ). d.2) d))
  op1-value (Expr.deref a) h = bind_elim (parse_register_offset a) _ h λ v hv h1.
      let d = ok-injective h1 in
      let off2 : v.1 ≡ i.off2 = ap (λ (d : Op1Addr × ℤ × Option ℤ). d.1) d in
      op1_register-value c i o addresses s positive settled a v.0
        (sym (ap (λ (d : Op1Addr × ℤ × Option ℤ). d.0) d)) (rw (← off2) hv)
  op1-value _ h = absurd (cc h)

  sum-value :
      (a b : Expr)
      → i.res ≡ Res.add
      → value c m a ≡ ok (mod_prime o.op0 c.prime)
      → value c m b ≡ ok (mod_prime o.op1 c.prime)
      → value c m (Expr.operator a Operator.add b) ≡ ok (mod_prime r c.prime)
  sum-value a b e ha hb =
      let (q, computed, same) = agrees in
      bind_elim (add o.op0 o.op1) _ (rw e at computed) λ t ht h1.
        let result : mod_prime t c.prime ≡ q = some-injective (ok-injective h1) in
        let (u, sum, reduced) = add-mod_prime c.prime positive o.op0 o.op1 t ht in
        value_operator c m a Operator.add b _ _ u ha hb sum
        ∙ ap ok (
            reduced
            ∙ (sym (mod_prime-mod_prime t c.prime positive)
                ∙ (ap (λ (x : MaybeRelocatable). mod_prime x c.prime) result ∙ same)))

  product-value :
      (a b : Expr)
      → i.res ≡ Res.mul
      → value c m a ≡ ok (mod_prime o.op0 c.prime)
      → value c m b ≡ ok (mod_prime o.op1 c.prime)
      → value c m (Expr.operator a Operator.mul b) ≡ ok (mod_prime r c.prime)
  product-value a b e ha hb =
      let product : Agrees c.prime Res.mul o.op0 o.op1 r = rw e at agrees in
      let (u, found, reduced) = product_reduced c.prime o.op0 o.op1 r positive product in
      value_operator c m a Operator.mul b _ _ u ha hb found ∙ ap ok reduced

  by_operator :
      (op : Operator) (a b : Expr)
      → res_of op ≡ ok i.res
      → value c m a ≡ ok (mod_prime o.op0 c.prime)
      → value c m b ≡ ok (mod_prime o.op1 c.prime)
      → value c m (Expr.operator a op b) ≡ ok (mod_prime r c.prime)
  by_operator Operator.add a b e ha hb = sum-value a b (sym (ok-injective e)) ha hb
  by_operator Operator.mul a b e ha hb = product-value a b (sym (ok-injective e)) ha hb
  by_operator _ a b e ha hb = absurd (cc e)

  operator-value :
      (a : Expr) (op : Operator) (b : Expr)
      → parse_res_operator a op b ≡ ok (res_part i)
      → value c m (Expr.operator a op b) ≡ ok (mod_prime r c.prime)
  unfolding parse_res_operator
  operator-value a op b h = bind_elim (res_of op) _ h λ k hk h1.
      bind_elim (parse_dereference a) _ h1 λ inner hi h2.
        bind_elim (parse_register_offset inner) _ h2 λ v hv h3.
          bind_elim (parse_op1 b) _ h3 λ q hq h4.
            let d = ok-injective h4 in
            let off1 : v.1 ≡ i.off1 = ap (λ (d : ResDescription). d.off1) d in
            let reg : v.0 ≡ i.op0_register = ap (λ (d : ResDescription). d.op0_register) d in
            let res : k ≡ i.res = ap (λ (d : ResDescription). d.res) d in
            let rest : q ≡ (i.op1_addr, i.off2, i.imm) =
              ap (λ (d : ResDescription). (d.op1_addr, d.off2, d.imm)) d in
            let left : value c m a ≡ ok (mod_prime o.op0 c.prime) =
              rw (parse_dereference-deref a inner hi)
                (op0-value c i o addresses s positive settled inner (rw (← off1, ← reg) hv)) in
            let right = op1-value b (hq ∙ ap ok rest) in
            by_operator op a b (hk ∙ ap ok res) left right

  symbolic-value :
      (tag : Expr) → i.res ≡ Res.symbolic → value c m (Expr.symbolic tag) ≡ ok (mod_prime r c.prime)
  unfolding value
  symbolic-value tag e =
      let (q, computed, same) = agrees in
      let first : int symbolic_res ≡ q = some-injective (ok-injective (rw e at computed)) in
      rw first (ap ok same)

  -- The value of an expression that res was built from is the result of the instruction, modulo the
  -- prime.
  pub parse_res-value :
      (e : Expr) → parse_res e ≡ ok (res_part i) → value c m e ≡ ok (mod_prime r c.prime)
  unfolding parse_res
  parse_res-value (Expr.deref a) h = deref-value a h
  parse_res-value (Expr.operator a op b) h = operator-value a op b h
  parse_res-value (Expr.const v) h =
      let d = ok-injective h in
      op1_imm c i o addresses s positive settled v loaded
        (sym (ap (λ (d : ResDescription). d.op1_addr) d))
        (sym (ap (λ (d : ResDescription). d.imm) d))
      ∙ ap ok (only_op1 (sym (ap (λ (d : ResDescription). d.res) d)))
  parse_res-value (Expr.symbolic tag) h = bind_elim (tag_value tag) _ h λ v hv h1.
      let d = ok-injective h1 in symbolic-value tag (sym (ap (λ (d : ResDescription). d.res) d))
  parse_res-value _ h = absurd (cc h)
