-- ===== src/Vm/ResValue.antt =====
-- The result among the operands of an instruction (`compute_operands` and `compute_res` of
-- starkware/cairo/lang/vm/vm_core.py).
use pip_cairo_lang.Prelude
use pip_cairo_lang.Prelude.{
  ℕ, ◌<◌, ◌≡◌, refl, sym, subst, ◌∙◌, ◌⊎◌, inl, inr, Option, none, some, List, some-injective,
  Option-cases,
}
use pip_cairo_lang.Value.{MaybeRelocatable}
use pip_cairo_lang.Exec.Steps.{Returns, asks-Returns, pure-Returns}
use pip_cairo_lang.MathUtils.{Gcdex, IsBezout}
use pip_cairo_lang.Instruction.{Instruction}
use pip_cairo_lang.Vm.State.{RunContext, Vm, Operands}
use pip_cairo_lang.Vm.Deduction.{Deduced, compute_res}
use pip_cairo_lang.Vm.Deduction.Agrees.{Agrees, deduce_op0-Agrees, deduce_op1-Agrees}
use pip_cairo_lang.Vm.Operands.{or_res, or_compute, deduce_first, deduce_second, compute_operands}
use pip_cairo_lang.Vm.Fills.{
  or_option-Fills, or_read-Fills, deduce_first-Fills, deduce_second-Fills, deduce_memory_cell-Fills,
}
use pip_cairo_lang.Vm.Holds.{moved, ◌>>>◌, deduce_second-known, or_read-known}
use pip_cairo_lang.Vm.Stages.{compute_operands-Stages}

-- What is known of an operand, if anything, is what is taken for it.
known_or_none :
    (o : Option MaybeRelocatable) (k : MaybeRelocatable)
    → ((v : MaybeRelocatable) → o ≡ some v → k ≡ v)
    → (o ≡ none) ⊎ (o ≡ some k)
known_or_none none k h = inl refl
known_or_none (some v) k h = inr (rw (h v refl))

module _ (igcdex : Gcdex) (documented : IsBezout igcdex) (c : RunContext) (positive : 0 < c.prime)
    (i : Instruction) where
  -- The result of the first deduction.
  first_res :
      (dst op0 op1 : Option MaybeRelocatable) (k res : MaybeRelocatable) (d : Deduced) (s t : Vm)
      → s.run_context ≡ c
      → ((op1 ≡ none) ⊎ (op1 ≡ some k))
      → d.1 ≡ some res
      → Returns (deduce_first igcdex i dst op0 op1) s d t
      → (x : MaybeRelocatable) × (d.0 ≡ some x) × Agrees c.prime i.res x k res
  first_res dst (some v) op1 k res d s t context same last h =
      absurd (cc (Prelude.ap (λ (q : Deduced). q.1) (pure-Returns (some v, none) s h).0))
  first_res dst none op1 k res d s t context same last h =
      let e = (asks-Returns _ s h).0 in
      deduce_op0-Agrees igcdex documented c positive i dst op1 k res d same (rw context at e) last

  second_res :
      (dst op0 op1 : Option MaybeRelocatable) (k res : MaybeRelocatable) (d : Deduced) (s t : Vm)
      → s.run_context ≡ c
      → ((op0 ≡ none) ⊎ (op0 ≡ some k))
      → d.1 ≡ some res
      → Returns (deduce_second igcdex i dst op0 op1) s d t
      → (x : MaybeRelocatable) × (d.0 ≡ some x) × Agrees c.prime i.res k x res
  second_res dst op0 (some v) k res d s t context same last h =
      absurd (cc (Prelude.ap (λ (q : Deduced). q.1) (pure-Returns (some v, none) s h).0))
  second_res dst op0 none k res d s t context same last h =
      let e = (asks-Returns _ s h).0 in
      deduce_op1-Agrees igcdex documented c positive i dst op0 k res d same (rw context at e) last

  -- The result, whether it was deduced or is computed.
  any_res :
      (r0 r1 : Option MaybeRelocatable) (op0 op1 res : MaybeRelocatable) (s t : Vm)
      → s.run_context ≡ c
      → ((v : MaybeRelocatable) → r0 ≡ some v → Agrees c.prime i.res op0 op1 v)
      → ((v : MaybeRelocatable) → r1 ≡ some v → Agrees c.prime i.res op0 op1 v)
      → Returns (or_compute (or_res r0 r1) i op0 op1) s (some res) t
      → Agrees c.prime i.res op0 op1 res
  unfolding compute_res
  any_res (some v) r1 op0 op1 res s t context h0 h1 h =
      let same : v ≡ res = some-injective (pure-Returns (some v) s h).0 in h0 res (rw same)
  any_res none (some v) op0 op1 res s t context h0 h1 h =
      let same : v ≡ res = some-injective (pure-Returns (some v) s h).0 in h1 res (rw same)
  any_res none none op0 op1 res s t context h0 h1 h =
      let e = (asks-Returns _ s h).0 in (res, rw context at e, refl)

-- Where the operands of an instruction are found with a result, that result is what the instruction
-- computes from op0 and op1, modulo the prime, also where op0 or op1 was deduced from the result.
pub compute_operands-Agrees :
    (igcdex : Gcdex) (i : Instruction) (s t : Vm) (o : Operands) (addresses : List MaybeRelocatable)
    (res : MaybeRelocatable)
    → IsBezout igcdex
    → 0 < s.run_context.prime
    → Returns (compute_operands igcdex i) s (o, addresses) t
    → o.res ≡ some res
    → Agrees s.run_context.prime i.res o.op0 o.op1 res
compute_operands-Agrees igcdex i s t o addresses res documented positive h found =
    let g = compute_operands-Stages igcdex i s t o addresses h in
    let c = s.run_context in
    let m1 =
      moved _ s (or_option-Fills g.op0_cell _ (deduce_memory_cell-Fills g.op0_addr)) g.op0_rules in
    let m2 =
      m1
      >>> moved _ g.s1 (or_option-Fills g.op1_cell _ (deduce_memory_cell-Fills g.op1_addr))
          g.op1_rules in
    let m3 =
      m2 >>> moved _ g.s2 (deduce_first-Fills igcdex i g.dst g.op0_known g.op1_known) g.first_at in
    let m4 =
      m3 >>> moved _ g.s3 (deduce_second-Fills igcdex i g.dst g.first.0 g.op1_known) g.second_at in
    let m5 = m4 >>> moved _ g.s4 (or_read-Fills g.first.0 g.op0_addr) g.op0_value in
    let m6 = m5 >>> moved _ g.s5 (or_read-Fills g.second.0 g.op1_addr) g.op1_value in
    let taken0 = λ (v : MaybeRelocatable) (e : g.first.0 ≡ some v).
      or_read-known g.first.0 g.op0_addr v g.s4 g.s5 e g.op0_value in
    let taken1 = λ (v : MaybeRelocatable) (e : g.second.0 ≡ some v).
      or_read-known g.second.0 g.op1_addr v g.s5 g.s6 e g.op1_value in
    let known1 = λ (v : MaybeRelocatable) (e : g.op1_known ≡ some v).
      taken1 v
        (deduce_second-known igcdex i g.dst g.first.0 g.op1_known v g.s3 g.s4 e g.second_at) in
    let at_first : (v : MaybeRelocatable)
        → g.first.1 ≡ some v
        → Agrees c.prime i.res g.op0 g.op1 v =
      λ v e.
        let (x, hx, agrees) =
          first_res igcdex documented c positive i g.dst g.op0_known g.op1_known g.op1 v g.first
            g.s2 g.s3 m2.context (known_or_none g.op1_known g.op1 known1) e g.first_at in
        subst (λ (y : MaybeRelocatable). Agrees c.prime i.res y g.op1 v) (sym (taken0 x hx))
          agrees in
    let at_second : (v : MaybeRelocatable)
        → g.second.1 ≡ some v
        → Agrees c.prime i.res g.op0 g.op1 v =
      λ v e.
        let (x, hx, agrees) =
          second_res igcdex documented c positive i g.dst g.first.0 g.op1_known g.op0 v g.second
            g.s3 g.s4 m3.context (known_or_none g.first.0 g.op0 taken0) e g.second_at in
        subst (λ (y : MaybeRelocatable). Agrees c.prime i.res g.op0 y v) (sym (taken1 x hx))
          agrees in
    let same : g.res ≡ some res = sym (Prelude.ap (λ (q : Operands). q.res) g.operands) ∙ found in
    let agrees : Agrees c.prime i.res g.op0 g.op1 res =
      any_res igcdex documented c positive i g.first.1 g.second.1 g.op0 g.op1 res g.s6 g.s7
        m6.context at_first at_second (rw same at g.res_value) in
    subst (λ (q : Operands). Agrees c.prime i.res q.op0 q.op1 res) (sym g.operands) agrees
