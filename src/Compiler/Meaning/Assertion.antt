-- ===== src/Compiler/Meaning/Assertion.antt =====
-- An assertion that has been built and has run holds (`_build_assert_eq_instruction` of
-- starkware/cairo/lang/compiler/instruction_builder.py, `run_instruction` of
-- starkware/cairo/lang/vm/vm_core.py).
use pip_cairo_lang.Prelude.{
  ◌<◌, ◌≡◌, refl, sym, ap, subst, ◌∙◌, ◌⊎◌, inl, inr, Bool, some, [], Option-cases,
}
use pip_cairo_lang.Prelude.Int.{pos, ◌%ℤ◌}
use pip_cairo_lang.Value.{MaybeRelocatable, int}
use pip_cairo_lang.Result.{ok, bind_elim, ok-injective}
use pip_cairo_lang.Exec.Steps.{Returns}
use pip_cairo_lang.Relocatable.{mod_prime}
use pip_cairo_lang.MathUtils.{Gcdex, IsBezout}
use pip_cairo_lang.Instruction.{Opcode, Instruction}
use pip_cairo_lang.Memory.{MemoryDict}
use pip_cairo_lang.Memory.WriteOnce.{Writes, Writes-keeps}
use pip_cairo_lang.Vm.State.{RunContext, Operands, Vm, memory_of}
use pip_cairo_lang.Vm.ResValue.{compute_operands-Agrees}
use pip_cairo_lang.Vm.Settled.{compute_operands-Settled}
use pip_cairo_lang.Vm.Run.{assertion_of, opcode_assertions, run_instruction}
use pip_cairo_lang.Vm.Run.Success.{run_instruction-Ran}
use pip_cairo_lang.Vm.Run.Call.{must_equal-same}
use pip_cairo_lang.Compiler.Expr.{Expr}
use pip_cairo_lang.Compiler.Builder.{
  parse_dereference, parse_register_offset, parse_res, build_comparison, build_assert_eq,
}
use pip_cairo_lang.Compiler.Builder.Encodable.{or_swapped_elim}
use pip_cairo_lang.Compiler.Builder.Sugar.{Turned, build_assert_eq_inner-Compared}
use pip_cairo_lang.Compiler.Meaning.{value}
use pip_cairo_lang.Compiler.Meaning.Operand.{Loaded, dst-value}
use pip_cairo_lang.Compiler.Meaning.ResValue.{res_part, parse_dereference-deref, parse_res-value}

-- The fields of an instruction that compares, and the expressions that they were built from.
record Built (opcode : Opcode) (a b : Expr) (i : Instruction) : Type 0 where
  addr : Expr
  left : a ≡ Expr.deref addr
  dst : parse_register_offset addr ≡ ok (i.dst_register, i.off0)
  res : parse_res b ≡ ok (res_part i)
  same : i.opcode ≡ opcode

build_comparison-Built :
    (opcode : Opcode) (a b : Expr) (inc_ap : Bool) (i : Instruction)
    → build_comparison opcode a b inc_ap ≡ ok i
    → Built opcode a b i
unfolding build_comparison
build_comparison-Built opcode a b inc_ap i h = bind_elim (parse_dereference a) _ h λ addr ha h1.
    bind_elim (parse_register_offset addr) _ h1 λ v hv h2. bind_elim (parse_res b) _ h2 λ d hd h3.
      rw (← ok-injective h3) (record {
        addr = addr;
        left = parse_dereference-deref a addr ha;
        dst = hv;
        res = hd;
        same = refl;
      })

-- What is loaded stays loaded.
pub Loaded-Writes :
    (c : RunContext) (i : Instruction) (m n : MemoryDict) → Writes m n → Loaded c i m → Loaded c i n
Loaded-Writes c i m n w h v addr imm at =
    Writes-keeps addr (int (pos (v %ℤ c.prime))) w (h v addr imm at)

asserted_res :
    (i : Instruction) (o : Operands) (c : RunContext) (opcode : Opcode)
    → opcode ≡ Opcode.assert_eq
    → assertion_of opcode i o c ≡ ok tt
    → o.res ≡ some o.dst
asserted_res i o c opcode same h = elim (Option-cases o.res) [
  | inl e ↦ absurd (cc (rw (same, e) at h))
  | inr (r, e) ↦ e ∙ ap some (sym (must_equal-same o.dst r _ (rw (same, e) at h)))
]

-- Both sides of a comparison, or of the form that it is turned into, have one value.
pub record Asserted (c : RunContext) (m : MemoryDict) (a b : Expr) : Type 0 where
  pub left : Expr
  pub right : Expr
  pub turned : Turned a b left right ⊎ Turned b a left right
  pub common : MaybeRelocatable
  pub left_value : value c m left ≡ ok common
  pub right_value : value c m right ≡ ok common

module _ (igcdex : Gcdex) (documented : IsBezout igcdex) (i : Instruction) (s t : Vm)
    (positive : 0 < s.run_context.prime) (bare : (memory_of s).relocation_rules ≡ [])
    (loaded : Loaded s.run_context i (memory_of s))
    (run : Returns (run_instruction igcdex i) s tt t) where
  abbrev c : RunContext
  c = s.run_context

  -- The value of the expression that res was built from, afterwards.
  pub res_holds :
      (e : Expr) (r : MaybeRelocatable)
      → parse_res e ≡ ok (res_part i)
      → (run_instruction-Ran igcdex i s t run).operands.res ≡ some r
      → value s.run_context (memory_of t) e ≡ ok (mod_prime r s.run_context.prime)
  res_holds e r parsed res =
      let ran = run_instruction-Ran igcdex i s t run in
      let o = ran.operands in
      let settled =
        compute_operands-Settled igcdex i s ran.found o ran.addresses bare ran.computed in
      let agrees =
        compute_operands-Agrees igcdex i s ran.found o ran.addresses r documented positive
          ran.computed res in
      let here = Loaded-Writes c i (memory_of s) (memory_of t) ran.memory loaded in
      let loaded' = subst (Loaded c i) ran.memory_found here in
      rw ran.memory_found
        (parse_res-value c i o ran.addresses ran.found positive settled loaded' r agrees e parsed)

  comparison_holds :
      (a b : Expr) (inc_ap : Bool)
      → build_comparison Opcode.assert_eq a b inc_ap ≡ ok i
      → (v : MaybeRelocatable) × (value c (memory_of t) a ≡ ok v) × (value c (memory_of t) b ≡ ok v)
  unfolding opcode_assertions
  comparison_holds a b inc_ap h =
      let built = build_comparison-Built Opcode.assert_eq a b inc_ap i h in
      let ran = run_instruction-Ran igcdex i s t run in
      let o = ran.operands in
      let settled =
        compute_operands-Settled igcdex i s ran.found o ran.addresses bare ran.computed in
      let res = asserted_res i o c i.opcode built.same ran.asserted in
      let left = dst-value c i o ran.addresses ran.found positive settled built.addr built.dst in
      (
        mod_prime o.dst c.prime,
        rw (ran.memory_found, built.left) left,
        res_holds b o.dst built.res res,
      )

  -- Where an assertion `a = b` is built into an instruction, the memory has no relocation rules and
  -- has the immediate of the instruction behind it, and the instruction runs to its end, the two
  -- sides have the same value in the field afterwards, in the registers before it: as they are, or,
  -- where the side that is not compared directly is a difference or a quotient, with the subtrahend
  -- added to, or the divisor multiplied with, the other side.
  pub run-Asserted :
      (a b : Expr) (inc_ap : Bool)
      → build_assert_eq a b inc_ap ≡ ok i
      → Asserted s.run_context (memory_of t) a b
  unfolding build_assert_eq
  run-Asserted a b inc_ap h =
      or_swapped_elim _ _ h
        (λ first.
          let q = build_assert_eq_inner-Compared a b inc_ap i first in
          let (v, left, right) = comparison_holds q.left q.right inc_ap q.built in
          record {
            left = q.left;
            right = q.right;
            turned = inl q.turned;
            common = v;
            left_value = left;
            right_value = right;
          })
        (λ second.
          let q = build_assert_eq_inner-Compared b a inc_ap i second in
          let (v, left, right) = comparison_holds q.left q.right inc_ap q.built in
          record {
            left = q.left;
            right = q.right;
            turned = inr q.turned;
            common = v;
            left_value = left;
            right_value = right;
          })
