-- ===== src/Compiler/Meaning/Jump.antt =====
-- Where a jump goes, and by how much ap is raised (`_build_jump_instruction` and
-- `_build_addap_instruction` of starkware/cairo/lang/compiler/instruction_builder.py,
-- `update_registers` of starkware/cairo/lang/vm/vm_core.py).
use pip_cairo_lang.Prelude.{
  ◌<◌, ◌≡◌, refl, sym, ◌∙◌, Bool, true, false, some, [], inl, inr, Option-cases,
}
use pip_cairo_lang.Value.{MaybeRelocatable, int, relocatable}
use pip_cairo_lang.Result.{ok, bind_elim, ok-injective}
use pip_cairo_lang.Exec.Steps.{Returns}
use pip_cairo_lang.Relocatable.{add, mod_prime}
use pip_cairo_lang.MathUtils.{Gcdex, IsBezout}
use pip_cairo_lang.Instruction.{ApUpdate, Instruction}
use pip_cairo_lang.Vm.State.{RunContext, Operands, Vm, memory_of}
use pip_cairo_lang.Vm.Registers.{next_pc, next_ap}
use pip_cairo_lang.Vm.Run.{run_instruction}
use pip_cairo_lang.Vm.Run.Success.{run_instruction-Ran}
use pip_cairo_lang.Compiler.Expr.{Expr}
use pip_cairo_lang.Compiler.Builder.{parse_res, pc_update_of, refuse, build_jump, build_addap}
use pip_cairo_lang.Compiler.Meaning.{value}
use pip_cairo_lang.Compiler.Meaning.Arithmetic.{add-mod_prime}
use pip_cairo_lang.Compiler.Meaning.Operand.{Loaded}
use pip_cairo_lang.Compiler.Meaning.ResValue.{res_part}
use pip_cairo_lang.Compiler.Meaning.Assertion.{res_holds}

build_jump-parts :
    (val : Expr) (relative inc_ap : Bool) (i : Instruction)
    → build_jump val relative inc_ap ≡ ok i
    → (parse_res val ≡ ok (res_part i)) × (i.pc_update ≡ pc_update_of relative)
unfolding build_jump
build_jump-parts val relative inc_ap i h =
    bind_elim (parse_res val) _ h λ d hd h1. rw (← ok-injective h1) (hd, refl)

build_addap-parts :
    (e : Expr) (inc_ap : Bool) (i : Instruction)
    → build_addap e inc_ap ≡ ok i
    → (parse_res e ≡ ok (res_part i)) × (i.ap_update ≡ ApUpdate.add)
unfolding build_addap
build_addap-parts e inc_ap i h =
    bind_elim (parse_res e) _ h
      λ d hd h1. bind_elim (refuse inc_ap _) _ h1 λ u hu h2. rw (← ok-injective h2) (hd, refl)

-- The sum of a register and a value, modulo the prime.
abbrev pub IsSum : RunContext → MaybeRelocatable → MaybeRelocatable → MaybeRelocatable → Type 0
IsSum c x v target = (q : MaybeRelocatable) × (add x v ≡ ok q) × (target ≡ mod_prime q c.prime)

-- The target of a jump to `v`, or by `v`.
abbrev pub IsTarget : Bool → RunContext → MaybeRelocatable → MaybeRelocatable → Type 0
IsTarget true c v pc = IsSum c (mod_prime c.pc c.prime) v pc
IsTarget false c v pc = pc ≡ v

-- A jump that finds its target has a result, and goes there.
jump_res :
    (relative : Bool) (c : RunContext) (i : Instruction) (o : Operands) (v pc : MaybeRelocatable)
    → 0 < c.prime
    → i.pc_update ≡ pc_update_of relative
    → next_pc c i o ≡ ok v
    → pc ≡ mod_prime v c.prime
    → (r : MaybeRelocatable) × (o.res ≡ some r) × IsTarget relative c (mod_prime r c.prime) pc
unfolding next_pc
jump_res false c i o v pc positive kind h e = elim (Option-cases o.res) [
  | inl missing ↦ absurd (cc (rw (kind, missing) at h))
  | inr (r, found) ↦
      let same : r ≡ v = ok-injective (rw (kind, found) at h) in (r, found, rw (e, same) refl)
]
jump_res true c i o v pc positive kind h e = elim (Option-cases o.res) [
  | inl missing ↦ absurd (cc (rw (kind, missing) at h))
  | inr (int n, found) ↦
      let sum : add c.pc (int n) ≡ ok v = rw (kind, found) at h in
      let (q, sum', same) = add-mod_prime c.prime positive c.pc (int n) v sum in
      (int n, found, (q, sum', e ∙ sym same))
  | inr (relocatable a, found) ↦ absurd (cc (rw (kind, found) at h))
]

added_res :
    (c : RunContext) (i : Instruction) (o : Operands) (v new_ap : MaybeRelocatable)
    → i.ap_update ≡ ApUpdate.add
    → next_ap c i o ≡ ok v
    → new_ap ≡ mod_prime v c.prime
    → (r : MaybeRelocatable) × (o.res ≡ some r) × IsSum c c.ap (mod_prime r c.prime) new_ap
unfolding next_ap
added_res c i o v new_ap kind h e = elim (Option-cases o.res) [
  | inl missing ↦ absurd (cc (rw (kind, missing) at h))
  | inr (r, found) ↦ (r, found, (v, rw (kind, found) at h, e))
]

module _ (igcdex : Gcdex) (documented : IsBezout igcdex) (i : Instruction) (s t : Vm)
    (positive : 0 < s.run_context.prime) (bare : (memory_of s).relocation_rules ≡ [])
    (loaded : Loaded s.run_context i (memory_of s))
    (run : Returns (run_instruction igcdex i) s tt t) where
  abbrev c : RunContext
  c = s.run_context

  -- A jump that has been built and runs to its end has gone to the value of its expression, or, if it
  -- is relative, to the sum of pc and that value, modulo the prime; the memory has no relocation
  -- rules and has the immediate of the instruction behind it.
  pub run-IsTarget :
      (val : Expr) (relative inc_ap : Bool)
      → build_jump val relative inc_ap ≡ ok i
      → (v : MaybeRelocatable) × (value s.run_context (memory_of t) val ≡ ok v)
        × IsTarget relative s.run_context v t.run_context.pc
  run-IsTarget val relative inc_ap h =
      let (parsed, kind) = build_jump-parts val relative inc_ap i h in
      let ran = run_instruction-Ran igcdex i s t run in
      let (v, next, pc) = ran.registers.pc in
      let (r, found, target) =
        jump_res relative c i ran.operands v t.run_context.pc positive kind next pc in
      (
        mod_prime r c.prime,
        res_holds igcdex documented i s t positive bare loaded run val r parsed found,
        target,
      )

  -- An addition to ap that has been built and runs to its end has raised ap by the value of its
  -- expression, modulo the prime, under the same conditions.
  pub run-IsSum :
      (e : Expr) (inc_ap : Bool)
      → build_addap e inc_ap ≡ ok i
      → (v : MaybeRelocatable) × (value s.run_context (memory_of t) e ≡ ok v)
        × IsSum s.run_context s.run_context.ap v t.run_context.ap
  run-IsSum e inc_ap h =
      let (parsed, kind) = build_addap-parts e inc_ap i h in
      let ran = run_instruction-Ran igcdex i s t run in
      let (v, next, new_ap) = ran.registers.ap in
      let (r, found, sum) = added_res c i ran.operands v t.run_context.ap kind next new_ap in
      (
        mod_prime r c.prime,
        res_holds igcdex documented i s t positive bare loaded run e r parsed found,
        sum,
      )
