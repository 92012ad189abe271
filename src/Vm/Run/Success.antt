-- ===== src/Vm/Run/Success.antt =====
-- What an instruction that runs to its end has done (`run_instruction` of
-- starkware/cairo/lang/vm/vm_core.py).
use pip_cairo_lang.Prelude
use pip_cairo_lang.Prelude.{
  ℕ, ◌≡◌, refl, sym, subst, ◌∙◌, ◌+◌, Option, none, some, List, [], ◌∷◌, ◌++◌,
}
use pip_cairo_lang.Value.{MaybeRelocatable}
use pip_cairo_lang.Result.{Result, ok}
use pip_cairo_lang.Exec.{Exec}
use pip_cairo_lang.Exec.Steps.{
  Returns, run_elim, asks_elim, asks-Returns, modify_then, modify-Returns, rethrow-Returns,
}
use pip_cairo_lang.Relocatable.{mod_prime}
use pip_cairo_lang.MathUtils.{Gcdex}
use pip_cairo_lang.Instruction.{Instruction}
use pip_cairo_lang.Memory.WriteOnce.{Writes}
use pip_cairo_lang.Vm.State.{Vm, RunContext, Operands, memory_of, entry_of, on_context}
use pip_cairo_lang.Vm.Registers.{next_fp, next_ap, next_pc, update_registers}
use pip_cairo_lang.Vm.Operands.{compute_operands}
use pip_cairo_lang.Vm.Fills.{Fills, compute_operands-Fills}
use pip_cairo_lang.Vm.Run.{opcode_assertions, run_instruction}

-- The registers after an instruction, from those before it.
pub record Updated (i : Instruction) (o : Operands) (c d : RunContext) : Type 0 where
  pub fp : next_fp c i o ≡ ok d.fp
  pub ap : (v : MaybeRelocatable) × (next_ap c i o ≡ ok v) × (d.ap ≡ mod_prime v c.prime)
  pub pc : (v : MaybeRelocatable) × (next_pc c i o ≡ ok v) × (d.pc ≡ mod_prime v c.prime)
  pub prime : d.prime ≡ c.prime

update_registers-Updated :
    (i : Instruction) (o : Operands) (c d : RunContext)
    → Returns (update_registers i o) c tt d
    → Updated i o c d
unfolding update_registers next_fp next_ap next_pc
update_registers-Updated i o c d h = asks_elim _ _ c h λ fp hf k0.
    let k1 = modify_then (λ c. record c { fp = fp }) _ c k0 in
    asks_elim _ _ _ k1 λ ap ha k2.
      let k3 = modify_then (λ c. record c { ap = mod_prime ap c.prime }) _ _ k2 in
      asks_elim _ _ _ k3 λ pc hp k4.
        let e = modify-Returns (λ c. record c { pc = mod_prime pc c.prime }) _ k4 in
        rw e (record { fp = hf; ap = (ap, ha, refl); pc = (pc, hp, refl); prime = refl })

-- What a change of the registers leaves.
record Beside (s t : Vm) : Type 0 where
  memory : memory_of t ≡ memory_of s
  trace : t.trace ≡ s.trace
  steps : t.current_step ≡ s.current_step

on_context-Returns :
    {A : Type 0} (m : Exec RunContext A) (s : Vm) {a : A} {t : Vm}
    → Returns (on_context m) s a t
    → Returns m s.run_context a t.run_context × Beside s t
unfolding on_context
on_context-Returns {A} m s {a} {t} h =
    let e : record s { run_context = (m s.run_context).1 } ≡ t =
      Prelude.ap (λ (q : Result A × Vm). q.1) h in
    let r : (m s.run_context).0 ≡ ok a = Prelude.ap (λ (q : Result A × Vm). q.0) h in
    let c : (m s.run_context).1 ≡ t.run_context = Prelude.ap (λ (u : Vm). u.run_context) e in
    (
      rw (← r, ← c) refl,
      record {
        memory = Prelude.ap memory_of (sym e);
        trace = Prelude.ap (λ (u : Vm). u.trace) (sym e);
        steps = Prelude.ap (λ (u : Vm). u.current_step) (sym e);
      },
    )

-- What an instruction has done between two states.
pub record Ran (igcdex : Gcdex) (i : Instruction) (s t : Vm) : Type 0 where
  pub operands : Operands
  pub addresses : List MaybeRelocatable
  pub found : Vm
  pub computed : Returns (compute_operands igcdex i) s (operands, addresses) found
  pub asserted : opcode_assertions i operands s.run_context ≡ ok tt
  pub registers : Updated i operands s.run_context t.run_context
  pub memory : Writes (memory_of s) (memory_of t)
  pub memory_found : memory_of t ≡ memory_of found
  pub trace : t.trace ≡ s.trace ++ entry_of s.run_context ∷ []
  pub steps : t.current_step ≡ s.current_step + 1

Fills-of :
    (igcdex : Gcdex) (i : Instruction) (s : Vm) {found : Operands × List MaybeRelocatable}
    {mid : Vm}
    → Returns (compute_operands igcdex i) s found mid
    → Fills s mid
Fills-of igcdex i s {found} {mid} h =
    subst (Fills s) (Prelude.ap (λ (q : Result (Operands × List MaybeRelocatable) × Vm). q.1) h)
      ((compute_operands-Fills igcdex i).at s)

-- An instruction that runs to its end has had its operands found and its assertions hold, has put
-- the registers before it at the end of the trace, has written the memory only by checked writes,
-- has counted one step, and has set each register to what the instruction's rules say of the
-- registers before it.
pub run_instruction-Ran :
    (igcdex : Gcdex) (i : Instruction) (s t : Vm)
    → Returns (run_instruction igcdex i) s tt t
    → Ran igcdex i s t
unfolding run_instruction on_context
run_instruction-Ran igcdex i s t h = run_elim _ _ s h λ found mid computed k0.
    let computed' = rethrow-Returns _ _ s computed in
    let fills = Fills-of igcdex i s computed' in
    run_elim _ _ mid k0 λ u s1 asserted k1.
      let (held, same) = asks-Returns _ mid (rethrow-Returns _ _ mid asserted) in
      let k2 = modify_then _ _ s1 k1 in
      let k3 = modify_then _ _ _ k2 in
      run_elim _ _ _ k3 λ u' s2 updated k4.
        let (regs, rest) =
          on_context-Returns (update_registers i found.0) _ (rethrow-Returns _ _ _ updated) in
        let last = modify-Returns _ s2 k4 in
        let context : s1.run_context ≡ s.run_context =
          Prelude.ap (λ (u : Vm). u.run_context) same ∙ fills.context in
        let traced : s1.trace ≡ s.trace = Prelude.ap (λ (u : Vm). u.trace) same ∙ fills.trace in
        let final : t.run_context ≡ s2.run_context = Prelude.ap (λ (u : Vm). u.run_context) last in
        let memory : memory_of t ≡ memory_of mid =
          Prelude.ap memory_of last ∙ (rest.memory ∙ Prelude.ap memory_of same) in
        record {
          operands = found.0;
          addresses = found.1;
          found = mid;
          computed = computed';
          asserted = rw (← fills.context) held;
          registers = rw (final, ← context) (update_registers-Updated i found.0 _ _ regs);
          memory = rw memory fills.memory;
          memory_found = memory;
          trace = Prelude.ap (λ (u : Vm). u.trace) last ∙ (rest.trace ∙ rw (traced, context) refl);
          steps =
              Prelude.ap (λ (u : Vm). u.current_step) last
              ∙ Prelude.ap (λ (n : ℕ). n + 1)
                  (rest.steps ∙ (Prelude.ap (λ (u : Vm). u.current_step) same ∙ fills.steps));
        }
