-- ===== src/Vm/Run/Growth.antt =====
-- Whatever a step does, the memory only gains cells (starkware/cairo/lang/vm/vm_core.py).
use pip_cairo_lang.Prelude.{◌≡◌, refl, some, List, [], ◌∷◌, All}
use pip_cairo_lang.Value.{MaybeRelocatable}
use pip_cairo_lang.Result.{Result}
use pip_cairo_lang.Exec.{Exec, pure, asks, modify, ◌>>=◌}
use pip_cairo_lang.Exec.Steps.{
  Moves, IsPreorder, Moves-pure, Moves-asks, Moves-bind, Moves-rethrow, if-Moves,
}
use pip_cairo_lang.MathUtils.{Gcdex}
use pip_cairo_lang.Instruction.{Instruction}
use pip_cairo_lang.Memory.Dict.{lookup}
use pip_cairo_lang.Memory.WriteOnce.{Writes, here, Writes-keeps}
use pip_cairo_lang.Vm.State.{Vm, RunContext, memory_of, on_context}
use pip_cairo_lang.Vm.Fills.{Fills, Writes-trans, compute_operands-Fills}
use pip_cairo_lang.Vm.Run.{run_instruction, decode_current_instruction, run_hints, step}

-- The memory has changed by successful writes only.
abbrev pub Grows : Vm → Vm → Type 0
Grows s t = Writes (memory_of s) (memory_of t)

grows : IsPreorder Grows
grows = record { refl = λ s. here; trans = λ s t u p q. Writes-trans p q }

on_context-Grows : {A : Type 0} (m : Exec RunContext A) → Moves Grows (on_context m)
unfolding on_context
on_context-Grows m = record { at = λ s. here }

pure-Grows : {A : Type 0} (a : A) → Moves Grows (pure a)
pure-Grows = Moves-pure grows

asks-Grows : {A : Type 0} (f : Vm → Result A) → Moves Grows (asks f)
asks-Grows = Moves-asks grows

bind-Grows :
    {A B : Type 0} (m : Exec Vm A) (f : A → Exec Vm B)
    → Moves Grows m
    → ((a : A) → Moves Grows (f a))
    → Moves Grows (m >>= f)
bind-Grows = Moves-bind grows

-- A change of the other fields.
modify-Grows : (f : Vm → Vm) → ((s : Vm) → memory_of (f s) ≡ memory_of s) → Moves Grows (modify f)
unfolding modify
modify-Grows f same = record { at = λ s. rw (same s) here }

Fills-Grows : {A : Type 0} (m : Exec Vm A) → Moves Fills m → Moves Grows m
Fills-Grows m k = record { at = λ s. (k.at s).memory }

run_instruction-Grows : (g : Gcdex) (i : Instruction) → Moves Grows (run_instruction g i)
unfolding run_instruction
run_instruction-Grows g i =
    bind-Grows _ _ (Moves-rethrow _ _ (Fills-Grows _ (compute_operands-Fills g i))) λ found.
      bind-Grows _ _ (Moves-rethrow _ _ (asks-Grows _)) λ _.
        bind-Grows _ _ (modify-Grows _ (λ s. refl)) λ _.
          bind-Grows _ _ (modify-Grows _ (λ s. refl)) λ _.
            bind-Grows _ _ (Moves-rethrow _ _ (on_context-Grows _)) λ _. modify-Grows _ (λ s. refl)

-- Hints that write to the memory through its checks.
abbrev pub HintsGrow : List (Exec Vm (Unit {0})) → Type 0
HintsGrow = All (Moves Grows)

run_hints-Grows :
    (hints : List (Exec Vm (Unit {0}))) → HintsGrow hints → Moves Grows (run_hints hints)
unfolding run_hints
run_hints-Grows [] k = pure-Grows tt
run_hints-Grows (hint ∷ hints) k = bind-Grows _ _ k.0 λ _.
    bind-Grows _ _ (asks-Grows _)
      λ skip. if-Moves skip _ _ (pure-Grows tt) (run_hints-Grows hints k.1)

-- A step, whether it succeeds or raises and wherever it raises, changes the memory only by
-- successful writes, if its hints do.
step-Grows :
    (g : Gcdex) (hints : MaybeRelocatable → List (Exec Vm (Unit {0})))
    → ((pc : MaybeRelocatable) → HintsGrow (hints pc))
    → Moves Grows (step g hints)
unfolding step decode_current_instruction
step-Grows g hints k = bind-Grows _ _ (modify-Grows _ (λ s. refl)) λ _.
    bind-Grows _ _ (asks-Grows _) λ pc. bind-Grows _ _ (run_hints-Grows (hints pc) (k pc)) λ _.
      bind-Grows _ _ (asks-Grows _) λ skip.
        if-Moves skip _ _ (pure-Grows tt)
          (bind-Grows _ _ (Moves-rethrow _ _ (asks-Grows _)) λ i. run_instruction-Grows g i)

-- A cell that is known before a step has the same value after it, whether the step succeeds or
-- raises and wherever it raises, if the hints change the memory by its checked writes.
pub step-keeps :
    (igcdex : Gcdex) (hints : MaybeRelocatable → List (Exec Vm (Unit {0}))) (vm : Vm)
    (k w : MaybeRelocatable)
    → ((pc : MaybeRelocatable) → HintsGrow (hints pc))
    → lookup k (memory_of vm).cells ≡ some w
    → lookup k (memory_of (step igcdex hints vm).1).cells ≡ some w
step-keeps igcdex hints vm k w grow known =
    Writes-keeps k w ((step-Grows igcdex hints grow).at vm) known
