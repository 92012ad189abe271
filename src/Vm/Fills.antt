-- ===== src/Vm/Fills.antt =====
-- `compute_operands` changes only the memory, by writes (starkware/cairo/lang/vm/vm_core.py).
use pip_cairo_lang.Prelude.{ℕ, suc, ◌≡◌, refl, ◌∙◌, Option, none, some, List, [], ◌∷◌}
use pip_cairo_lang.Value.{RelocatableValue, MaybeRelocatable, int, relocatable}
use pip_cairo_lang.Result.{Result, ok, err}
use pip_cairo_lang.Exec.{Exec, continue, pure, asks, modify, ◌>>=◌}
use pip_cairo_lang.Exec.Steps.{Moves, IsPreorder, Moves-pure, Moves-asks, Moves-bind, if-Moves}
use pip_cairo_lang.MathUtils.{Gcdex}
use pip_cairo_lang.Instruction.{Instruction}
use pip_cairo_lang.Memory.{MemoryDict, set_item}
use pip_cairo_lang.Memory.WriteOnce.{Writes, here, next}
use pip_cairo_lang.Memory.Validated.{
  ValidatedMemory, ValidationRule, add_validated, put_item, run_rules, validate_memory_cell,
  set_validated,
}
use pip_cairo_lang.Vm.State.{
  Vm, Rule, memory_of, on_memory, write, try_value, renew, call_rule, try_rules, deduce_memory_cell,
}
use pip_cairo_lang.Vm.Operands.{
  or_option, or_read, deduce_first, deduce_second, or_compute, deduce_dst, update_if_missing,
  compute_operands,
}

pub Writes-trans : {a b c : MemoryDict} → Writes a b → Writes b c → Writes a c
Writes-trans p here = p
Writes-trans p (next addr value q e) = next addr value (Writes-trans p q) e

-- A change of the memory alone, by successful writes.
pub record Fills (s t : Vm) : Type 0 where
  pub memory : Writes (memory_of s) (memory_of t)
  pub context : t.run_context ≡ s.run_context
  pub trace : t.trace ≡ s.trace
  pub steps : t.current_step ≡ s.current_step

abbrev pub GrowsValidated : ValidatedMemory → ValidatedMemory → Type 0
GrowsValidated s t = Writes s.memory t.memory

pub fills : IsPreorder Fills
fills = record {
  refl = λ s. record { memory = here; context = refl; trace = refl; steps = refl };
  trans = λ s t u p q. record {
    memory = Writes-trans p.memory q.memory;
    context = q.context ∙ p.context;
    trace = q.trace ∙ p.trace;
    steps = q.steps ∙ p.steps;
  };
}

grows_validated : IsPreorder GrowsValidated
grows_validated = record { refl = λ s. here; trans = λ s t u p q. Writes-trans p q }

add_validated-Fills : (l : List RelocatableValue) → Moves GrowsValidated (add_validated l)
unfolding modify
add_validated-Fills l = record { at = λ s. here }

run_rules-Fills :
    (addr : RelocatableValue) (rules : List ValidationRule)
    → Moves GrowsValidated (run_rules addr rules)
unfolding run_rules
run_rules-Fills addr [] = Moves-pure grows_validated tt
run_rules-Fills addr (rule ∷ rules) =
    Moves-bind grows_validated _ _ (Moves-asks grows_validated _)
      λ l. Moves-bind grows_validated _ _ (add_validated-Fills l) λ _. run_rules-Fills addr rules

pub validate_memory_cell-Fills :
    (addr : MaybeRelocatable) → Moves GrowsValidated (validate_memory_cell addr)
unfolding validate_memory_cell
validate_memory_cell-Fills (int _) = Moves-pure grows_validated tt
validate_memory_cell-Fills (relocatable addr) =
    Moves-bind grows_validated _ _ (Moves-asks grows_validated _) λ done.
      Moves-bind grows_validated _ _ (Moves-asks grows_validated _)
        λ rules. if-Moves done _ _ (Moves-pure grows_validated tt) (run_rules-Fills addr rules)

put_item-at :
    (addr value : MaybeRelocatable) (v : ValidatedMemory) (r : Result MemoryDict)
    → set_item v.memory addr value ≡ r
    → GrowsValidated v (continue r (λ m. modify (λ v. record v { memory = m })) v).1
unfolding modify
put_item-at addr value v (ok m) e = next addr value here e
put_item-at addr value v (err x) e = here

put_item-Fills : (addr value : MaybeRelocatable) → Moves GrowsValidated (put_item addr value)
unfolding put_item ◌>>=◌
put_item-Fills addr value = record {
  at = λ v. put_item-at addr value v (set_item v.memory addr value) refl;
}

set_validated-Fills :
    (addr value : MaybeRelocatable) → Moves GrowsValidated (set_validated addr value)
unfolding set_validated
set_validated-Fills addr value =
    Moves-bind grows_validated _ _ (put_item-Fills addr value) λ _. validate_memory_cell-Fills addr

on_memory-Fills :
    {A : Type 0} (m : Exec ValidatedMemory A) → Moves GrowsValidated m → Moves Fills (on_memory m)
unfolding on_memory
on_memory-Fills m km = record {
  at =
      λ s. record { memory = km.at s.validated_memory; context = refl; trace = refl; steps = refl };
}

pure-Fills : {A : Type 0} (a : A) → Moves Fills (pure a)
pure-Fills = Moves-pure fills

asks-Fills : {A : Type 0} (f : Vm → Result A) → Moves Fills (asks f)
asks-Fills = Moves-asks fills

bind-Fills :
    {A B : Type 0} (m : Exec Vm A) (f : A → Exec Vm B)
    → Moves Fills m
    → ((a : A) → Moves Fills (f a))
    → Moves Fills (m >>= f)
bind-Fills = Moves-bind fills

write-Fills : (addr value : MaybeRelocatable) → Moves Fills (write addr value)
write-Fills addr value = on_memory-Fills _ (set_validated-Fills addr value)

try_value-Fills :
    (addr : RelocatableValue) (value : Option MaybeRelocatable)
    (rest : Exec Vm (Option MaybeRelocatable))
    → Moves Fills rest
    → Moves Fills (try_value addr value rest)
try_value-Fills addr none rest k = k
try_value-Fills addr (some value) rest k =
    bind-Fills _ _ (write-Fills (relocatable addr) value) λ _. pure-Fills (some value)

renew-Fills : (addr : RelocatableValue) (k : ℕ) (r : Rule) → Moves Fills (modify (renew addr k r))
unfolding modify
renew-Fills addr k r = record {
  at = λ s. record { memory = here; context = refl; trace = refl; steps = refl };
}

call_rule-Fills : (addr : RelocatableValue) (k : ℕ) (r : Rule) → Moves Fills (call_rule addr k r)
unfolding call_rule
call_rule-Fills addr k r = bind-Fills _ _ (renew-Fills addr k r) λ _. asks-Fills _

pub try_rules-Fills :
    (addr : RelocatableValue) (k : ℕ) (rules : List Rule) → Moves Fills (try_rules addr k rules)
unfolding try_rules
try_rules-Fills addr k [] = pure-Fills none
try_rules-Fills addr k (r ∷ rules) =
    bind-Fills _ _ (call_rule-Fills addr k r)
      λ value. try_value-Fills addr value _ (try_rules-Fills addr (suc k) rules)

pub deduce_memory_cell-Fills : (addr : MaybeRelocatable) → Moves Fills (deduce_memory_cell addr)
unfolding deduce_memory_cell
deduce_memory_cell-Fills (int _) = pure-Fills none
deduce_memory_cell-Fills (relocatable addr) =
    bind-Fills _ _ (asks-Fills _) λ rules. try_rules-Fills addr 0 rules

-- The optional parts of `compute_operands`.
pub or_option-Fills :
    (v : Option MaybeRelocatable) (m : Exec Vm (Option MaybeRelocatable))
    → Moves Fills m
    → Moves Fills (or_option v m)
or_option-Fills (some v) m k = pure-Fills (some v)
or_option-Fills none m k = k

pub or_read-Fills :
    (v : Option MaybeRelocatable) (addr : MaybeRelocatable) → Moves Fills (or_read v addr)
or_read-Fills (some v) addr = pure-Fills v
or_read-Fills none addr = asks-Fills _

pub deduce_first-Fills :
    (g : Gcdex) (i : Instruction) (dst op0 op1 : Option MaybeRelocatable)
    → Moves Fills (deduce_first g i dst op0 op1)
deduce_first-Fills g i dst (some v) op1 = pure-Fills _
deduce_first-Fills g i dst none op1 = asks-Fills _

pub deduce_second-Fills :
    (g : Gcdex) (i : Instruction) (dst op0 op1 : Option MaybeRelocatable)
    → Moves Fills (deduce_second g i dst op0 op1)
deduce_second-Fills g i dst op0 (some v) = pure-Fills _
deduce_second-Fills g i dst op0 none = asks-Fills _

pub or_compute-Fills :
    (r : Option MaybeRelocatable) (i : Instruction) (a b : MaybeRelocatable)
    → Moves Fills (or_compute r i a b)
or_compute-Fills (some v) i a b = pure-Fills _
or_compute-Fills none i a b = asks-Fills _

pub deduce_dst-Fills :
    (dst : Option MaybeRelocatable) (i : Instruction) (r : Option MaybeRelocatable)
    → Moves Fills (deduce_dst dst i r)
deduce_dst-Fills (some v) i r = pure-Fills _
deduce_dst-Fills none i r = asks-Fills _

pub update_if_missing-Fills :
    (o : Option MaybeRelocatable) (addr value : MaybeRelocatable)
    → Moves Fills (update_if_missing o addr value)
update_if_missing-Fills (some v) addr value = pure-Fills tt
update_if_missing-Fills none addr value = write-Fills addr value

-- The operands are computed by reads, deductions and writes to the memory.
pub compute_operands-Fills : (g : Gcdex) (i : Instruction) → Moves Fills (compute_operands g i)
unfolding compute_operands
compute_operands-Fills g i = bind-Fills _ _ (asks-Fills _) λ dst_addr.
    bind-Fills _ _ (asks-Fills _) λ dst. bind-Fills _ _ (asks-Fills _) λ op0_addr.
      bind-Fills _ _ (asks-Fills _) λ op0_cell. bind-Fills _ _ (asks-Fills _) λ op1_addr.
        bind-Fills _ _ (asks-Fills _) λ op1_cell.
          bind-Fills _ _ (or_option-Fills op0_cell _ (deduce_memory_cell-Fills op0_addr))
            λ op0_known.
              bind-Fills _ _ (or_option-Fills op1_cell _ (deduce_memory_cell-Fills op1_addr))
                λ op1_known.
                  bind-Fills _ _ (deduce_first-Fills g i dst op0_known op1_known) λ first.
                    bind-Fills _ _ (deduce_second-Fills g i dst first.0 op1_known) λ second.
                      bind-Fills _ _ (or_read-Fills first.0 op0_addr) λ op0.
                        bind-Fills _ _ (or_read-Fills second.0 op1_addr) λ op1.
                          bind-Fills _ _ (or_compute-Fills _ i op0 op1) λ res.
                            bind-Fills _ _ (deduce_dst-Fills dst i res) λ dst_deduced.
                              bind-Fills _ _ (or_read-Fills dst_deduced dst_addr) λ dst_value.
                                bind-Fills _ _ (update_if_missing-Fills dst dst_addr dst_value) λ _.
                                  bind-Fills _ _ (update_if_missing-Fills op0_known op0_addr op0)
                                    λ _.
                                      bind-Fills _ _
                                        (update_if_missing-Fills op1_known op1_addr op1)
                                        λ _. pure-Fills _
