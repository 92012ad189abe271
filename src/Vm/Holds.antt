-- ===== src/Vm/Holds.antt =====
-- When a cell of the machine's memory has a value (writes, deductions and reads of
-- starkware/cairo/lang/vm/vm_core.py and virtual_machine_base.py).
use pip_cairo_lang.Prelude.{
  ℕ, suc, some-injective, ◌≡◌, refl, sym, ap, subst, ◌∙◌, Option, none, some, List, [], ◌∷◌,
  Option-cases, inl, inr,
}
use pip_cairo_lang.Value.{RelocatableValue, MaybeRelocatable, int, relocatable, eqb_iff}
use pip_cairo_lang.Result.{Result, ok, ok-injective}
use pip_cairo_lang.Exec.{Exec}
use pip_cairo_lang.Exec.Steps.{Moves, Returns, run_elim, asks_elim, pure-Returns, modify-Returns}
use pip_cairo_lang.MathUtils.{Gcdex}
use pip_cairo_lang.Instruction.{Instruction}
use pip_cairo_lang.Memory.{MemoryDict, get, relocate_value, relocate_address}
use pip_cairo_lang.Memory.Dict.{lookup}
use pip_cairo_lang.Memory.Relocation.{relocate_value-bare}
use pip_cairo_lang.Memory.WriteOnce.{Writes-keeps, set_item-Wrote}
use pip_cairo_lang.Memory.Validated.{ValidatedMemory, put_item, set_validated, validate_memory_cell}
use pip_cairo_lang.Vm.State.{
  Vm, Rule, memory_of, on_memory, write, try_value, call_rule, try_rules, deduce_memory_cell,
}
use pip_cairo_lang.Vm.Deduction.{Deduced}
use pip_cairo_lang.Vm.Operands.{
  or_option, or_read, deduce_first, deduce_second, deduce_dst, update_if_missing,
}
use pip_cairo_lang.Vm.Fills.{Fills, fills, validate_memory_cell-Fills}

pub moved :
    {S A : Type 0} {R : S → S → Type 0} (m : Exec S A) (s : S) {a : A} {t : S}
    → Moves R m
    → Returns m s a t
    → R s t
moved {S} {A} {R} m s k h = subst (R s) (ap (λ (q : Result A × S). q.1) h) (k.at s)

infixl 60 ◌>>>◌
pub ◌>>>◌ : {s t u : Vm} → Fills s t → Fills t u → Fills s u
p >>> q = fills.trans _ _ _ p q

-- `k` has the value `w` in the machine's memory.
abbrev pub Holds : MaybeRelocatable → MaybeRelocatable → Vm → Type 0
Holds k w s = lookup k (memory_of s).cells ≡ some w

pub kept : {s t : Vm} (k w : MaybeRelocatable) → Fills s t → Holds k w s → Holds k w t
kept k w f h = Writes-keeps k w f.memory h

-- A validated write leaves the value in its cell.
set_validated-lookup :
    (addr value : MaybeRelocatable) (v v' : ValidatedMemory)
    → Returns (set_validated addr value) v tt v'
    → lookup addr v'.memory.cells ≡ some value
unfolding set_validated put_item
set_validated-lookup addr value v v' h = run_elim (put_item addr value) _ v h λ u v1 hput hval.
    asks_elim _ _ v hput λ m hset hmod.
      let e = modify-Returns _ v hmod in
      let stored : lookup addr m.cells ≡ some value =
        (set_item-Wrote v.memory m addr value hset).1.cell addr
        ∙ rw ((eqb_iff addr addr).1 refl) refl in
      let stored' : lookup addr v1.memory.cells ≡ some value =
        ap (λ (w : ValidatedMemory). lookup addr w.memory.cells) e ∙ stored in
      Writes-keeps addr value
        (moved (validate_memory_cell addr) v1 (validate_memory_cell-Fills addr) hval) stored'

write-Holds :
    (addr value : MaybeRelocatable) (s t : Vm)
    → Returns (write addr value) s tt t
    → Holds addr value t
unfolding on_memory
write-Holds addr value s t h =
    set_validated-lookup addr value s.validated_memory t.validated_memory (
      rw
        (
          ← ap (λ (q : Result (Unit {0}) × Vm). q.0) h,
          ← ap (λ (q : Result (Unit {0}) × Vm). q.1.validated_memory) h,
        )
        refl)

pub update_if_missing-Holds :
    (o : Option MaybeRelocatable) (addr value : MaybeRelocatable) (s t : Vm)
    → ((v : MaybeRelocatable) → o ≡ some v → Holds addr value s)
    → Returns (update_if_missing o addr value) s tt t
    → Holds addr value t
update_if_missing-Holds (some v) addr value s t k h =
    let (u, same) = pure-Returns tt s h in subst (Holds addr value) (sym same) (k v refl)
update_if_missing-Holds none addr value s t k h = write-Holds addr value s t h

try_value-Holds :
    (addr : RelocatableValue) (value : Option MaybeRelocatable)
    (rest : Exec Vm (Option MaybeRelocatable)) (s t : Vm) (v : MaybeRelocatable)
    → (Returns rest s (some v) t → Holds (relocatable addr) v t)
    → Returns (try_value addr value rest) s (some v) t
    → Holds (relocatable addr) v t
try_value-Holds addr none rest s t v k h = k h
try_value-Holds addr (some w) rest s t v k h =
    run_elim (write (relocatable addr) w) _ s h λ u s1 hw h1.
      let (same, state) = pure-Returns (some w) s1 h1 in
      let e : w ≡ v = some-injective same in
      subst (Holds (relocatable addr) v) (sym state)
        (rw e at (write-Holds (relocatable addr) w s s1 hw))

-- A rule that gives a value has it written.
try_rules-Holds :
    (addr : RelocatableValue) (k : ℕ) (rules : List Rule) (s t : Vm) (v : MaybeRelocatable)
    → Returns (try_rules addr k rules) s (some v) t
    → Holds (relocatable addr) v t
unfolding try_rules
try_rules-Holds addr k [] s t v h = absurd (cc (pure-Returns none s h).0)
try_rules-Holds addr k (r ∷ rules) s t v h = run_elim (call_rule addr k r) _ s h λ value s1 hv h1.
    try_value-Holds addr value _ s1 t v (try_rules-Holds addr (suc k) rules s1 t v) h1

deduce_memory_cell-Holds :
    (addr : MaybeRelocatable) (s t : Vm) (v : MaybeRelocatable)
    → Returns (deduce_memory_cell addr) s (some v) t
    → Holds addr v t
unfolding deduce_memory_cell
deduce_memory_cell-Holds (int _) s t v h = absurd (cc (pure-Returns none s h).0)
deduce_memory_cell-Holds (relocatable addr) s t v h =
    asks_elim _ _ s h λ rules hr h1. try_rules-Holds addr 0 rules s t v h1

-- A cell that is found, or deduced, has its value in memory.
known-Holds :
    (o : Option MaybeRelocatable) (addr : MaybeRelocatable) (s t : Vm) (v : MaybeRelocatable)
    → ((w : MaybeRelocatable) → o ≡ some w → Holds addr w s)
    → Returns (or_option o (deduce_memory_cell addr)) s (some v) t
    → Holds addr v t
known-Holds none addr s t v k h = deduce_memory_cell-Holds addr s t v h
known-Holds (some w) addr s t v k h =
    let (same, state) = pure-Returns (some w) s h in subst (Holds addr v) (sym state) (k v (same))

-- Without relocation rules a cell is read as it is.
pub get-Holds :
    (m : MemoryDict) (addr v : MaybeRelocatable)
    → m.relocation_rules ≡ []
    → get m addr ≡ ok (some v)
    → lookup addr m.cells ≡ some v
unfolding get relocate_value relocate_address
get-Holds m addr v bare h = elim (Option-cases (lookup addr m.cells)) [
  | inl e ↦ absurd (cc (rw (get, e) at h))
  | inr (w, e) ↦
      let h' : ok (some w) ≡ ok (some v) = rw (get, e, relocate_value-bare m w bare) at h in
      e ∙ ok-injective h'
]

-- The same after the reads of the other cells.
pub known_cell-Holds :
    (cell known : Option MaybeRelocatable) (addr : MaybeRelocatable) (s s0 s1 : Vm)
    → (memory_of s).relocation_rules ≡ []
    → get (memory_of s) addr ≡ ok cell
    → Fills s s0
    → Returns (or_option cell (deduce_memory_cell addr)) s0 known s1
    → (v : MaybeRelocatable) → known ≡ some v
    → Holds addr v s1
known_cell-Holds cell known addr s s0 s1 bare read f h v e =
    known-Holds cell addr s0 s1 v
      (λ w e'. kept addr w f (get-Holds (memory_of s) addr w bare (read ∙ ap ok e')))
      (subst
        (λ (q : Option MaybeRelocatable).
          Returns (or_option cell (deduce_memory_cell addr)) s0 q s1)
        e h)

-- A deduction or a read does not replace a value that is known.
pub or_option-known :
    (o : Option MaybeRelocatable) (rest : Exec Vm (Option MaybeRelocatable)) (v : MaybeRelocatable)
    (s t : Vm) {d : Option MaybeRelocatable}
    → o ≡ some v
    → Returns (or_option o rest) s d t
    → d ≡ some v
or_option-known o rest v s t {d} e h =
    sym
      (pure-Returns (some v) s
        (subst (λ (q : Option MaybeRelocatable). Returns (or_option q rest) s d t) e h)).0

pub deduce_first-known :
    (g : Gcdex) (i : Instruction) (dst o op1 : Option MaybeRelocatable) (v : MaybeRelocatable)
    (s t : Vm) {d : Deduced}
    → o ≡ some v
    → Returns (deduce_first g i dst o op1) s d t
    → d.0 ≡ some v
deduce_first-known g i dst o op1 v s t {d} e h =
    let h' =
      subst (λ (q : Option MaybeRelocatable). Returns (deduce_first g i dst q op1) s d t) e h in
    sym (ap (λ (q : Deduced). q.0) (pure-Returns (some v, none) s h').0)

pub deduce_second-known :
    (g : Gcdex) (i : Instruction) (dst op0 o : Option MaybeRelocatable) (v : MaybeRelocatable)
    (s t : Vm) {d : Deduced}
    → o ≡ some v
    → Returns (deduce_second g i dst op0 o) s d t
    → d.0 ≡ some v
deduce_second-known g i dst op0 o v s t {d} e h =
    let h' =
      subst (λ (q : Option MaybeRelocatable). Returns (deduce_second g i dst op0 q) s d t) e h in
    sym (ap (λ (q : Deduced). q.0) (pure-Returns (some v, none) s h').0)

pub deduce_dst-known :
    (i : Instruction) (o res : Option MaybeRelocatable) (v : MaybeRelocatable) (s t : Vm)
    {d : Option MaybeRelocatable}
    → o ≡ some v
    → Returns (deduce_dst o i res) s d t
    → d ≡ some v
deduce_dst-known i o res v s t {d} e h =
    sym
      (pure-Returns (some v) s
        (subst (λ (q : Option MaybeRelocatable). Returns (deduce_dst q i res) s d t) e h)).0

pub or_read-known :
    (o : Option MaybeRelocatable) (addr v : MaybeRelocatable) (s t : Vm) {x : MaybeRelocatable}
    → o ≡ some v
    → Returns (or_read o addr) s x t
    → x ≡ v
or_read-known o addr v s t {x} e h =
    sym
      (pure-Returns v s
        (subst (λ (q : Option MaybeRelocatable). Returns (or_read q addr) s x t) e h)).0

-- A known value that has been taken over is still in memory later.
pub carried :
    {o : Option MaybeRelocatable} (addr : MaybeRelocatable) {value : MaybeRelocatable} {s t : Vm}
    → Fills s t
    → ((v : MaybeRelocatable) → o ≡ some v → Holds addr v s)
    → ((v : MaybeRelocatable) → o ≡ some v → value ≡ v)
    → (v : MaybeRelocatable) → o ≡ some v
    → Holds addr value t
carried {o} addr {value} {s} {t} f holds same v e =
    subst (λ (w : MaybeRelocatable). Holds addr w t) (sym (same v e)) (kept addr v f (holds v e))
