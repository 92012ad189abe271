-- ===== src/Builtins/RangeCheck.antt =====
-- The range-check builtin
-- (starkware/cairo/lang/builtins/range_check/range_check_builtin_runner.py).
use pip_cairo_lang.Prelude.{
  ℕ, arith, ◌<◌, ◌^◌, ◌≡◌, refl, sym, subst, ◌∙◌, Bool, true, false, ◌&&◌, some, List, [], ◌∷◌,
  length,
}
use pip_cairo_lang.Prelude.Int.{ℤ, pos, negsuc, ◌*ℤ◌, ltb_ℤ, leb_ℤ}
use pip_cairo_lang.Value.{RelocatableValue, MaybeRelocatable, int, relocatable, eqb_iff}
use pip_cairo_lang.Result.{
  Result, ok, ◌>>=◌, ◌>>◌, assert, assert-eq-ok, bind_elim, ok-injective, range_not_int,
  out_of_range,
}
use pip_cairo_lang.Exec.Steps.{Returns, run_elim, asks_elim, modify-Returns}
use pip_cairo_lang.Memory.{MemoryDict, get_item, relocate_value, relocate_address}
use pip_cairo_lang.Memory.Dict.{lookup}
use pip_cairo_lang.Memory.WriteOnce.{set_item-Wrote}
use pip_cairo_lang.Memory.Validated.{
  ValidationRule, ValidatedMemory, add_validation_rule, rules_of, was_validated, run_rules,
  validate_memory_cell, put_item, set_validated,
}
use pip_cairo_lang.Builtins.{
  SimpleBuiltinRunner, Runner, new_builtin, base_of, get_used_cells_and_allocated_size,
}

pub record RangeCheckBuiltinRunner : Type 0 where
  pub builtin : SimpleBuiltinRunner
  pub inner_rc_bound : ℕ
  pub n_parts : ℕ

unfoldable pub new_range_check : Bool → ℤ → ℕ → ℕ → RangeCheckBuiltinRunner
new_range_check included ratio inner_rc_bound n_parts = record {
  builtin = new_builtin included ratio (pos 1) (pos 1);
  inner_rc_bound = inner_rc_bound;
  n_parts = n_parts;
}

abbrev pub bound_of : RangeCheckBuiltinRunner → ℕ
bound_of r = r.inner_rc_bound ^ r.n_parts

abbrev check_range : ℕ → MaybeRelocatable → Result (Unit {0})
check_range bound (relocatable _) = assert false range_not_int
check_range bound (int v) = assert (leb_ℤ (pos 0) v && ltb_ℤ v (pos bound)) out_of_range

-- the rule of `add_validation_rules`
unfoldable pub range_rule : ℕ → ValidationRule
range_rule bound memory addr = do
  value ← get_item memory (relocatable addr)
  check_range bound value
  ok (addr ∷ [])

unfoldable pub add_validation_rules :
    RangeCheckBuiltinRunner → ValidatedMemory → Result ValidatedMemory
add_validation_rules r v = do
  base ← base_of r.builtin
  ok (add_validation_rule base.segment_index (range_rule (bound_of r)) v)

unfoldable pub get_used_perm_range_check_units : RangeCheckBuiltinRunner → Runner → Result ℤ
get_used_perm_range_check_units r runner = do
  sizes ← get_used_cells_and_allocated_size r.builtin runner
  ok (sizes.0 *ℤ pos r.n_parts)

-- A number that the builtin accepts.
abbrev pub InRange : ℕ → MaybeRelocatable → Type 0
InRange bound value = (n : ℕ) × (value ≡ int (pos n)) × (n < bound)

in_bound : (n bound : ℕ) → (leb_ℤ (pos 0) (pos n) && ltb_ℤ (pos n) (pos bound)) ≡ true → n < bound
in_bound n bound h = ground arith

negative : (n bound : ℕ) → (leb_ℤ (pos 0) (negsuc n) && ltb_ℤ (negsuc n) (pos bound)) ≡ true → ⊥
negative n bound h = ground arith

check_range-InRange :
    (bound : ℕ) (value : MaybeRelocatable) {u : Unit {0}}
    → check_range bound value ≡ ok u
    → InRange bound value
check_range-InRange bound (relocatable _) h = absurd (cc h)
check_range-InRange bound (int (pos n)) h =
    (n, refl, in_bound n bound (assert-eq-ok _ out_of_range h))
check_range-InRange bound (int (negsuc n)) h =
    absurd (negative n bound (assert-eq-ok _ out_of_range h))

-- The stored value is the one that a rule reads, if it is an int.
relocate_value-int :
    (m : MemoryDict) (value : MaybeRelocatable) (n : ℤ)
    → relocate_value m value ≡ ok (int n)
    → value ≡ int n
unfolding relocate_value
relocate_value-int m (int v) n h = ok-injective h
relocate_value-int m (relocatable v) n h =
    bind_elim (relocate_address (length m.relocation_rules) m.relocation_rules v) _ h
      λ r h1 h2. absurd (cc h2)

rule_reads :
    (bound : ℕ) (m : MemoryDict) (addr : RelocatableValue) (value : MaybeRelocatable)
    (l : List RelocatableValue)
    → lookup (relocatable addr) m.cells ≡ some value
    → range_rule bound m addr ≡ ok l
    → InRange bound value
unfolding range_rule get_item
rule_reads bound m addr value l stored h =
    bind_elim (get_item m (relocatable addr)) _ h λ found hf h1.
      bind_elim (check_range bound found) _ h1 λ u hc h2.
        let (n, e, lt) = check_range-InRange bound found hc in
        let read : relocate_value m value ≡ ok (int (pos n)) = rw (stored, e) at hf in
        (n, relocate_value-int m value (pos n) read, lt)

-- What is written to a cell that the range-check rule validates first is a number below the bound:
-- any other write raises.
pub set_validated-InRange :
    (bound : ℕ) (rest : List ValidationRule) (addr : RelocatableValue) (value : MaybeRelocatable)
    (v v' : ValidatedMemory)
    → rules_of addr.segment_index v.validation_rules ≡ range_rule bound ∷ rest
    → was_validated addr v.validated_addresses ≡ false
    → Returns (set_validated (relocatable addr) value) v tt v'
    → InRange bound value
unfolding set_validated put_item validate_memory_cell run_rules range_rule
set_validated-InRange bound rest addr value v v' hr fresh h =
    run_elim (put_item (relocatable addr) value) _ v h λ u v1 hput hval.
      asks_elim _ _ v hput λ m hset hmod.
        let stored : lookup (relocatable addr) m.cells ≡ some value =
          (set_item-Wrote v.memory m (relocatable addr) value hset).1.cell (relocatable addr)
          ∙ rw ((eqb_iff (relocatable addr) (relocatable addr)).1 refl) refl in
        let e : v1 ≡ record v { memory = m } = modify-Returns _ v hmod in
        let hval' : Returns (validate_memory_cell (relocatable addr)) (record v { memory = m }) tt
            v' =
          subst (λ (w : ValidatedMemory). Returns (validate_memory_cell (relocatable addr)) w tt v')
            e hval in
        asks_elim _ _ _ hval' λ done hd h1. asks_elim _ _ _ h1 λ rules hrules h2.
          let ed : done ≡ false = sym (ok-injective hd) ∙ fresh in
          let er : rules ≡ range_rule bound ∷ rest = sym (ok-injective hrules) ∙ hr in
          asks_elim _ _ _ (rw (ed, er) at h2)
            λ l hrule h3. rule_reads bound m addr value l stored hrule
