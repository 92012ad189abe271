-- ===== src/Result.antt =====
-- Python's exceptions as values: each constructor is a class of exception that the modelled code
-- raises, and a failed `assert` carries which check it was.
use pip_cairo_lang.Prelude.{◌≡◌, refl, Bool, true, false}
use pip_cairo_lang.Value.{MaybeRelocatable}

pub data Check : Type 0 where
  prime_size offset_range imm_presence res_jnz ap_call fp_opcode encoding_range : Check
  unsupported_instruction missing_imm call_ap_update : Check
  imm_offset op0_unknown instruction_not_int : Check
  same_segment two_relocatables value_size felt_range missing_segment : Check
  frozen temp_segment rule_offset rule_exists active_rules pair_size not_int : Check
  not_frozen sizes_missing segment_overflow negative_offset offset_over_size not_empty : Check
  division_by_zero not_divisible not_coprime not_positive bad_power bad_root same_x zero_y : Check
  trace_value trace_size base_unset stop_pointer missing_cells range_not_int out_of_range : Check
  not_relocatable : Check
  path_value binary_child edge_length combine_height edge_children : Check
  top_layer missing_fact leaf_children not_binary dependencies : Check

-- What an `InstructionBuilderError` says.
pub data BuilderCheck : Type 0 where
  not_implemented_body immediate_operand bad_jump_offset bad_call_offset : BuilderCheck
  ap_with_call ap_with_ret ap_with_addap ap_with_dw dw_not_const : BuilderCheck
  invalid_rhs bad_operator bad_operand not_deref bad_sign offset_not_const : BuilderCheck
  not_register : BuilderCheck

pub data Error : Type 0 where
  assertion : Check → Error
  key_error type_error value_error overflow_error recursion_error not_implemented : Error
  security_error zero_division insufficient_allocated_cells : Error
  unknown_memory : MaybeRelocatable → Error
  inconsistent_memory : MaybeRelocatable → MaybeRelocatable → MaybeRelocatable → Error
  inconsistent_auto_deduction : MaybeRelocatable → MaybeRelocatable → MaybeRelocatable → Error
  pure_value : Error
  assert_eq_failed call_return_pc call_return_fp : Error
  attribute_error : Error
  instruction_builder : BuilderCheck → Error
  -- `SimplifierError`
  division_by_zero_expr negative_exponent : Error
  -- the error at a program counter, `as_vm_exception`
  vm_exception : MaybeRelocatable → Error → Error

-- What a call gives back: a value, or the exception that it raises.
pub data Result {ℓ} (V : Type ℓ) : Type ℓ where
  err : Error → Result V
  ok : V → Result V

infixl 5 ◌>>=◌ ◌>>◌
abbrev pub ◌>>=◌ {ℓ κ} : {V : Type ℓ} {W : Type κ} → Result V → (V → Result W) → Result W
err e >>= _ = err e
ok v >>= next = next v

abbrev pub ◌>>◌ {ℓ κ} : {V : Type κ} {W : Type ℓ} → Result V → Result W → Result W
first >> second = first >>= λ _. second

-- `assert test`
abbrev pub assert : Bool → Check → Result (Unit {0})
assert true c = ok tt
assert false c = err (assertion c)

pub assert-eq-ok : (b : Bool) (c : Check) {u : Unit {0}} → assert b c ≡ ok u → b ≡ true
assert-eq-ok true c h = refl
assert-eq-ok false c h = cc

pub assert-then {ℓ} :
    {A : Type ℓ} (b : Bool) (c : Check) (m : Result A) {a : A}
    → (assert b c >> m) ≡ ok a
    → (b ≡ true) × (m ≡ ok a)
assert-then true c m h = (refl, h)
assert-then false c m h = cc

-- A sequence that gives a value has given one at its first part; the parts are handed to the rest
-- of a proof as variables.
pub bind_elim {ℓ κ μ} :
    {V : Type ℓ} {W : Type κ} {Goal : Type μ} (call : Result V) (next : V → Result W) {w : W}
    → (call >>= next) ≡ ok w
    → ((v : V) → call ≡ ok v → next v ≡ ok w → Goal)
    → Goal
bind_elim (err e) next h goal = absurd (cc h)
bind_elim (ok v) next h goal = goal v refl h

pub ok-injective {ℓ} : {A : Type ℓ} {a b : A} → ok a ≡ ok b → a ≡ b
ok-injective h = cc
