-- ===== src/Compiler/Simplifier/Units.antt =====
-- Turning an operator, or leaving it out for its unit, keeps its meaning (`visit_ExprOperator` of
-- starkware/cairo/lang/compiler/expression_simplifier.py).
use pip_cairo_lang.Prelude.{
  ℕ, ◌<◌, ◌==◌, ◌≡◌, ◌≢◌, refl, sym, arith, Bool, true, false, Bool-cases, inl, inr, if◌then◌else◌,
}
use pip_cairo_lang.Prelude.Int.{ℤ, pos, ◌*ℤ◌, ◌%ℤ◌, int_laws, *ℤ_parts, eqb_ℤ_iff}
use pip_cairo_lang.Prelude.Mod.{*ℤ_comm, *ℤ_assoc, Cong, Cong-sym, Cong-trans, Cong-mod}
use pip_cairo_lang.Result.{Result, ok, err, ◌>>=◌}
use pip_cairo_lang.MathUtils.{Gcdex, IsBezout, div_mod}
use pip_cairo_lang.MathUtils.DivMod.{div_mod_lem}
use pip_cairo_lang.Compiler.Expr.{Operator, Expr}
use pip_cairo_lang.Compiler.Simplifier.{
  raise_if, constant_last, Parts, Outcome, done, again, turns, rotate, is_const_one, is_const_zero,
  unit_left, unit_right,
}
use pip_cairo_lang.Compiler.Simplifier.Reading.{Former, Reading, operate, meaning}

-- A property of the value, where there is one.
abbrev pub Gives {ℓ} : {A : Type ℓ} → (A → Type 0) → Result A → Type 0
Gives P (ok v) = P v
Gives P (err _) = Unit

pub bind-Gives :
    {A B : Type 0} (P : A → Type 0) (Q : B → Type 0) (m : Result A) (f : A → Result B)
    → Gives P m
    → ((v : A) → P v → Gives Q (f v))
    → Gives Q (m >>= f)
bind-Gives P Q (ok v) f h k = k v h
bind-Gives P Q (err _) f h k = tt

pub map-Gives :
    {A : Type 0} (P Q : A → Type 0) (m : Result A) → ((v : A) → P v → Q v) → Gives P m → Gives Q m
map-Gives P Q (ok v) f h = f v h
map-Gives P Q (err _) f h = tt

of_value : {A : Type 0} (P : A → Type 0) (m : Result A) → ((v : A) → m ≡ ok v → P v) → Gives P m
of_value P (ok v) h = h v refl
of_value P (err _) h = tt

pub raise_if-Gives : (t : Bool) → Gives (λ u. t ≡ false) (raise_if t)
raise_if-Gives true = tt
raise_if-Gives false = refl

pub div_mod-Gives :
    (igcdex : Gcdex) (n m : ℤ) (p : ℕ)
    → IsBezout igcdex
    → 0 < p
    → Gives (λ x. Cong p (m *ℤ x) n) (div_mod igcdex n m p)
div_mod-Gives igcdex n m p documented h = of_value _ _ (λ x e.
    let same = (div_mod_lem igcdex documented n m p x h e).2 in
    Cong-trans p _ (pos ((m *ℤ x) %ℤ p)) _ (Cong-mod p (m *ℤ x) h)
      (rw same (Cong-sym p _ _ (Cong-mod p n h))))

pub nonzero : (n : ℕ) → (n == 0) ≡ false → n ≢ 0
nonzero n h = ground arith

pub one_times : (x : ℤ) → pos 1 *ℤ x ≡ x
one_times x = omega (int_laws, *ℤ_parts (pos 1) x)

module _ (i : Reading) where
  abbrev pub stands : Outcome → ℤ
  stands (done r) = meaning i r
  stands (again e) = meaning i e

  abbrev pub parts : Parts → ℤ
  parts q = operate i q.1 (meaning i q.0) (meaning i q.2)

  pub turned :
      (op op1 : Operator) (a b c : ℤ)
      → turns op op1 ≡ true
      → operate i op1 a (operate i op1 b c) ≡ operate i op (operate i op1 a b) c
  turned Operator.add Operator.add a b c t = omega int_laws
  turned Operator.add Operator.sub a b c t = omega int_laws
  turned Operator.mul Operator.mul a b c t = sym (*ℤ_assoc a b c)
  turned _ _ a b c t = absurd (cc t)

  rotate-meaning :
      (a : Expr) (op : Operator) (b : Expr)
      → stands (rotate a op b) ≡ operate i op (meaning i a) (meaning i b)
  unfolding rotate meaning
  rotate-meaning (Expr.operator a1 op1 b1) op (Expr.const c) = elim (Bool-cases (turns op op1)) [
    | inl t ↦ rw t (turned op op1 (meaning i a1) (meaning i b1) c t)
    | inr f ↦ rw f refl
  ]
  rotate-meaning a op b = refl

  is_const_one-meaning : (a : Expr) → is_const_one a ≡ true → meaning i a ≡ pos 1
  unfolding meaning
  is_const_one-meaning (Expr.const v) h = (eqb_ℤ_iff v (pos 1)).0 h
  is_const_one-meaning _ h = absurd (cc h)

  is_const_zero-meaning : (a : Expr) → is_const_zero a ≡ true → meaning i a ≡ pos 0
  unfolding meaning
  is_const_zero-meaning (Expr.const v) h = (eqb_ℤ_iff v (pos 0)).0 h
  is_const_zero-meaning _ h = absurd (cc h)

  unit_left-meaning :
      (a : Expr) (op : Operator) (b : Expr)
      → stands (unit_left a op b) ≡ operate i op (meaning i a) (meaning i b)
  unfolding unit_left
  unit_left-meaning a Operator.mul b = elim (Bool-cases (is_const_one a)) [
    | inl t ↦ rw (t, is_const_one-meaning a t) (sym (one_times (meaning i b)))
    | inr f ↦ rw f (rotate-meaning a Operator.mul b)
  ]
  unit_left-meaning a op b = rotate-meaning a op b

  -- The operand that is left where the other changes nothing.
  unless_unit :
      (t : Bool) (a : Expr) (op : Operator) (b : Expr)
      → (t ≡ true → meaning i a ≡ operate i op (meaning i a) (meaning i b))
      → stands (if t then done a else unit_left a op b) ≡ operate i op (meaning i a) (meaning i b)
  unless_unit true a op b h = h refl
  unless_unit false a op b h = unit_left-meaning a op b

  module _ (div_one : (x : ℤ) → i.apply Former.quotient x (pos 1) ≡ x) where
    pub unit_right-meaning : (q : Parts) → stands (unit_right q) ≡ parts q
    unfolding unit_right
    unit_right-meaning (a, Operator.add, b) =
        unless_unit (is_const_zero b) a Operator.add b
          (λ t. rw (is_const_zero-meaning b t) (omega int_laws))
    unit_right-meaning (a, Operator.sub, b) =
        unless_unit (is_const_zero b) a Operator.sub b
          (λ t. rw (is_const_zero-meaning b t) (omega int_laws))
    unit_right-meaning (a, Operator.mul, b) = unless_unit (is_const_one b) a Operator.mul b (λ t.
        rw (is_const_one-meaning b t, *ℤ_comm (meaning i a) (pos 1))
          (sym (one_times (meaning i a))))
    unit_right-meaning (a, Operator.div, b) =
        unless_unit (is_const_one b) a Operator.div b
          (λ t. rw (is_const_one-meaning b t) (sym (div_one (meaning i a))))

    pub constant_last-meaning :
        (a : Expr) (op : Operator) (b : Expr)
        → parts (constant_last a op b) ≡ operate i op (meaning i a) (meaning i b)
    constant_last-meaning (Expr.const x) Operator.add b = omega int_laws
    constant_last-meaning a op b = refl
