-- ===== src/Vm/Deduction/Agrees.antt =====
-- A result that is deduced with an operand is that of the operands, modulo the prime
-- (`deduce_op0` and `deduce_op1` of starkware/cairo/lang/vm/vm_core.py).
use pip_cairo_lang.Prelude.{
  ℕ, ◌<◌, ◌≡◌, refl, sym, ap, ◌∙◌, ◌⊎◌, inl, inr, Option, none, some, Bool-cases,
}
use pip_cairo_lang.Prelude.Int.{pos, eqb_ℤ, ◌%ℤ◌}
use pip_cairo_lang.Prelude.Mod.{%ℤ-lt, mod_small}
use pip_cairo_lang.Value.{MaybeRelocatable, int, relocatable}
use pip_cairo_lang.Result.{ok, bind_elim, ok-injective}
use pip_cairo_lang.Relocatable.{add, sub, mod_prime}
use pip_cairo_lang.MathUtils.{Gcdex, IsBezout, div_mod}
use pip_cairo_lang.Instruction.{Res, Opcode, Instruction, size}
use pip_cairo_lang.Vm.State.{RunContext}
use pip_cairo_lang.Vm.Deduction.{
  Deduced, deduce_factor, deduce_first_by, deduce_op0, deduce_term, deduce_second_by, deduce_op1,
  compute_by,
}
use pip_cairo_lang.Vm.Deduction.Sound.{deduced_factor}

pub mod_prime-mod_prime :
    (v : MaybeRelocatable) (p : ℕ) → 0 < p → mod_prime (mod_prime v p) p ≡ mod_prime v p
unfolding mod_prime
mod_prime-mod_prime (int v) p h = ap (λ (n : ℕ). int (pos n)) (mod_small p (v %ℤ p) (%ℤ-lt v p h))
mod_prime-mod_prime (relocatable v) p h =
    ap (λ (n : ℕ). relocatable (record v { offset = pos n }))
      (mod_small p (v.offset %ℤ p) (%ℤ-lt v.offset p h))

-- `res` is what the two operands give, modulo the prime.
abbrev pub Agrees : ℕ → Res → MaybeRelocatable → MaybeRelocatable → MaybeRelocatable → Type 0
Agrees p r op0 op1 res =
    (q : MaybeRelocatable) × (compute_by p r op0 op1 ≡ ok (some q))
    × (mod_prime q p ≡ mod_prime res p)

-- A result comes with its operand.
abbrev Paired : Deduced → MaybeRelocatable → Type 0
Paired d res = (x : MaybeRelocatable) × (d ≡ (some x, some res))

paired :
    (x a res : MaybeRelocatable) (d : Deduced)
    → Path Deduced (some x, some a) d
    → d.1 ≡ some res
    → Paired d res
paired x a res d same e =
    let last : Option.some a ≡ some res = ap (λ (q : Deduced). q.1) same ∙ e in
    (x, sym same ∙ ap {B = Deduced} (λ (o : Option MaybeRelocatable). (some x, o)) last)

unpaired :
    (x : Option MaybeRelocatable) (res : MaybeRelocatable) (d : Deduced)
    → Path Deduced (x, none) d
    → d.1 ≡ some res
    → Paired d res
unpaired x res d same e = absurd (cc (ap (λ (q : Deduced). q.1) same))

factor_Paired :
    (igcdex : Gcdex) (p : ℕ) (r : Res) (dst known : Option MaybeRelocatable) (d : Deduced)
    (res : MaybeRelocatable)
    → deduce_factor igcdex p r dst known ≡ ok d
    → d.1 ≡ some res
    → Paired d res
factor_Paired igcdex p Res.add (some a) (some b) d res h e =
    bind_elim (sub a b) _ h λ v hv h1. paired (mod_prime v p) a res d (ok-injective h1) e
factor_Paired igcdex p Res.mul (some (int a)) (some (int b)) d res h e =
    elim (Bool-cases (eqb_ℤ b (pos 0))) [
      | inl zero_divisor ↦ unpaired none res d (ok-injective (rw zero_divisor at h)) e
      | inr divisor ↦
          bind_elim (div_mod igcdex a b p) _ (rw divisor at h)
            λ q hq h1. paired (int q) (int a) res d (ok-injective h1) e
    ]
factor_Paired igcdex p _ dst known d res h e = unpaired none res d (ok-injective h) e

term_Paired :
    (igcdex : Gcdex) (p : ℕ) (r : Res) (dst known : Option MaybeRelocatable) (d : Deduced)
    (res : MaybeRelocatable)
    → deduce_term igcdex p r dst known ≡ ok d
    → d.1 ≡ some res
    → Paired d res
term_Paired igcdex p Res.op1 (some a) known d res h e = paired a a res d (ok-injective h) e
term_Paired igcdex p r dst known d res h e = factor_Paired igcdex p r dst known d res h e

module _ (igcdex : Gcdex) (documented : IsBezout igcdex) (p : ℕ) (h : 0 < p) where
  factor_Agrees :
      (r : Res) (dst known : Option MaybeRelocatable) (k x res : MaybeRelocatable)
      → ((known ≡ none) ⊎ (known ≡ some k))
      → deduce_factor igcdex p r dst known ≡ ok (some x, some res)
      → Agrees p r x k res × Agrees p r k x res
  factor_Agrees r dst known k x res same e =
      let (_, left, right) = deduced_factor igcdex documented p h r dst known k x res same e in
      let reduced = mod_prime-mod_prime res p h in
      ((mod_prime res p, left, reduced), (mod_prime res p, right, reduced))

  term_Agrees :
      (r : Res) (dst op0 : Option MaybeRelocatable) (k x res : MaybeRelocatable)
      → ((op0 ≡ none) ⊎ (op0 ≡ some k))
      → deduce_term igcdex p r dst op0 ≡ ok (some x, some res)
      → Agrees p r k x res
  term_Agrees Res.op1 (some a) op0 k x res same e =
      let value : x ≡ res = cc e in (res, ap (λ (v : MaybeRelocatable). ok (some v)) value, refl)
  term_Agrees Res.op1 none op0 k x res same e = absurd (cc e)
  term_Agrees r dst op0 k x res same e = (factor_Agrees r dst op0 k x res same e).1

module _ (igcdex : Gcdex) (documented : IsBezout igcdex) (c : RunContext) (h : 0 < c.prime) where
  first_by_Agrees :
      (i : Instruction) (o : Opcode) (dst op1 : Option MaybeRelocatable) (k res : MaybeRelocatable)
      (d : Deduced)
      → ((op1 ≡ none) ⊎ (op1 ≡ some k))
      → deduce_first_by igcdex c i o dst op1 ≡ ok d
      → d.1 ≡ some res
      → (x : MaybeRelocatable) × (d.0 ≡ some x) × Agrees c.prime i.res x k res
  first_by_Agrees i Opcode.call dst op1 k res d same e last =
      bind_elim (add c.pc (int (pos (size i)))) _ e
        λ pc hpc e1. absurd (cc (ap (λ (q : Deduced). q.1) (ok-injective e1)))
  first_by_Agrees i Opcode.assert_eq dst op1 k res d same e last =
      let (x, pair) = factor_Paired igcdex c.prime i.res dst op1 d res e last in
      (
        x,
        ap (λ (q : Deduced). q.0) pair,
        (factor_Agrees igcdex documented c.prime h i.res dst op1 k x res same (e ∙ ap ok pair)).0,
      )
  first_by_Agrees i _ dst op1 k res d same e last =
      absurd (cc (ap (λ (q : Deduced). q.1) (ok-injective e)))

  second_by_Agrees :
      (i : Instruction) (o : Opcode) (dst op0 : Option MaybeRelocatable) (k res : MaybeRelocatable)
      (d : Deduced)
      → ((op0 ≡ none) ⊎ (op0 ≡ some k))
      → deduce_second_by igcdex c i o dst op0 ≡ ok d
      → d.1 ≡ some res
      → (x : MaybeRelocatable) × (d.0 ≡ some x) × Agrees c.prime i.res k x res
  second_by_Agrees i Opcode.assert_eq dst op0 k res d same e last =
      let (x, pair) = term_Paired igcdex c.prime i.res dst op0 d res e last in
      (
        x,
        ap (λ (q : Deduced). q.0) pair,
        term_Agrees igcdex documented c.prime h i.res dst op0 k x res same (e ∙ ap ok pair),
      )
  second_by_Agrees i _ dst op0 k res d same e last =
      absurd (cc (ap (λ (q : Deduced). q.1) (ok-injective e)))

  pub deduce_op0-Agrees :
      (i : Instruction) (dst op1 : Option MaybeRelocatable) (k res : MaybeRelocatable) (d : Deduced)
      → ((op1 ≡ none) ⊎ (op1 ≡ some k))
      → deduce_op0 igcdex c i dst op1 ≡ ok d
      → d.1 ≡ some res
      → (x : MaybeRelocatable) × (d.0 ≡ some x) × Agrees c.prime i.res x k res
  unfolding deduce_op0
  deduce_op0-Agrees i dst op1 k res d same e last =
      first_by_Agrees i i.opcode dst op1 k res d same e last

  pub deduce_op1-Agrees :
      (i : Instruction) (dst op0 : Option MaybeRelocatable) (k res : MaybeRelocatable) (d : Deduced)
      → ((op0 ≡ none) ⊎ (op0 ≡ some k))
      → deduce_op1 igcdex c i dst op0 ≡ ok d
      → d.1 ≡ some res
      → (x : MaybeRelocatable) × (d.0 ≡ some x) × Agrees c.prime i.res k x res
  unfolding deduce_op1
  deduce_op1-Agrees i dst op0 k res d same e last =
      second_by_Agrees i i.opcode dst op0 k res d same e last
