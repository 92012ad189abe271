-- ===== src/Vm/Deduction/Sound.antt =====
-- A deduced operand gives the result that was assumed for it
-- (`deduce_op0`, `deduce_op1` and `compute_res` of starkware/cairo/lang/vm/vm_core.py).
use pip_cairo_lang.Prelude.{
  ℕ, ◌<◌, ◌≡◌, ◌⊎◌, inl, inr, ap, ◌∙◌, Option, none, some, arith, Bool-cases,
}
use pip_cairo_lang.Prelude.Int.{ℤ, pos, ◌+ℤ◌, ◌-ℤ◌, ◌%ℤ◌, eqb_ℤ, eqb_ℤ_iff, int_laws}
use pip_cairo_lang.Prelude.Mod.{mod_mod, *ℤ_comm}
use pip_cairo_lang.Value.{MaybeRelocatable, int, relocatable}
use pip_cairo_lang.Result.{ok, bind_elim, assert-then, ok-injective, same_segment}
use pip_cairo_lang.Relocatable.{add, sub, mod_prime}
use pip_cairo_lang.MathUtils.{Gcdex, IsBezout, div_mod}
use pip_cairo_lang.MathUtils.DivMod.{div_mod_lem}
use pip_cairo_lang.Instruction.{Res}
use pip_cairo_lang.Vm.Deduction.{deduce_factor, compute_by}

restore : (p : ℕ) (a b : ℤ) → 0 < p → (pos ((a -ℤ b) %ℤ p) +ℤ b) %ℤ p ≡ a %ℤ p
restore p a b h =
    let e : a -ℤ b +ℤ b ≡ a = omega int_laws in mod_mod p (a -ℤ b) b h ∙ ap (λ (t : ℤ). t %ℤ p) e

restore_flip : (p : ℕ) (a b : ℤ) → 0 < p → (b +ℤ pos ((a -ℤ b) %ℤ p)) %ℤ p ≡ a %ℤ p
restore_flip p a b h =
    let e : b +ℤ pos ((a -ℤ b) %ℤ p) ≡ pos ((a -ℤ b) %ℤ p) +ℤ b = omega int_laws in
    ap (λ (t : ℤ). t %ℤ p) e ∙ restore p a b h

-- What is added to the subtrahend gives the minuend, modulo the prime, in either order.
difference_sound :
    (p : ℕ) (a b d : MaybeRelocatable)
    → 0 < p
    → sub a b ≡ ok d
    → (compute_by p Res.add (mod_prime d p) b ≡ ok (some (mod_prime a p)))
      × (compute_by p Res.add b (mod_prime d p) ≡ ok (some (mod_prime a p)))
unfolding add sub mod_prime
difference_sound p (int a) (int b) d h e =
    rw (← ok-injective e) (rw (restore p a b h), rw (restore_flip p a b h))
difference_sound p (relocatable a) (int b) d h e =
    rw (← ok-injective e) (rw (restore p a.offset b h), rw (restore p a.offset b h))
difference_sound p (relocatable a) (relocatable b) d h e =
    let (same, result) = assert-then (eqb_ℤ a.segment_index b.segment_index) same_segment _ e in
    let segment = (eqb_ℤ_iff a.segment_index b.segment_index).0 same in
    rw (← ok-injective result) (
      rw (restore_flip p a.offset b.offset h, segment),
      rw (restore_flip p a.offset b.offset h, segment),
    )
difference_sound p (int a) (relocatable b) d h e = absurd (cc e)

-- A product with the quotient is the dividend, modulo the prime, in either order.
module _ (igcdex : Gcdex) (documented : IsBezout igcdex) (p : ℕ) (h : 0 < p) where
  quotient_sound :
      (a b q : ℤ)
      → div_mod igcdex a b p ≡ ok q
      → (compute_by p Res.mul (int q) (int b) ≡ ok (some (mod_prime (int a) p)))
        × (compute_by p Res.mul (int b) (int q) ≡ ok (some (mod_prime (int a) p)))
  unfolding mod_prime
  quotient_sound a b q e =
      let product = (div_mod_lem igcdex documented a b p q h e).2 in
      (rw (*ℤ_comm q b, product), rw product)

  -- Where a factor is deduced with the result, the result is the destination, and it is what the
  -- instruction computes from the deduced operand and the known one.
  pub deduced_factor :
      (r : Res) (dst known : Option MaybeRelocatable) (k x res : MaybeRelocatable)
      → ((known ≡ none) ⊎ (known ≡ some k))
      → deduce_factor igcdex p r dst known ≡ ok (some x, some res)
      → (dst ≡ some res)
        × (compute_by p r x k ≡ ok (some (mod_prime res p)))
        × (compute_by p r k x ≡ ok (some (mod_prime res p)))
  deduced_factor Res.add (some a) (some b) k x res same e = bind_elim _ _ e λ d hd e'.
      let known : b ≡ k = ground (arith, same) in
      let value : mod_prime d p ≡ x = cc e' in
      let result : a ≡ res = cc e' in
      let (left, right) = difference_sound p a b d h hd in
      (rw result, rw (← value, ← result, ← known) left, rw (← value, ← result, ← known) right)
  deduced_factor Res.mul (some (int a)) (some (int b)) k x res same e =
      elim (Bool-cases (eqb_ℤ b (pos 0))) [
        | inl zero_divisor ↦ absurd (cc (rw zero_divisor at e))
        | inr divisor ↦ bind_elim (div_mod igcdex a b p) _ (rw divisor at e) λ q hq e'.
            let known : int b ≡ k = ground (arith, same) in
            let value : int q ≡ x = cc e' in
            let result : int a ≡ res = cc e' in
            let (left, right) = quotient_sound a b q hq in
            (rw result, rw (← value, ← result, ← known) left, rw (← value, ← result, ← known) right)
      ]
  deduced_factor _ dst known k x res same e = absurd (cc e)
