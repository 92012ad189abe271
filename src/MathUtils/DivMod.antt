-- ===== src/MathUtils/DivMod.antt =====
-- Division in a prime field (`div_mod` of starkware/python/math_utils.py).
use pip_cairo_lang.Prelude.{ℕ, ◌*◌, ◌<◌, ◌≡◌, refl, sym, ap, ◌∙◌, arith, true}
use pip_cairo_lang.Prelude.Int.{
  ℤ, pos, negsuc, pos_part, ◌+ℤ◌, ◌*ℤ◌, ◌%ℤ◌, ◌≤ℤ◌, eqb_ℤ, eqb_ℤ_iff, int_laws, *ℤ_parts,
}
use pip_cairo_lang.Prelude.Mod.{
  *ℤ_comm, *ℤ_assoc, *ℤ_distrib, parts_of_eq, Cong, %ℤ-Cong, %ℤ-lt, Cong-mod, Cong-sym, Cong-mul,
  Cong-trans,
}
use pip_cairo_lang.Result.{ok, assert-then, ok-injective, not_coprime}
use pip_cairo_lang.MathUtils.{Gcdex, IsBezout, IsDivisor, div_mod}

-- m * (n * a) is n modulo p where m * a + p * b = 1.
bezout-Cong : (n m a b : ℤ) (p : ℕ) → m *ℤ a +ℤ pos p *ℤ b ≡ pos 1 → Cong p n (m *ℤ (n *ℤ a))
bezout-Cong n m a b p e =
    let one : n *ℤ pos 1 ≡ n = omega (int_laws, *ℤ_parts n (pos 1)) in
    let left : n *ℤ (m *ℤ a) ≡ m *ℤ (n *ℤ a) =
      sym (*ℤ_assoc n m a) ∙ (ap (λ (t : ℤ). t *ℤ a) (*ℤ_comm n m) ∙ *ℤ_assoc m n a) in
    let right : n *ℤ (pos p *ℤ b) ≡ pos p *ℤ (n *ℤ b) =
      sym (*ℤ_assoc n (pos p) b)
      ∙ (ap (λ (t : ℤ). t *ℤ b) (*ℤ_comm n (pos p)) ∙ *ℤ_assoc (pos p) n b) in
    (
      n *ℤ b,
      sym one
          ∙ (ap (λ (t : ℤ). n *ℤ t) (sym e) ∙ rw (*ℤ_distrib n (m *ℤ a) (pos p *ℤ b), left, right)),
    )

module _ (igcdex : Gcdex) (documented : IsBezout igcdex) where
  -- A quotient that is found is a remainder modulo p, and multiplied by the divisor it gives the
  -- dividend modulo p.
  pub div_mod_lem :
      (n m : ℤ) (p : ℕ) (x : ℤ)
      → 0 < p
      → div_mod igcdex n m p ≡ ok x
      → (pos 0 ≤ℤ x) × (pos_part x < p) × ((m *ℤ x) %ℤ p ≡ n %ℤ p)
  unfolding div_mod
  div_mod_lem n m p x h e =
      let a = (igcdex m (pos p)).0 in
      let b = (igcdex m (pos p)).1 in
      let c = (igcdex m (pos p)).2 in
      let (coprime, result) = assert-then (eqb_ℤ c (pos 1)) not_coprime _ e in
      let unit : m *ℤ a +ℤ pos p *ℤ b ≡ pos 1 =
        documented.bezout m (pos p) ∙ (eqb_ℤ_iff c (pos 1)).0 coprime in
      let value : pos ((n *ℤ a) %ℤ p) ≡ x = ok-injective result in
      let product : Cong p (m *ℤ pos ((n *ℤ a) %ℤ p)) n =
        Cong-trans p _ (m *ℤ (n *ℤ a)) n (Cong-mul p _ _ m (Cong-sym p _ _ (Cong-mod p (n *ℤ a) h)))
          (Cong-sym p _ _ (bezout-Cong n m a b p unit)) in
      rw (← value) (omega arith, %ℤ-lt (n *ℤ a) p h, %ℤ-Cong p _ _ h product)

unit_factor : (g : ℕ) (t : ℤ) → pos g *ℤ t ≡ pos 1 → g ≡ 1
unit_factor g (pos n) e = small g n (omega (arith, *ℤ_parts (pos g) (pos n), parts_of_eq e))
  where
    small : (g n : ℕ) → g * n ≡ 1 → g ≡ 1
    small g n e = grind arith
unit_factor g (negsuc n) e = absurd (omega (arith, *ℤ_parts (pos g) (negsuc n), parts_of_eq e))

common_factor :
    (c k l m q u v : ℤ)
    → m ≡ c *ℤ k
    → q ≡ c *ℤ l
    → m *ℤ u +ℤ q *ℤ v ≡ pos 1
    → c *ℤ (k *ℤ u +ℤ l *ℤ v) ≡ pos 1
common_factor c k l m q u v em eq unit =
    rw (*ℤ_distrib c (k *ℤ u) (l *ℤ v), ← *ℤ_assoc c k u, ← *ℤ_assoc c l v, ← em, ← eq) unit

module _ (igcdex : Gcdex) (m : ℤ) (p : ℕ) (documented : IsDivisor igcdex m (pos p)) where
  gcd_one : (u v : ℤ) → m *ℤ u +ℤ pos p *ℤ v ≡ pos 1 → (igcdex m (pos p)).2 ≡ pos 1
  gcd_one u v unit =
      let c = (igcdex m (pos p)).2 in
      let (k, ek) = documented.divides_left in
      let (l, el) = documented.divides_right in
      let e : c ≡ pos (pos_part c) = nonneg c documented.nonneg in
      let f : pos (pos_part c) *ℤ (k *ℤ u +ℤ l *ℤ v) ≡ pos 1 =
        rw (← e) (common_factor c k l m (pos p) u v ek el unit) in
      e ∙ ap pos (unit_factor (pos_part c) _ f)
    where
      nonneg : (c : ℤ) → pos 0 ≤ℤ c → c ≡ pos (pos_part c)
      nonneg (pos n) h = refl
      nonneg (negsuc n) h = absurd (omega arith)

  -- A divisor that has an inverse modulo p never fails the assertion.
  pub div_mod_succeeds :
      (n u v : ℤ) → m *ℤ u +ℤ pos p *ℤ v ≡ pos 1 → (x : ℤ) × (div_mod igcdex n m p ≡ ok x)
  unfolding div_mod
  div_mod_succeeds n u v unit =
      let one : eqb_ℤ (igcdex m (pos p)).2 (pos 1) ≡ true = (eqb_ℤ_iff _ _).1 (gcd_one u v unit) in
      (pos ((n *ℤ (igcdex m (pos p)).0) %ℤ p), rw one)
