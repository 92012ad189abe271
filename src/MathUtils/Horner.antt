-- ===== src/MathUtils/Horner.antt =====
-- Horner's rule in a prime field (`horner_eval` of starkware/python/math_utils.py).
use mathlib.Core.List.{reverse, reverse-append}
use pip_cairo_lang.Prelude.{ℕ, ◌<◌, ◌≡◌, refl, sym, ap, ◌∙◌, List, [], ◌∷◌, ◌++◌}
use pip_cairo_lang.Prelude.Int.{ℤ, pos, ◌+ℤ◌, ◌*ℤ◌, ◌%ℤ◌, int_laws}
use pip_cairo_lang.Prelude.Mod.{*ℤ_comm, Cong-mod, Cong-sym, Cong-mul, Cong-add, %ℤ-Cong, mod_small}
use pip_cairo_lang.MathUtils.{horner_loop, horner_eval}

-- c0 + x * (c1 + x * (c2 + ...)), over the integers.
abbrev pub polynomial : List ℤ → ℤ → ℤ
polynomial [] x = pos 0
polynomial (c ∷ cs) x = c +ℤ x *ℤ polynomial cs x

abbrev round : ℤ → ℕ → ℤ → ℤ → ℤ
round x p res c = pos ((res *ℤ x +ℤ c) %ℤ p)

loop-snoc :
    (x : ℤ) (p : ℕ) (cs : List ℤ) (c res : ℤ)
    → horner_loop x p (cs ++ c ∷ []) res ≡ round x p (horner_loop x p cs res) c
unfolding horner_loop
loop-snoc x p [] c res = refl
loop-snoc x p (d ∷ cs) c res = loop-snoc x p cs c (round x p res d)

round-polynomial :
    (x : ℤ) (p : ℕ) (c v : ℤ) → 0 < p → round x p (pos (v %ℤ p)) c ≡ pos ((c +ℤ x *ℤ v) %ℤ p)
round-polynomial x p c v h =
    let r = pos (v %ℤ p) in
    let e : r *ℤ x +ℤ c ≡ x *ℤ r +ℤ c = ap (λ (t : ℤ). t +ℤ c) (*ℤ_comm r x) in
    let f : x *ℤ v +ℤ c ≡ c +ℤ x *ℤ v = omega int_laws in
    let g : (x *ℤ r +ℤ c) %ℤ p ≡ (x *ℤ v +ℤ c) %ℤ p =
      %ℤ-Cong p _ _ h (Cong-add p _ _ c (Cong-mul p r v x (Cong-sym p v r (Cong-mod p v h)))) in
    ap pos (ap (λ (t : ℤ). t %ℤ p) e ∙ (g ∙ ap (λ (t : ℤ). t %ℤ p) f))

-- The value of the polynomial in the field: the coefficients are taken from the lowest on.
pub horner_eval_lem :
    (coefs : List ℤ) (x : ℤ) (p : ℕ) → 0 < p → horner_eval coefs x p ≡ pos (polynomial coefs x %ℤ p)
unfolding horner_eval horner_loop
horner_eval_lem [] x p h = ap pos (sym (mod_small p 0 h))
horner_eval_lem (c ∷ cs) x p h =
    ap (λ (t : List ℤ). horner_loop x p t (pos 0)) (reverse-append (c ∷ []) cs)
    ∙ (loop-snoc x p (reverse cs) c (pos 0)
        ∙ (ap (λ (t : ℤ). round x p t c) (horner_eval_lem cs x p h) ∙ round-polynomial x p c _ h))
