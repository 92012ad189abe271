-- ===== src/Compiler/Meaning/Arithmetic.antt =====
-- Arithmetic on reduced values gives the reduced result
-- (starkware/cairo/lang/vm/relocatable.py).
use pip_cairo_lang.Prelude.{ℕ, ◌<◌, ◌≡◌, refl, ap, ◌∙◌}
use pip_cairo_lang.Prelude.Int.{ℤ, pos, negsuc, ◌+ℤ◌, ◌-ℤ◌, ◌*ℤ◌, ◌%ℤ◌, int_laws, *ℤ_parts}
use pip_cairo_lang.Prelude.Mod.{*ℤ_comm, mod_mod, Cong-mod, Cong-add, Cong-mul, Cong-sym, %ℤ-Cong}
use pip_cairo_lang.Value.{MaybeRelocatable, int, relocatable}
use pip_cairo_lang.Result.{ok, ok-injective}
use pip_cairo_lang.Relocatable.{add, sub, mod_prime}
use pip_cairo_lang.Compiler.Meaning.{times}

abbrev reduced : ℤ → ℕ → ℤ
reduced a p = pos (a %ℤ p)

module _ (p : ℕ) (h : 0 < p) where
  add_reduced : (a b : ℤ) → (reduced a p +ℤ reduced b p) %ℤ p ≡ (a +ℤ b) %ℤ p
  add_reduced a b =
      let swap : reduced a p +ℤ reduced b p ≡ reduced b p +ℤ reduced a p = omega int_laws in
      let swap' : b +ℤ reduced a p ≡ reduced a p +ℤ b = omega int_laws in
      ap (λ (t : ℤ). t %ℤ p) swap
      ∙ (mod_mod p b (reduced a p) h ∙ (ap (λ (t : ℤ). t %ℤ p) swap' ∙ mod_mod p a b h))

  mul_reduced : (a b : ℤ) → (reduced a p *ℤ reduced b p) %ℤ p ≡ (a *ℤ b) %ℤ p
  mul_reduced a b =
      let first =
        Cong-mul p (reduced b p) b (reduced a p) (Cong-sym p b (reduced b p) (Cong-mod p b h)) in
      let second = Cong-mul p (reduced a p) a b (Cong-sym p a (reduced a p) (Cong-mod p a h)) in
      %ℤ-Cong p _ _ h first
      ∙ (ap (λ (t : ℤ). t %ℤ p) (*ℤ_comm (reduced a p) b)
          ∙ (%ℤ-Cong p _ _ h second ∙ ap (λ (t : ℤ). t %ℤ p) (*ℤ_comm b a)))

  -- a - b is a + (-1) * b.
  sub_reduced : (a b : ℤ) → (reduced a p -ℤ reduced b p) %ℤ p ≡ (a +ℤ negsuc 0 *ℤ b) %ℤ p
  sub_reduced a b =
      let minus : reduced a p -ℤ reduced b p ≡ negsuc 0 *ℤ reduced b p +ℤ reduced a p =
        omega (int_laws, *ℤ_parts (negsuc 0) (reduced b p)) in
      let swap : negsuc 0 *ℤ b +ℤ reduced a p ≡ reduced a p +ℤ negsuc 0 *ℤ b = omega int_laws in
      let same =
        Cong-mul p (reduced b p) b (negsuc 0) (Cong-sym p b (reduced b p) (Cong-mod p b h)) in
      ap (λ (t : ℤ). t %ℤ p) minus
      ∙ (%ℤ-Cong p _ _ h (Cong-add p (negsuc 0 *ℤ reduced b p) (negsuc 0 *ℤ b) (reduced a p) same)
          ∙ (ap (λ (t : ℤ). t %ℤ p) swap ∙ mod_mod p a (negsuc 0 *ℤ b) h))

  -- Sums, differences and products.
  pub add-mod_prime :
      (x y s : MaybeRelocatable)
      → add x y ≡ ok s
      → (q : MaybeRelocatable) × (add (mod_prime x p) (mod_prime y p) ≡ ok q)
        × (mod_prime q p ≡ mod_prime s p)
  unfolding add mod_prime
  add-mod_prime (int a) (int b) s e = (
    int (reduced a p +ℤ reduced b p),
    refl,
    rw (← ok-injective e) (ap (λ (n : ℕ). int (pos n)) (add_reduced a b)),
  )
  add-mod_prime (relocatable a) (int b) s e = (
    _,
    refl,
    rw (← ok-injective e)
        (ap (λ (n : ℕ). relocatable (record a { offset = pos n })) (add_reduced a.offset b)),
  )
  add-mod_prime (int a) (relocatable b) s e = (
    _,
    refl,
    rw (← ok-injective e)
        (ap (λ (n : ℕ). relocatable (record b { offset = pos n })) (add_reduced b.offset a)),
  )
  add-mod_prime (relocatable a) (relocatable b) s e = absurd (cc e)

  pub times-mod_prime :
      (a b : ℤ)
      → (q : MaybeRelocatable) × (times (mod_prime (int a) p) (mod_prime (int b) p) ≡ ok q)
        × (mod_prime q p ≡ int (pos ((a *ℤ b) %ℤ p)))
  unfolding mod_prime
  times-mod_prime a b =
      (int (reduced a p *ℤ reduced b p), refl, ap (λ (n : ℕ). int (pos n)) (mul_reduced a b))

  -- A constant that is taken off is its negation, added.
  pub sub-mod_prime :
      (x s : MaybeRelocatable) (v : ℤ)
      → add x (int (negsuc 0 *ℤ v)) ≡ ok s
      → (q : MaybeRelocatable) × (sub (mod_prime x p) (int (pos (v %ℤ p))) ≡ ok q)
        × (mod_prime q p ≡ mod_prime s p)
  unfolding add sub mod_prime
  sub-mod_prime (int a) s v e =
      (_, refl, rw (← ok-injective e) (ap (λ (n : ℕ). int (pos n)) (sub_reduced a v)))
  sub-mod_prime (relocatable a) s v e = (
    _,
    refl,
    rw (← ok-injective e)
        (ap (λ (n : ℕ). relocatable (record a { offset = pos n })) (sub_reduced a.offset v)),
  )
