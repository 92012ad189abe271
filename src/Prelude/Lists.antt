-- ===== src/Prelude/Lists.antt =====
-- Lists measured by native numbers, under the library's names.
use Prim.Native.Nat.{ℕ, zero, suc, ◌+◌}
use mathlib.Core.Path.{◌≡◌, refl, ap, ◌∙◌}
use mathlib.Core.List.{List, [], ◌∷◌, ◌++◌, reverse, reverse-append}
use native.Mathlib.Omega.{arith}

module _ {ℓ} {A : Type ℓ} where
  abbrev pub length : List A → ℕ
  length [] = 0
  length (x ∷ xs) = suc (length xs)

  abbrev pub take : ℕ → List A → List A
  take zero xs = []
  take (suc n) [] = []
  take (suc n) (x ∷ xs) = x ∷ take n xs

  abbrev pub drop : ℕ → List A → List A
  drop zero xs = xs
  drop (suc n) [] = []
  drop (suc n) (x ∷ xs) = drop n xs

  pub length-append : (xs ys : List A) → length (xs ++ ys) ≡ length xs + length ys
  length-append [] ys = omega arith
  length-append (x ∷ xs) ys = omega (arith, length-append xs ys)

module _ {ℓ} {A : Type ℓ} where
  pub length-reverse : (xs : List A) → length (reverse xs) ≡ length xs
  length-reverse [] = refl
  length-reverse (x ∷ xs) =
      ap length (reverse-append (x ∷ []) xs)
      ∙ omega (arith, length-append (reverse xs) (x ∷ []), length-reverse xs)

-- A predicate on every element computes to a tuple, which the tactics read and build.
abbrev pub All {ℓ κ} : {Item : Type ℓ} → (Item → Type κ) → List Item → Type κ
All holds [] = Unit
All holds (item ∷ items) = holds item × All holds items

module _ {ℓ} {A : Type ℓ} where
  pub take-++ : (n : ℕ) (xs ys : List A) → length xs ≡ n → take n (xs ++ ys) ≡ xs
  take-++ zero [] ys h = refl
  take-++ (suc n) [] ys h = absurd (omega arith)
  take-++ zero (x ∷ xs) ys h = absurd (omega arith)
  take-++ (suc n) (x ∷ xs) ys h = ap (λ (t : List A). x ∷ t) (take-++ n xs ys (omega arith))

  pub drop-++ : (n : ℕ) (xs ys : List A) → length xs ≡ n → drop n (xs ++ ys) ≡ ys
  drop-++ zero [] ys h = refl
  drop-++ (suc n) [] ys h = absurd (omega arith)
  drop-++ zero (x ∷ xs) ys h = absurd (omega arith)
  drop-++ (suc n) (x ∷ xs) ys h = drop-++ n xs ys (omega arith)
