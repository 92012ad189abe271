-- ===== src/Exec.antt =====
-- Methods that change an object and may raise. What was written before a raise stays written, so
-- the state comes back beside the error too.
pub mod Steps
use pip_cairo_lang.Result.{Error, Result, ok, err}

abbrev pub Exec : Type 0 → Type 0 → Type 0
Exec S A = S → Result A × S

abbrev pub wrapped : {A : Type 0} → (Error → Error) → Result A → Result A
wrapped wrap (ok a) = ok a
wrapped wrap (err e) = err (wrap e)

module _ {S A : Type 0} where
  unfoldable pub pure : A → Exec S A
  pure a s = (ok a, s)

  -- a function of the state that may raise
  unfoldable pub asks : (S → Result A) → Exec S A
  asks f s = (f s, s)

  -- `try: m except Exception as exc: raise wrap(exc) from None`
  unfoldable pub rethrow : (S → Error → Error) → Exec S A → Exec S A
  rethrow wrap m s = let (r, s') = m s in (wrapped (wrap s') r, s')

unfoldable pub modify : {S : Type 0} → (S → S) → Exec S (Unit {0})
modify f s = (ok tt, f s)

module _ {S A B : Type 0} where
  -- A raise ends the sequence where the state is.
  abbrev pub continue : Result A → (A → Exec S B) → Exec S B
  continue (err raised) next now = (err raised, now)
  continue (ok value) next now = next value now

  infixl 5 ◌>>=◌ ◌>>◌
  -- opening this opens the actions above too
  unfoldable pub ◌>>=◌ : Exec S A → (A → Exec S B) → Exec S B
  unfolding pure asks rethrow modify
  ◌>>=◌ action next now = let (result, later) = action now in continue result next later

  abbrev pub ◌>>◌ : Exec S A → Exec S B → Exec S B
  first >> second = first >>= λ _. second
