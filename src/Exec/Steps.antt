-- ===== src/Exec/Steps.antt =====
-- How an action moves its state, whether it returns or raises: a rule for each way to build one.
use pip_cairo_lang.Prelude.{◌≡◌, refl, sym, ap, ◌∙◌, Bool, true, false, if◌then◌else◌}
use pip_cairo_lang.Result.{Error, Result, ok, err, ok-injective}
use pip_cairo_lang.Exec.{Exec, pure, asks, rethrow, modify, ◌>>=◌, ◌>>◌, continue, wrapped}

pub record Moves {S A : Type 0} (R : S → S → Type 0) (m : Exec S A) : Type 0 where
  pub at : (s : S) → R s (m s).1

-- A relation of states that composes.
pub record IsPreorder {S : Type 0} (R : S → S → Type 0) : Type 0 where
  pub refl : (s : S) → R s s
  pub trans : (s t u : S) → R s t → R t u → R s u

module _ {S : Type 0} {R : S → S → Type 0} (order : IsPreorder R) where
  pub Moves-pure : {A : Type 0} (a : A) → Moves R (pure a)
  unfolding pure
  Moves-pure a = record { at = λ s. order.refl s }

  pub Moves-asks : {A : Type 0} (f : S → Result A) → Moves R (asks f)
  unfolding asks
  Moves-asks f = record { at = λ s. order.refl s }

  Moves-continue :
      {A B : Type 0} (r : Result A) (f : A → Exec S B) (s : S)
      → ((a : A) → Moves R (f a))
      → R s (continue r f s).1
  Moves-continue (ok a) f s kf = (kf a).at s
  Moves-continue (err e) f s kf = order.refl s

  pub Moves-bind :
      {A B : Type 0} (m : Exec S A) (f : A → Exec S B)
      → Moves R m
      → ((a : A) → Moves R (f a))
      → Moves R (m >>= f)
  unfolding ◌>>=◌
  Moves-bind m f km kf = record {
    at = λ s. let (r, s') = m s in order.trans s s' _ (km.at s) (Moves-continue r f s' kf);
  }

pub Moves-rethrow :
    {S A : Type 0} {R : S → S → Type 0} (wrap : S → Error → Error) (m : Exec S A)
    → Moves R m
    → Moves R (rethrow wrap m)
unfolding rethrow
Moves-rethrow wrap m km = record { at = λ s. km.at s }

pub if-Moves :
    {S A : Type 0} {R : S → S → Type 0} (b : Bool) (m n : Exec S A)
    → Moves R m
    → Moves R n
    → Moves R (if b then m else n)
if-Moves true m n km kn = km
if-Moves false m n km kn = kn

-- `m` returns `a` and leaves the state `t`.
abbrev pub Returns : {S A : Type 0} → Exec S A → S → A → S → Type 0
Returns m s a t = m s ≡ (ok a, t)

-- A sequence that returns has returned at each of its parts.
pub run_elim :
    {S A B C : Type 0} (m : Exec S A) (f : A → Exec S B) (s : S) {b : B} {t : S}
    → Returns (m >>= f) s b t
    → ((a : A) (s' : S) → Returns m s a s' → Returns (f a) s' b t → C)
    → C
unfolding ◌>>=◌
run_elim {S} {A} {B} {C} m f s {b} {t} h k = go (m s) refl h
  where
    go : (p : Result A × S) → m s ≡ p → continue p.0 f p.1 ≡ (ok b, t) → C
    go (ok a, s') e h = k a s' e h
    go (err x, s') e h = absurd (cc (ap (λ (q : Result B × S). q.0) h))

pub asks_elim :
    {S A B C : Type 0} (g : S → Result A) (f : A → Exec S B) (s : S) {b : B} {t : S}
    → Returns (asks g >>= f) s b t
    → ((a : A) → g s ≡ ok a → Returns (f a) s b t → C)
    → C
unfolding ◌>>=◌
asks_elim {S} {A} {B} {C} g f s {b} {t} h k = go (g s) refl h
  where
    go : (r : Result A) → g s ≡ r → continue r f s ≡ (ok b, t) → C
    go (ok a) e h = k a e h
    go (err x) e h = absurd (cc (ap (λ (q : Result B × S). q.0) h))

pub modify_then :
    {S B : Type 0} (g : S → S) (m : Exec S B) (s : S) {b : B} {t : S}
    → Returns (modify g >> m) s b t
    → Returns m (g s) b t
unfolding ◌>>=◌
modify_then g m s h = h

pub modify-Returns : {S : Type 0} (g : S → S) (s : S) {t : S} → Returns (modify g) s tt t → t ≡ g s
unfolding modify
modify-Returns {S} g s h = sym (ap (λ (q : Result (Unit {0}) × S). q.1) h)

pub pure-Returns :
    {S A : Type 0} (a : A) (s : S) {b : A} {t : S} → Returns (pure a) s b t → (a ≡ b) × (t ≡ s)
unfolding pure
pure-Returns {S} {A} a s {b} {t} h =
    (ok-injective (ap (λ (q : Result A × S). q.0) h), sym (ap (λ (q : Result A × S). q.1) h))

pub asks-Returns :
    {S A : Type 0} (g : S → Result A) (s : S) {a : A} {t : S}
    → Returns (asks g) s a t
    → (g s ≡ ok a) × (t ≡ s)
unfolding asks
asks-Returns {S} {A} g s h =
    (ap (λ (q : Result A × S). q.0) h, sym (ap (λ (q : Result A × S). q.1) h))

pub rethrow-Returns :
    {S A : Type 0} (wrap : S → Error → Error) (m : Exec S A) (s : S) {a : A} {t : S}
    → Returns (rethrow wrap m) s a t
    → Returns m s a t
unfolding rethrow
rethrow-Returns {S} {A} wrap m s {a} {t} h = go (m s) refl h
  where
    go :
        (p : Result A × S)
        → m s ≡ p
        → Path (Result A × S) (wrapped (wrap p.1) p.0, p.1) (ok a, t)
        → m s ≡ (ok a, t)
    go (ok x, s') e h = e ∙ h
    go (err x, s') e h = absurd (cc (ap (λ (q : Result A × S). q.0) h))
