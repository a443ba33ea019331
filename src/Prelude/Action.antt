-- ===== src/Prelude/Action.antt =====
-- Code that changes a state and may fail: what was written before a failure stays written, so the
-- state comes back beside the error. `Result` is Rust's, with its error type first.
use mathlib.Core.Path.{◌≡◌, refl}
use mathlib.Core.Bool.{Bool, true, false}

pub data Result (E A : Type 0) : Type 0 where
  ok : A → Result E A
  err : E → Result E A

abbrev pub Action : Type 0 → Type 0 → Type 0 → Type 0
Action S E A = S → Result E A × S

-- The operator `?` of a chain of fallible steps with no state.
abbrev pub and_then : {E A B : Type 0} → Result E A → (A → Result E B) → Result E B
and_then (ok a) f = f a
and_then (err e) f = err e

pub and_then-eq-ok :
    {E A B : Type 0} (r : Result E A) (f : A → Result E B) {b : B}
    → and_then r f ≡ ok b
    → (a : A) × (r ≡ ok a) × (f a ≡ ok b)
and_then-eq-ok (ok a) f h = (a, refl, h)
and_then-eq-ok (err e) f h = cc

pub ok-injective : {E A : Type 0} {a b : A} → Path (Result E A) (ok a) (ok b) → a ≡ b
ok-injective h = cc

-- `Result::map_err`
abbrev pub map_err : {E F A : Type 0} → (E → F) → Result E A → Result F A
map_err f (ok a) = ok a
map_err f (err e) = err (f e)

module _ {S E A : Type 0} where
  abbrev pub pure : A → Action S E A
  pure a s = (ok a, s)

  abbrev pub fail : E → Action S E A
  fail e s = (err e, s)

  abbrev pub gets : (S → A) → Action S E A
  gets f s = (ok (f s), s)

  abbrev pub lift : Result E A → Action S E A
  lift r s = (r, s)

abbrev pub modify : {S E : Type 0} → (S → S) → Action S E Unit
modify f s = (ok tt, f s)

abbrev pub when : {S E : Type 0} → Bool → Action S E Unit → Action S E Unit
when true m = m
when false m = pure tt

module _ {S E A B : Type 0} where
  -- What follows a step that ended with this result.
  abbrev pub resume : Result E A → (A → Action S E B) → Action S E B
  resume (ok a) f s = f a s
  resume (err e) f s = (err e, s)

  infixl 10 ◌>>=◌ ◌>>◌
  abbrev pub ◌>>=◌ : Action S E A → (A → Action S E B) → Action S E B
  ◌>>=◌ m f s = resume (m s).0 f (m s).1

  abbrev pub ◌>>◌ : Action S E A → Action S E B → Action S E B
  m >> k = m >>= λ _. k

  -- A block that succeeds has gone through its first step.
  pub >>=-eq-ok :
      (m : Action S E A) (f : A → Action S E B) (s : S) {b : B} {s'' : S}
      → (m >>= f) s ≡ (ok b, s'')
      → (a : A) × (s' : S) × (m s ≡ (ok a, s')) × (f a s' ≡ (ok b, s''))
  >>=-eq-ok m f s {b} {s''} h = go (m s) refl h
    where
      go :
          (r : Result E A × S)
          → m s ≡ r
          → resume r.0 f r.1 ≡ (ok b, s'')
          → (a : A) × (s' : S) × (m s ≡ (ok a, s')) × (f a s' ≡ (ok b, s''))
      go (ok a, s') e p = (a, s', e, p)
      go (err x, s') e p = cc

-- Every run of `m` from a state with `P` ends in a state with `P`, by a result or by an error.
pub record Keeps {S E A : Type 0} (P : S → Type 0) (m : Action S E A) : Type 0 where
  pub at : (s : S) → P s → P (m s).1

module _ {S E A : Type 0} {P : S → Type 0} where
  pub Keeps-pure : (a : A) → Keeps {E = E} P (pure a)
  Keeps-pure a = record { at = λ s p. p }

  pub Keeps-fail : (e : E) → Keeps {A = A} P (fail e)
  Keeps-fail e = record { at = λ s p. p }

  pub Keeps-gets : (f : S → A) → Keeps {E = E} P (gets f)
  Keeps-gets f = record { at = λ s p. p }

module _ {S E A B : Type 0} {P : S → Type 0} where
  pub Keeps-bind :
      (m : Action S E A) (f : A → Action S E B)
      → Keeps P m
      → ((a : A) → Keeps P (f a))
      → Keeps P (m >>= f)
  Keeps-bind m f km kf = record { at = λ s p. onward (m s).0 (m s).1 (km.at s p) }
    where
      onward : (r : Result E A) (s : S) → P s → P (resume r f s).1
      onward (ok a) s p = (kf a).at s p
      onward (err e) s p = p

-- How a step may end: with a result as `Q` says, or with an error as `F` says.
abbrev pub Outcome : {S E A : Type 0} → (E → Type 0) → (A → S → Type 0) → Result E A → S → Type 0
Outcome F Q (ok a) s = Q a s
Outcome F Q (err e) s = F e

-- From a state with `P`, `m` ends as `Q` and `F` say.
pub record Ends {S E A : Type 0} (F : E → Type 0) (P : S → Type 0) (m : Action S E A)
    (Q : A → S → Type 0) : Type 0 where
  pub at : (s : S) → P s → Outcome F Q (m s).0 (m s).1

module _ {S E A B : Type 0} {F : E → Type 0} {P : S → Type 0} (Q : A → S → Type 0)
    {R : B → S → Type 0} where
  pub Ends-bind :
      (m : Action S E A) (f : A → Action S E B)
      → Ends F P m Q
      → ((a : A) → Ends F (Q a) (f a) R)
      → Ends F P (m >>= f) R
  Ends-bind m f em ef = record { at = λ s p. onward (m s).0 (m s).1 (em.at s p) }
    where
      onward :
          (r : Result E A) (s : S) → Outcome F Q r s → Outcome F R (resume r f s).0 (resume r f s).1
      onward (ok a) s q = (ef a).at s q
      onward (err e) s q = q

-- How a step may end, with what holds of the state after a result and after an error.
abbrev pub After : {S E A : Type 0} → (A → S → Type 0) → (S → Type 0) → Result E A × S → Type 0
After Q X (ok a, s) = Q a s
After Q X (err e, s) = X s

-- From a state with `P`, `m` ends with a result and `Q`, or with an error and `X`.
pub record Runs {S E A : Type 0} (P : S → Type 0) (m : Action S E A) (Q : A → S → Type 0)
    (X : S → Type 0) : Type 0 where
  pub at : (s : S) → P s → After Q X (m s)

module _ {S E A B : Type 0} {P : S → Type 0} (Q : A → S → Type 0) {R : B → S → Type 0}
    {X : S → Type 0} where
  pub Runs-bind :
      (m : Action S E A) (f : A → Action S E B)
      → Runs P m Q X
      → ((a : A) → Runs (Q a) (f a) R X)
      → Runs P (m >>= f) R X
  Runs-bind m f rm rf = record { at = λ s p. onward (m s) (rm.at s p) }
    where
      onward : (a : Result E A × S) → After Q X a → After R X (resume a.0 f a.1)
      onward (ok a, s) q = (rf a).at s q
      onward (err e, s) x = x

-- What a block leaves, by how its first step ended.
pub After-resume :
    {S E A B : Type 0} {Q : A → S → Type 0} {X P : S → Type 0} (a : Result E A × S)
    (f : A → Action S E B)
    → After Q X a
    → ((u : A) (s : S) → Q u s → P (f u s).1)
    → ((s : S) → X s → P s)
    → P (resume a.0 f a.1).1
After-resume (ok u, s) f h onward kept = onward u s h
After-resume (err e, s) f h onward kept = kept s h

pub After-end :
    {S E A : Type 0} {Q : A → S → Type 0} {X P : S → Type 0} (a : Result E A × S)
    → After Q X a
    → ((u : A) (s : S) → Q u s → P s)
    → ((s : S) → X s → P s)
    → P a.1
After-end (ok u, s) h onward kept = onward u s h
After-end (err e, s) h onward kept = kept s h
