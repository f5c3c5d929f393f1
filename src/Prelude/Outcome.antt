-- ===== src/Prelude/Outcome.antt =====
-- The pair (value, error) that a Go function returns, as a sum; and the state-passing sequence of
-- calls, in which an error ends the function at once.
use base_go_api.Errors.{Error}
use mathlib.Core.Path.{◌≡◌, refl, ap}
use native.Mathlib.Omega.{arith}

pub data Outcome {ℓ} (A : Type ℓ) : Type ℓ where
  ok : A → Outcome A
  err : Error → Outcome A

-- A call reads and changes a state, and returns an outcome.
abbrev pub Call : Type 0 → Type 0 → Type 0
Call S A = S → Outcome A × S

module _ {S : Type 0} where
  infixl 5 ◌>>=◌ ◌>>◌
  abbrev pub ◌>>=◌ : {A B : Type 0} → Call S A → (A → Call S B) → Call S B
  ◌>>=◌ m f s = elim (m s).0 [ ok a ↦ f a (m s).1 | err e ↦ (err e, (m s).1) ]

  abbrev pub ◌>>◌ : {B : Type 0} → Call S (Unit {0}) → Call S B → Call S B
  m >> k = m >>= λ _. k

  abbrev pub pure : {A : Type 0} → A → Call S A
  pure a s = (ok a, s)

  abbrev pub fail : {A : Type 0} → Error → Call S A
  fail e s = (err e, s)

  -- `if err != nil { return nil, f(err) }`
  abbrev pub map_err : {A : Type 0} → (Error → Error) → Call S A → Call S A
  map_err f m s = elim (m s).0 [ ok a ↦ (ok a, (m s).1) | err e ↦ (err (f e), (m s).1) ]

  -- `result, err := m()`, where the code goes on in both cases.
  abbrev pub attempt : {A : Type 0} → Call S A → Call S (Outcome A)
  attempt m s = (ok (m s).0, (m s).1)

-- Inversion of a sequence that succeeds.
pub >>=-eq-ok :
    {S A B : Type 0} (m : Call S A) (f : A → Call S B) (s : S) {b : B}
    → ((m >>= f) s).0 ≡ ok b
    → (a : A) × ((m s).0 ≡ ok a) × ((m >>= f) s ≡ f a (m s).1) × ((f a (m s).1).0 ≡ ok b)
>>=-eq-ok {S} {A} {B} m f s {b} h = go (m s) h
  where
    go :
        (r : Outcome A × S)
        → (◌>>=◌ (λ t. r) f s).0 ≡ ok b
        → (a : A) × (r.0 ≡ ok a) × (◌>>=◌ (λ t. r) f s ≡ f a r.1) × ((f a r.1).0 ≡ ok b)
    go (ok a, t) e = (a, refl, refl, e)
    go (err e, t) h = cc

pub bind_runs :
    {S A B : Type 0} (m : Call S A) (f : A → Call S B) (s : S) {a : A}
    → (m s).0 ≡ ok a
    → (m >>= f) s ≡ f a (m s).1
bind_runs {S} {A} {B} m f s h =
    ap (λ (o : Outcome A). elim o [ ok a ↦ f a (m s).1 | err e ↦ (err e, (m s).1) ]) h

pub map_err-eq-ok :
    {S A : Type 0} (f : Error → Error) (m : Call S A) (s : S) {a : A}
    → (map_err f m s).0 ≡ ok a
    → (m s).0 ≡ ok a
map_err-eq-ok f m s h = ground arith

pub map_err_state :
    {S A : Type 0} (f : Error → Error) (m : Call S A) (s : S) → (map_err f m s).1 ≡ (m s).1
map_err_state f m s = ground arith

pub map_err-eq-err :
    {S A : Type 0} (f : Error → Error) (m : Call S A) (s : S) {e : Error}
    → (map_err f m s).0 ≡ err e
    → (x : Error) × ((m s).0 ≡ err x) × (e ≡ f x)
map_err-eq-err {S} {A} f m s {e} h = go (m s) h
  where
    go :
        (r : Outcome A × S)
        → (map_err f (λ (t : S). r) s).0 ≡ err e
        → (x : Error) × (r.0 ≡ err x) × (e ≡ f x)
    go (ok a, t) k = cc
    go (err x, t) k = (x, refl, cc)
