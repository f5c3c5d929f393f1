-- ===== src/Prelude/Keeping.antt =====
-- Calls that keep a property of the state, whatever their outcome.
use base_go_api.Errors.{Error}
use base_go_api.Prelude.Outcome.{Outcome, ok, err, Call, ◌>>=◌, pure, fail, map_err, attempt}
use base_go_api.Prelude.Tests.{if◌then◌else◌}
use mathlib.Core.Path.{◌≡◌, refl}
use mathlib.Core.Bool.{Bool, true, false}

module _ {S : Type 0} (P : S → Type 0) where
  -- From each state with the property, the call leads to one with it.
  abbrev pub Keeps : {A : Type 0} → Call S A → Type 0
  Keeps m = (s : S) → P s → P (m s).1

  pub pure-Keeps : {A : Type 0} (a : A) → Keeps (pure a)
  pure-Keeps a s h = h

  pub fail-Keeps : (A : Type 0) (e : Error) → Keeps (fail {A = A} e)
  fail-Keeps A e s h = h

  pub bind-Keeps :
      {A B : Type 0} (m : Call S A) (f : A → Call S B)
      → Keeps m
      → ((a : A) → Keeps (f a))
      → Keeps (m >>= f)
  bind-Keeps {A} {B} m f k l s h = go (m s) (k s h)
    where
      go : (r : Outcome A × S) → P r.1 → P (◌>>=◌ (λ t. r) f s).1
      go (ok a, t) i = l a t i
      go (err e, t) i = i

  pub map_err-Keeps :
      {A : Type 0} (f : Error → Error) (m : Call S A) → Keeps m → Keeps (map_err f m)
  map_err-Keeps {A} f m k s h = go (m s) (k s h)
    where
      go : (r : Outcome A × S) → P r.1 → P (map_err f (λ (t : S). r) s).1
      go (ok a, t) i = i
      go (err e, t) i = i

  pub attempt-Keeps : {A : Type 0} (m : Call S A) → Keeps m → Keeps (attempt m)
  attempt-Keeps m k s h = k s h

  pub if-Keeps :
      {A : Type 0} (b : Bool) (m n : Call S A) → Keeps m → Keeps n → Keeps (if b then m else n)
  if-Keeps true m n k l = k
  if-Keeps false m n k l = l

-- What holds of the end of a sequence, from what its first call gives.
pub bind_ends :
    {S A B : Type 0} (Q : Outcome B × S → Type 0) (m : Call S A) (f : A → Call S B) (s : S)
    → ((e : Error) → (m s).0 ≡ err e → Q (err e, (m s).1))
    → ((a : A) → (m s).0 ≡ ok a → Q (f a (m s).1))
    → Q ((m >>= f) s)
bind_ends {S} {A} {B} Q m f s k l = go (m s) k l
  where
    go :
        (r : Outcome A × S)
        → ((e : Error) → r.0 ≡ err e → Q (err e, r.1))
        → ((a : A) → r.0 ≡ ok a → Q (f a r.1))
        → Q (◌>>=◌ (λ t. r) f s)
    go (ok a, t) i j = j a refl
    go (err e, t) i j = i e refl

-- The same of the state alone.
pub bind_leads :
    {S A B : Type 0} (Q : S → Type 0) (m : Call S A) (f : A → Call S B) (s : S)
    → ((e : Error) → (m s).0 ≡ err e → Q (m s).1)
    → ((a : A) → (m s).0 ≡ ok a → Q (f a (m s).1).1)
    → Q ((m >>= f) s).1
bind_leads Q m f s k l = bind_ends (λ r. Q r.1) m f s k l
