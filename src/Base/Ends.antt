-- ===== src/Base/Ends.antt =====
-- Calls that run into no undefined behaviour: they return a value, of which something holds, or
-- throw.
use mathlib.Core.Path.{◌≡◌, refl}
use mathlib.Core.Bool.{Bool, true, false}
use mathlib.Core.Option.{Option, none, some}
use off_drop.Base.Result.{Error, Result, ok, err, throw_if}
use off_drop.Base.Action.{Action, continue, or_throw, settle}

module _ {S : Type 0} where
  pub data Ends {A : Type 0} (P : A → S → Type 0) : Result A × S → Type 0 where
    returns : (a : A) (s : S) → P a s → Ends P (ok a, s)
    throws : (e : Error) (s : S) → Ends P (err e, s)

  pub continue-Ends :
      {A B : Type 0} {P : A → S → Type 0} {Q : B → S → Type 0} {r : Result A × S}
      {f : A → Action S B}
      → Ends P r
      → ((a : A) (s : S) → P a s → Ends Q (f a s))
      → Ends Q (continue r f)
  continue-Ends (returns a s p) k = k a s p
  continue-Ends (throws e s) k = throws e s

  -- What a library call gave.
  pub or_throw-Ends :
      {A : Type 0} (e : Error) (o : Option A) (s : S) → Ends (λ a t. o ≡ some a) (or_throw e o s)
  or_throw-Ends e none s = throws e s
  or_throw-Ends e (some a) s = returns a s refl

  pub settle-Ends :
      {A : Type 0} (e : Error) (r : Option A × S) → Ends (λ a t. r ≡ (some a, t)) (settle e r)
  settle-Ends e (none, s) = throws e s
  settle-Ends e (some a, s) = returns a s refl

  -- A weaker postcondition.
  pub weaken-Ends :
      {A : Type 0} {P Q : A → S → Type 0} {r : Result A × S}
      → Ends P r
      → ((a : A) (s : S) → P a s → Q a s)
      → Ends Q r
  weaken-Ends (returns a s p) k = returns a s (k a s p)
  weaken-Ends (throws e s) k = throws e s

  pub throw_if-Ends :
      (bad : Bool) (e : Error) (s : S) → Ends (λ done t. bad ≡ false) (throw_if bad e, s)
  throw_if-Ends true e s = throws e s
  throw_if-Ends false e s = returns tt s refl

-- The result of a call beside a state that is made of the call's.
pub beside-Ends :
    {S T A : Type 0} {P : A → S → Type 0} {r : Result A × S} (g : S → T)
    → Ends P r
    → Ends (λ a t. (s : S) × P a s × (t ≡ g s)) (r.0, g r.1)
beside-Ends g (returns a s p) = returns a (g s) (s, p, refl)
beside-Ends g (throws e s) = throws e (g s)
