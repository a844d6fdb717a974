-- ===== src/Base/Action.antt =====
-- Calls that change a state and may throw. What was changed before an exception stays changed.
use mathlib.Core.Option.{Option, none, some}
use off_drop.Base.Result.{Error, Result, ok, err, fault}

abbrev pub Action {ℓ κ} : Type ℓ → Type κ → Type (ℓ ⊔ κ)
Action S A = S → Result A × S

module _ {ℓ} {S : Type ℓ} where
  abbrev pub pure {κ} : {A : Type κ} → A → Action S A
  pure a s = (ok a, s)

  abbrev pub throw {κ} : {A : Type κ} → Error → Action S A
  throw e s = (err e, s)

  abbrev pub continue {κ μ} :
      {A : Type κ} {B : Type μ} → Result A × S → (A → Action S B) → Result B × S
  continue (ok a, s) f = f a s
  continue (err e, s) f = (err e, s)
  continue (fault, s) f = (fault, s)

  infixl 5 ◌>>=◌ ◌>>◌
  abbrev pub ◌>>=◌ {κ μ} : {A : Type κ} {B : Type μ} → Action S A → (A → Action S B) → Action S B
  ◌>>=◌ m f s = continue (m s) f

  abbrev pub ◌>>◌ {μ} : {B : Type μ} → Action S (Unit {0}) → Action S B → Action S B
  m >> k = m >>= λ _. k

  -- A call that leaves the state alone.
  abbrev pub lift {κ} : {A : Type κ} → Result A → Action S A
  lift r s = (r, s)

  -- A library call that reports its failure, on which the caller throws `e`.
  abbrev pub or_throw {κ} : {A : Type κ} → Error → Option A → Action S A
  or_throw e none s = (err e, s)
  or_throw e (some a) s = (ok a, s)

  -- The same for a call that changes the state.
  abbrev pub settle {κ} : {A : Type κ} → Error → Option A × S → Result A × S
  settle e (none, s) = (err e, s)
  settle e (some a, s) = (ok a, s)
