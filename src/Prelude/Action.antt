-- ===== src/Prelude/Action.antt =====
-- Code that works on a state behind a reference and may fail. What was done before a failure
-- stays done, so the state comes back beside the error too.
pub mod Ensures
pub mod Runs
use decision_gate.Prelude.Outcome.{Outcome, ok, err}

abbrev pub Action {ℓ κ ι} : Type ℓ → Type κ → Type ι → Type (ℓ ⊔ κ ⊔ ι)
Action E S A = S → Outcome E A × S

module _ {ℓ κ ι} {E : Type ℓ} {S : Type κ} {A : Type ι} where
  unfoldable pub pure : A → Action E S A
  pure a s = (ok a, s)

  unfoldable pub raise : E → Action E S A
  raise e s = (err e, s)

  -- A computation that does not touch the state.
  unfoldable pub lift : Outcome E A → Action E S A
  lift r s = (r, s)

-- The outcome as a value, for code that handles the error.
unfoldable pub attempt {ℓ κ ι ξ} :
    {E : Type ℓ} {F : Type κ} {S : Type ι} {A : Type ξ} → Action E S A → Action F S (Outcome E A)
attempt m s = (ok (m s).0, (m s).1)

module _ {ℓ κ ι ξ} {E : Type ℓ} {S : Type κ} {A : Type ι} {B : Type ξ} where
  abbrev pub proceed : Outcome E A → (A → Action E S B) → Action E S B
  proceed (ok a) f s = f a s
  proceed (err e) f s = (err e, s)

  infixl 5 ◌>>=◌ ◌>>◌
  -- Opening this opens the ways to build an action too.
  unfoldable pub ◌>>=◌ : Action E S A → (A → Action E S B) → Action E S B
  unfolding pure raise lift attempt
  ◌>>=◌ m f s = proceed (m s).0 f (m s).1

  abbrev pub ◌>>◌ : Action E S A → Action E S B → Action E S B
  m >> k = m >>= λ _. k
