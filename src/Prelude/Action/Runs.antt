-- ===== src/Prelude/Action/Runs.antt =====
-- Runs of actions that return a value, taken apart.
use mathlib.Core.Path.{◌≡◌, refl}
use decision_gate.Prelude.Outcome.{Outcome, ok, err}
use decision_gate.Prelude.Action.{Action, lift, proceed, ◌>>=◌}

module _ {ℓ κ ι ξ} {E : Type ℓ} {S : Type κ} {A : Type ι} {B : Type ξ} where
  -- What the two parts of a sequence did, where the sequence returned a value.
  pub record Parts (m : Action E S A) (f : A → Action E S B) (s : S) (b : B)
      : Type (ℓ ⊔ κ ⊔ ι ⊔ ξ) where
    pub value : A
    pub first : (m s).0 ≡ ok value
    pub second : (f value (m s).1).0 ≡ ok b
    pub state : ((m >>= f) s).1 ≡ (f value (m s).1).1

  proceed-parts :
      (r : Outcome E A) (f : A → Action E S B) (s : S) (b : B)
      → (proceed r f s).0 ≡ ok b
      → (a : A) × (r ≡ ok a) × ((f a s).0 ≡ ok b) × ((proceed r f s).1 ≡ (f a s).1)
  proceed-parts (ok a) f s b h = (a, refl, h, refl)
  proceed-parts (err e) f s b h = cc

  pub parts :
      (m : Action E S A) (f : A → Action E S B) (s : S) (b : B)
      → ((m >>= f) s).0 ≡ ok b
      → Parts m f s b
  unfolding ◌>>=◌
  parts m f s b h =
      let (a, e, k, st) = proceed-parts (m s).0 f (m s).1 b h in
      record { value = a; first = e; second = k; state = st }

  -- A sequence whose first part returns a value.
  pub bind-of_ok :
      (m : Action E S A) (f : A → Action E S B) (s : S) (a : A)
      → (m s).0 ≡ ok a
      → (m >>= f) s ≡ f a (m s).1
  unfolding ◌>>=◌
  bind-of_ok m f s a h = rw h refl

  pub bind-of_err :
      (m : Action E S A) (f : A → Action E S B) (s : S) (e : E)
      → (m s).0 ≡ err e
      → ((m >>= f) s).0 ≡ err e
  unfolding ◌>>=◌
  bind-of_err m f s e h = rw h refl

  -- A sequence that begins with a result leaves the state to its second part.
  pub bind-lift :
      (r : Outcome E A) (f : A → Action E S B) (s : S) (b : B)
      → ((lift r >>= f) s).0 ≡ ok b
      → (a : A) × (r ≡ ok a) × ((f a s).0 ≡ ok b)
  unfolding ◌>>=◌
  bind-lift (ok a) f s b h = (a, refl, h)
  bind-lift (err e) f s b h = cc
