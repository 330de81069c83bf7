-- ===== src/Prelude/Action/Ensures.antt =====
-- Postconditions of actions: what holds of every value that an action returns.
use mathlib.Core.Path.{◌≡◌, refl, subst, ◌∙◌}
use mathlib.Core.Bool.{Bool, true, false}
use decision_gate.Prelude.Numbers.{if◌then◌else◌}
use decision_gate.Prelude.Outcome.{Outcome, ok, err, ok-injective}
use decision_gate.Prelude.Action.{Action, pure, raise, lift, attempt, proceed, ◌>>=◌}

-- Whatever state it starts in, `m` fails or returns a value with `P`.
pub record Ensures {ℓ κ ι ν} {E : Type ℓ} {S : Type κ} {A : Type ι} (P : A → Type ν)
    (m : Action E S A) : Type (ℓ ⊔ κ ⊔ ι ⊔ ν) where
  pub at : (s : S) (a : A) → (m s).0 ≡ ok a → P a

module _ {ℓ κ ι ν} {E : Type ℓ} {S : Type κ} {A : Type ι} (P : A → Type ν) where
  pub Ensures-lift : (r : Outcome E A) → ((a : A) → r ≡ ok a → P a) → Ensures P (lift {S = S} r)
  unfolding lift
  Ensures-lift r h = record { at = λ s a e. h a e }

  pub Ensures-pure : (a : A) → P a → Ensures P (pure {E = E} {S = S} a)
  unfolding pure
  Ensures-pure a h = record { at = λ s b e. subst P (ok-injective a b e) h }

  pub Ensures-raise : (e : E) → Ensures P (raise {S = S} e)
  unfolding raise
  Ensures-raise e = record { at = λ s a h. cc }

  pub Ensures-if :
      (b : Bool) (m n : Action E S A)
      → (b ≡ true → Ensures P m)
      → (b ≡ false → Ensures P n)
      → Ensures P (if b then m else n)
  Ensures-if true m n km kn = km refl
  Ensures-if false m n km kn = kn refl

module _ {ℓ κ ι ξ ν μ} {E : Type ℓ} {S : Type κ} {A : Type ι} {B : Type ξ} (Q : A → Type μ)
    (P : B → Type ν) where
  proceed-eq-ok :
      (r : Outcome E A) (f : A → Action E S B) (s : S) (b : B)
      → ((a : A) → r ≡ ok a → Q a)
      → ((a : A) → Q a → Ensures P (f a))
      → (proceed r f s).0 ≡ ok b
      → P b
  proceed-eq-ok (ok a) f s b q k h = (k a (q a refl)).at s b h
  proceed-eq-ok (err e) f s b q k h = cc

  pub Ensures-bind :
      (m : Action E S A) (f : A → Action E S B)
      → Ensures Q m
      → ((a : A) → Q a → Ensures P (f a))
      → Ensures P (m >>= f)
  unfolding ◌>>=◌
  Ensures-bind m f q k = record {
    at = λ s b h. proceed-eq-ok (m s).0 f (m s).1 b (λ a e. q.at s a e) k h;
  }

-- A step of which only the outcome is used further on.
pub Ensures-any {ℓ κ ι} :
    {E : Type ℓ} {S : Type κ} {A : Type ι} (m : Action E S A)
    → Ensures (λ a. (s : S) × ((m s).0 ≡ ok a)) m
Ensures-any m = record { at = λ s a h. (s, h) }

pub Ensures-attempt {ℓ κ ι ξ ν} :
    {E : Type ℓ} {F : Type κ} {S : Type ι} {A : Type ξ} (P : A → Type ν) (m : Action E S A)
    → Ensures P m
    → Ensures {E = F} (λ r. (a : A) → r ≡ ok a → P a) (attempt m)
unfolding attempt
Ensures-attempt P m h = record { at = λ s r e a k. h.at s a (ok-injective (m s).0 r e ∙ k) }

-- A weaker postcondition.
pub Ensures-weaken {ℓ κ ι ν μ} :
    {E : Type ℓ} {S : Type κ} {A : Type ι} {P : A → Type ν} {Q : A → Type μ} {m : Action E S A}
    → ((a : A) → P a → Q a)
    → Ensures P m
    → Ensures Q m
Ensures-weaken f h = record { at = λ s a e. f a (h.at s a e) }

-- What holds of every value that an action returns and of the state that it leaves then.
pub record Leaves {ℓ κ ι ν} {E : Type ℓ} {S : Type κ} {A : Type ι} (P : A → S → Type ν)
    (m : Action E S A) : Type (ℓ ⊔ κ ⊔ ι ⊔ ν) where
  pub at : (s : S) (a : A) → (m s).0 ≡ ok a → P a (m s).1

module _ {ℓ κ ι ξ ν} {E : Type ℓ} {S : Type κ} {A : Type ι} {B : Type ξ} (P : B → S → Type ν) where
  proceed-leaves :
      (f : A → Action E S B) (r : Outcome E A) (s : S) (b : B)
      → ((a : A) → Leaves P (f a))
      → (proceed r f s).0 ≡ ok b
      → P b (proceed r f s).1
  proceed-leaves f (ok a) s b h e = (h a).at s b e
  proceed-leaves f (err x) s b h e = cc

  -- The last part of a sequence decides what it leaves.
  pub Leaves-bind :
      (m : Action E S A) (f : A → Action E S B) → ((a : A) → Leaves P (f a)) → Leaves P (m >>= f)
  unfolding ◌>>=◌
  Leaves-bind m f h = record { at = λ s b e. proceed-leaves f (m s).0 (m s).1 b h e }
