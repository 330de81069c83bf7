-- ===== src/Core/Spec/Validate/Unique.antt =====
-- crates/decision-gate-core/src/core/spec.rs: the checks for identifiers that stand twice.
use decision_gate.Prelude.{
  String, ◌≡◌, ◌↔◌, refl, sym, ◌∙◌, List, [], ◌∷◌, ◌++◌, map, Bool, true, false, Bool-cases, inl,
  inr, any, contains, ◌==◌, string_eq, if◌then◌else◌,
}
use decision_gate.Prelude.Distinct.{Distinct, Fresh, Fresh-Distinct, absent_lem}
use decision_gate.Prelude.Outcome.{Outcome, ok, err, ◌>>=◌, ◌>>◌}
use decision_gate.Core.Spec.{SpecError}
use decision_gate.Core.Spec.Validate.{Checked, test_later, push_ids, push_each}

abbrev pub Passes : Checked → Type 0
Passes m = m ≡ ok tt

pub test_iff :
    (b : Bool) (e : SpecError) (k : Checked)
    → Passes (if b then err e else k) ↔ ((b ≡ false) × Passes k)
test_iff true e k = (λ h. cc, λ h. cc)
test_iff false e k = (λ h. (refl, h), λ h. h.1)

pub test_later_iff {ℓ} :
    {A : Type ℓ} (id : A → String) (error : String → SpecError) (xs : List A)
    → Passes (test_later id error xs) ↔ Distinct (map id xs)
unfolding test_later
test_later_iff id error [] = (λ _. tt, λ _. refl)
test_later_iff id error (x ∷ xs) =
    let step =
      test_iff (any (λ other. id other == id x) xs) (error (id x)) (test_later id error xs) in
    (
      λ h. ((absent_lem id (id x) xs).0 (step.0 h).0, (test_later_iff id error xs).0 (step.0 h).1),
      λ h. step.1 ((absent_lem id (id x) xs).1 h.0, (test_later_iff id error xs).1 h.1),
    )

abbrev pub flat {ℓ} : {A : Type ℓ} → (A → List String) → List A → List String
flat f [] = []
flat f (x ∷ xs) = f x ++ flat f xs

push_ids-append :
    (error : String → SpecError) (xs ys seen : List String)
    → push_ids error (xs ++ ys) seen ≡ (push_ids error xs seen >>= push_ids error ys)
unfolding push_ids
push_ids-append error [] ys seen = refl
push_ids-append error (x ∷ xs) ys seen = elim (Bool-cases (contains seen x)) [
  | inl e ↦ rw e refl
  | inr e ↦ rw e (push_ids-append error xs ys (seen ++ x ∷ []))
]

bind-cong :
    {A B : Type 0} (m : Outcome SpecError A) (f g : A → Outcome SpecError B)
    → ((a : A) → f a ≡ g a)
    → (m >>= f) ≡ (m >>= g)
bind-cong (ok a) f g h = h a
bind-cong (err e) f g h = refl

push_each-flat {ℓ} :
    {A : Type ℓ} (error : String → SpecError) (f : A → List String) (xs : List A)
    (seen : List String)
    → push_each error f xs seen ≡ push_ids error (flat f xs) seen
unfolding push_each push_ids
push_each-flat error f [] seen = refl
push_each-flat error f (x ∷ xs) seen =
    bind-cong (push_ids error (f x) seen) (push_each error f xs) (push_ids error (flat f xs))
      (push_each-flat error f xs)
    ∙ sym (push_ids-append error (f x) (flat f xs) seen)

push_ids_iff :
    (error : String → SpecError) (xs seen : List String)
    → Passes (push_ids error xs seen >> ok tt) ↔ Fresh seen xs
unfolding push_ids
push_ids_iff error [] seen = (λ _. tt, λ _. refl)
push_ids_iff error (x ∷ xs) seen = elim (Bool-cases (contains seen x)) [
  | inl e ↦ rw e (λ h. cc, λ h. cc)
  | inr e ↦ rw e (
    λ h. (refl, (push_ids_iff error xs (seen ++ x ∷ [])).0 h),
    λ h. (push_ids_iff error xs (seen ++ x ∷ [])).1 h.1,
  )
]

pub push_each_iff {ℓ} :
    {A : Type ℓ} (error : String → SpecError) (f : A → List String) (xs : List A)
    → Passes (push_each error f xs [] >> ok tt) ↔ Distinct (flat f xs)
push_each_iff error f xs = rw (push_each-flat error f xs []) (
  λ h. (Fresh-Distinct (flat f xs)).0 ((push_ids_iff error (flat f xs) []).0 h),
  λ h. (push_ids_iff error (flat f xs) []).1 ((Fresh-Distinct (flat f xs)).1 h),
)
