-- ===== src/Prelude/Distinct.antt =====
-- Lists of identifiers without repetition, and the tests for it.
use mathlib.Core.Bool.{Bool, true, false, ◌||◌}
use mathlib.Core.List.{List, [], ◌∷◌, ◌++◌, map}
use mathlib.Core.Logic.{◌≢◌, ◌↔◌, inl, inr}
use mathlib.Core.Path.{◌≡◌, refl, sym}
use Prim.Native.String.{String}
use text.Mathlib.TextEquality.{eq_iff}
use decision_gate.Prelude.Keys.{◌==◌, string_eq, contains}
use decision_gate.Prelude.Lists.{All, any}
use decision_gate.Prelude.Numbers.{Bool-cases}

abbrev pub Distinct : List String → Type 0
Distinct [] = Unit {0}
Distinct (x ∷ xs) = All (λ y. x ≢ y) xs × Distinct xs

pub All-append {ℓ κ} :
    {A : Type ℓ} (P : A → Type κ) (xs ys : List A) → All P (xs ++ ys) → All P xs × All P ys
All-append P [] ys h = (tt, h)
All-append P (x ∷ xs) ys h = let k = All-append P xs ys h.1 in ((h.0, k.0), k.1)

pub append-All {ℓ κ} :
    {A : Type ℓ} (P : A → Type κ) (xs ys : List A) → All P xs → All P ys → All P (xs ++ ys)
append-All P [] ys h k = k
append-All P (x ∷ xs) ys h k = (h.0, append-All P xs ys h.1 k)

pub All-map {ℓ κ ι} :
    {A : Type ℓ} {P : A → Type κ} {Q : A → Type ι}
    → ((x : A) → P x → Q x)
    → (xs : List A) → All P xs
    → All Q xs
All-map f [] h = tt
All-map f (x ∷ xs) h = (f x h.0, All-map f xs h.1)

pub All-both {ℓ κ ι} :
    {A : Type ℓ} (P : A → Type κ) (Q : A → Type ι) (xs : List A)
    → All (λ x. P x × Q x) xs
    → All P xs × All Q xs
All-both P Q [] h = (tt, tt)
All-both P Q (x ∷ xs) h = let k = All-both P Q xs h.1 in ((h.0.0, k.0), (h.0.1, k.1))

pub All-zip {ℓ κ ι} :
    {A : Type ℓ} (P : A → Type κ) (Q : A → Type ι) (xs : List A)
    → All P xs
    → All Q xs
    → All (λ x. P x × Q x) xs
All-zip P Q [] h k = tt
All-zip P Q (x ∷ xs) h k = ((h.0, k.0), All-zip P Q xs h.1 k.1)

pub All-any {ℓ κ} : {A : Type ℓ} {P : A → Type κ} → ((x : A) → P x) → (xs : List A) → All P xs
All-any f [] = tt
All-any f (x ∷ xs) = (f x, All-any f xs)

pub equal_to : (a b : String) → (a == b) ≡ true → a ≡ b
equal_to a b h = (eq_iff a b).0 h

pub same : (c : String) → (c == c) ≡ true
same c = (eq_iff c c).1 refl

pub not_equal : (a b : String) → ((a == b) ≡ false) ↔ (a ≢ b)
not_equal a b = (
  λ h e. absurd (cc (h, (eq_iff a b).1 e)),
  λ n. elim (Bool-cases (a == b)) [ inl e ↦ absurd (n (equal_to a b e)) | inr e ↦ e ],
)

pub neither : (a b : Bool) → (a || b) ≡ false → (a ≡ false) × (b ≡ false)
neither true b h = cc
neither false b h = (refl, h)

-- The test of one element against those that follow.
pub absent_lem {ℓ} :
    {A : Type ℓ} (id : A → String) (x : String) (xs : List A)
    → (any (λ o. id o == x) xs ≡ false) ↔ All (λ y. x ≢ y) (map id xs)
absent_lem id x [] = (λ _. tt, λ _. refl)
absent_lem id x (o ∷ xs) = (
  λ h.
      let k = neither (id o == x) (any (λ o. id o == x) xs) h in
      (λ e. (not_equal (id o) x).0 k.0 (sym e), (absent_lem id x xs).0 k.1),
  λ h. rw ((not_equal (id o) x).1 (λ e. h.0 (sym e))) ((absent_lem id x xs).1 h.1),
)

-- What is not seen is tested while the list of what is seen grows.
abbrev pub Fresh : List String → List String → Type 0
Fresh seen [] = Unit {0}
Fresh seen (x ∷ xs) = (contains seen x ≡ false) × Fresh (seen ++ x ∷ []) xs

contains-grown :
    (seen : List String) (x y : String)
    → (contains (seen ++ x ∷ []) y ≡ false) ↔ ((contains seen y ≡ false) × (x ≢ y))
contains-grown [] x y = (
  λ h. (refl, (not_equal x y).0 (neither (x == y) false h).0),
  λ h. rw ((not_equal x y).1 h.1) refl,
)
contains-grown (s ∷ seen) x y = (
  λ h.
      let k = neither (s == y) (contains (seen ++ x ∷ []) y) h in
      let rest = (contains-grown seen x y).0 k.1 in (rw (k.0, rest.0) refl, rest.1),
  λ h.
      let k = neither (s == y) (contains seen y) h.0 in
      rw k.0 ((contains-grown seen x y).1 (k.1, h.1)),
)

pub Fresh_lem :
    (seen xs : List String) → Fresh seen xs ↔ (All (λ x. contains seen x ≡ false) xs × Distinct xs)
Fresh_lem seen [] = (λ _. (tt, tt), λ _. tt)
Fresh_lem seen (x ∷ xs) = (
  λ h.
      let k = (Fresh_lem (seen ++ x ∷ []) xs).0 h.1 in
      let parts =
        All-both (λ y. contains seen y ≡ false) (λ y. x ≢ y) xs
          (All-map (λ y. (contains-grown seen x y).0) xs k.0) in
      ((h.0, parts.0), (parts.1, k.1)),
  λ h. (
    h.0.0,
    (Fresh_lem (seen ++ x ∷ []) xs).1 (
      All-map (λ y. (contains-grown seen x y).1) xs
          (All-zip (λ y. contains seen y ≡ false) (λ y. x ≢ y) xs h.0.1 h.1.0),
      h.1.1,
    ),
  ),
)

pub Fresh-Distinct : (xs : List String) → Fresh [] xs ↔ Distinct xs
Fresh-Distinct xs =
    (λ h. ((Fresh_lem [] xs).0 h).1, λ h. (Fresh_lem [] xs).1 (All-any (λ y. refl) xs, h))
