-- ===== src/Prelude/Decimal.antt =====
-- `to_string` of an unsigned number and the concatenation of `format!`.
use mathlib.Core.Bool
use mathlib.Core.Bool.{Bool, true, false, ◌&&◌}
use Prim.Native.Char.{Char, code}
use Prim.Native.Nat.{ℕ, zero, suc, ◌+◌, ◌*◌, ◌-◌, ◌/◌, ◌%◌, ◌<◌}
use Prim.Native.String.{String}
use mathlib.Core.Path.{◌≡◌, refl, ◌∙◌, ap, sym, subst}
use text.Mathlib.TextLemmas.{head-eq_of_cons-eq, tail-eq_of_cons-eq}
use native.Mathlib.Omega.{arith}
use decision_gate.Prelude.Numbers.{ltb, nat_beq, if◌then◌else◌, Bool-cases}
use mathlib.Core.Logic.{inl, inr}

infixr 65 ◌++◌
abbrev pub ◌++◌ : String → String → String
String.[] ++ t = t
String.◌∷◌ c s ++ t = String.◌∷◌ c (s ++ t)

digit : ℕ → Char
digit zero = "0"
digit (suc zero) = "1"
digit (suc (suc zero)) = "2"
digit (suc (suc (suc zero))) = "3"
digit (suc (suc (suc (suc zero)))) = "4"
digit (suc (suc (suc (suc (suc zero))))) = "5"
digit (suc (suc (suc (suc (suc (suc zero)))))) = "6"
digit (suc (suc (suc (suc (suc (suc (suc zero))))))) = "7"
digit (suc (suc (suc (suc (suc (suc (suc (suc zero)))))))) = "8"
digit _ = "9"

-- One round for each digit; `n + 1` rounds are enough for `n`.
show_onto : ℕ → ℕ → String → String
show_onto zero n s = s
show_onto (suc fuel) n s =
    let rest = show_onto fuel (n / 10) (String.◌∷◌ (digit (n % 10)) s) in
    if ltb n 10 then String.◌∷◌ (digit n) s else rest

unfoldable pub to_string : ℕ → String
unfolding show_onto digit
to_string n = show_onto (suc n) n String.[]

unfoldable pub read : ℕ → String → ℕ
read acc String.[] = acc
read acc (String.◌∷◌ c s) = read (acc * 10 + (code c - 48)) s

code-digit : (d : ℕ) → d < 10 → code (digit d) - 48 ≡ d
unfolding digit
code-digit zero h = refl
code-digit (suc zero) h = refl
code-digit (suc (suc zero)) h = refl
code-digit (suc (suc (suc zero))) h = refl
code-digit (suc (suc (suc (suc zero)))) h = refl
code-digit (suc (suc (suc (suc (suc zero))))) h = refl
code-digit (suc (suc (suc (suc (suc (suc zero)))))) h = refl
code-digit (suc (suc (suc (suc (suc (suc (suc zero))))))) h = refl
code-digit (suc (suc (suc (suc (suc (suc (suc (suc zero)))))))) h = refl
code-digit (suc (suc (suc (suc (suc (suc (suc (suc (suc zero))))))))) h = refl
code-digit (suc (suc (suc (suc (suc (suc (suc (suc (suc (suc n)))))))))) h = absurd (omega arith)

read-show_onto : (fuel n : ℕ) (s : String) → n < fuel → read 0 (show_onto fuel n s) ≡ read n s
unfolding show_onto read
read-show_onto zero n s h = elim h [ ]
read-show_onto (suc fuel) n s h = elim (Bool-cases (ltb n 10)) [
  | inl small ↦ rw small (ap (λ a. read a s) (ground (arith, code-digit n)))
  | inr large ↦ rw large (
      read-show_onto fuel (n / 10) (String.◌∷◌ (digit (n % 10)) s) (ground arith)
      ∙ ap (λ a. read a s) (omega (arith, code-digit (n % 10) (omega arith))))
]

read-to_string : (n : ℕ) → read 0 (to_string n) ≡ n
unfolding to_string read
read-to_string n = read-show_onto (suc n) n String.[] (omega arith)

-- Different numbers have different texts.
pub to_string-injective : (m n : ℕ) → to_string m ≡ to_string n → m ≡ n
to_string-injective m n h = sym (read-to_string m) ∙ ap (read 0) h ∙ read-to_string n

-- Texts without `/` between separators.
unfoldable pub slashless : String → Bool
slashless String.[] = true
slashless (String.◌∷◌ c s) = Bool.not (nat_beq (code c) 47) && slashless s

slashless-digit : (d : ℕ) → Bool.not (nat_beq (code (digit d)) 47) ≡ true
unfolding digit
slashless-digit zero = refl
slashless-digit (suc zero) = refl
slashless-digit (suc (suc zero)) = refl
slashless-digit (suc (suc (suc zero))) = refl
slashless-digit (suc (suc (suc (suc zero)))) = refl
slashless-digit (suc (suc (suc (suc (suc zero))))) = refl
slashless-digit (suc (suc (suc (suc (suc (suc zero)))))) = refl
slashless-digit (suc (suc (suc (suc (suc (suc (suc zero))))))) = refl
slashless-digit (suc (suc (suc (suc (suc (suc (suc (suc zero)))))))) = refl
slashless-digit (suc (suc (suc (suc (suc (suc (suc (suc (suc n))))))))) = refl

slashless-show_onto :
    (fuel n : ℕ) (s : String) → slashless s ≡ true → slashless (show_onto fuel n s) ≡ true
unfolding show_onto slashless
slashless-show_onto zero n s h = h
slashless-show_onto (suc fuel) n s h = elim (Bool-cases (ltb n 10)) [
  | inl small ↦ rw (small, slashless-digit n) h
  | inr large ↦ rw large (
      slashless-show_onto fuel (n / 10) (String.◌∷◌ (digit (n % 10)) s)
        (rw (slashless-digit (n % 10)) h))
]

pub slashless-to_string : (n : ℕ) → slashless (to_string n) ≡ true
unfolding to_string slashless
slashless-to_string n = slashless-show_onto (suc n) n String.[] refl

no_slash : (c : Char) (b : Bool) → (Bool.not (nat_beq (code c) 47) && b) ≡ true → c ≡ "/" → ⊥
no_slash c b h e = slash_not (subst (λ x. (Bool.not (nat_beq (code x) 47) && b) ≡ true) e h)
  where
    slash_not : false ≡ true → ⊥
    slash_not k = cc

and_right : (a : Bool) {b : Bool} → (a && b) ≡ true → b ≡ true
and_right true h = h
and_right false h = cc

-- Two texts are read back from their concatenation with a separator, where the first has none.
pub separator-injective :
    (a b s t : String)
    → slashless a ≡ true
    → slashless b ≡ true
    → a ++ String.◌∷◌ "/" s ≡ b ++ String.◌∷◌ "/" t
    → (a ≡ b) × (s ≡ t)
unfolding slashless
separator-injective String.[] String.[] s t h k e = (refl, tail-eq_of_cons-eq e)
separator-injective String.[] (String.◌∷◌ d b) s t h k e =
    absurd (no_slash d (slashless b) k (sym (head-eq_of_cons-eq e)))
separator-injective (String.◌∷◌ c a) String.[] s t h k e =
    absurd (no_slash c (slashless a) h (head-eq_of_cons-eq e))
separator-injective (String.◌∷◌ c a) (String.◌∷◌ d b) s t h k e =
    let rest =
      separator-injective a b s t (and_right (Bool.not (nat_beq (code c) 47)) h)
        (and_right (Bool.not (nat_beq (code d) 47)) k) (tail-eq_of_cons-eq e) in
    (λ i. String.◌∷◌ (head-eq_of_cons-eq e i) (rest.0 i), rest.1)
