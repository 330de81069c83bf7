-- ===== src/Prelude/Keys.antt =====
-- Equality tests as an interface: `==` of Rust's `PartialEq` on identifiers and numbers.
use Prim.Native.Nat.{ℕ}
use Prim.Native.String.{String}
use mathlib.Core.Path.{◌≡◌}
use mathlib.Core.Logic.{◌↔◌}
use mathlib.Core.Bool.{Bool, true}
use mathlib.Core.List.{List}
use native.Mathlib.Omega.{arith}
use text.Mathlib.Text.{◌==◌ as str_eq}
use text.Mathlib.TextEquality.{eq_iff}
use decision_gate.Prelude.Numbers.{nat_beq}
use decision_gate.Prelude.Lists.{any}

pub record PartialEq {ℓ} (A : Type ℓ) : Type ℓ where
  pub eq : (self other : A) → Bool
  -- The test decides equality.
  pub eq_lem : (self other : A) → (eq self other ≡ true) ↔ (self ≡ other)

infix 50 ◌==◌
abbrev pub ◌==◌ {ℓ} : {A : Type ℓ} ⦃keys : PartialEq A⦄ → A → A → Bool
◌==◌ ⦃keys⦄ = keys.eq

pub nat_beq_iff : (a b : ℕ) → (nat_beq a b ≡ true) ↔ (a ≡ b)
nat_beq_iff a b = ground arith

instance abbrev pub nat_eq : PartialEq ℕ
nat_eq = record { eq = nat_beq; eq_lem = nat_beq_iff }

instance abbrev pub string_eq : PartialEq String
string_eq = record { eq = str_eq; eq_lem = eq_iff }

-- `contains`
abbrev pub contains {ℓ} : {A : Type ℓ} ⦃e : PartialEq A⦄ → List A → A → Bool
contains xs a = any (λ x. x == a) xs
