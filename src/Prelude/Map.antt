-- ===== src/Prelude/Map.antt =====
-- `BTreeMap<String, V>`: entries in the order of their keys, which are compared as bytes.
use Prim.Native.Nat.{Ordering}
use Prim.Native.String.{String, compare}
use mathlib.Core.Bool.{Bool, true, false}
use mathlib.Core.List.{List, [], ◌∷◌}
use mathlib.Core.Logic.{◌≢◌}
use mathlib.Core.Option.{Option, none, some}
use mathlib.Core.Path.{◌≡◌, refl, sym, ap, ◌∙◌}
use text.Mathlib.Text.{is_eq}
use text.Mathlib.TextEquality.{path_by_compare}
use decision_gate.Prelude.Distinct.{same, not_equal}
use decision_gate.Prelude.Keys.{◌==◌, string_eq}
use decision_gate.Prelude.Numbers.{if◌then◌else◌}

abbrev pub Entries {ℓ} : Type ℓ → Type ℓ
Entries V = List (String × V)

true≢false : ◌≡◌ {A = Bool} true false → ⊥
true≢false h = cc

differ : (key k : String) → compare key k ≡ Ordering.gt → (k == key) ≡ false
differ key k h =
    (not_equal k key).1
      λ p. absurd (true≢false (sym (same key) ∙ ap is_eq (ap (compare key) (sym p) ∙ h)))

module _ {ℓ} {V : Type ℓ} where
  -- `get`
  unfoldable pub lookup : Entries V → String → Option V
  lookup [] key = none
  lookup (e ∷ m) key = if e.0 == key then some e.1 else lookup m key

  -- The entry before, in place of, or after the first one.
  abbrev placed : String → V → String × V → Entries V → Entries V → Ordering → Entries V
  placed key v e m rest Ordering.lt = (key, v) ∷ e ∷ m
  placed key v e m rest Ordering.eq = (key, v) ∷ m
  placed key v e m rest Ordering.gt = e ∷ rest

  -- `insert`, which replaces the value of a key that is there.
  unfoldable pub insert : String → V → Entries V → Entries V
  insert key v [] = (key, v) ∷ []
  insert key v (e ∷ m) = placed key v e m (insert key v m) (compare key e.0)

  pub lookup-insert : (key : String) (v : V) (m : Entries V) → lookup (insert key v m) key ≡ some v
  unfolding lookup insert
  lookup-insert key v [] = rw (same key) refl
  lookup-insert key v (e ∷ m) = at (compare key e.0) refl (lookup-insert key v m)
    where
      at :
          (o : Ordering)
          → compare key e.0 ≡ o
          → lookup (insert key v m) key ≡ some v
          → lookup (placed key v e m (insert key v m) o) key ≡ some v
      at Ordering.lt h rest = rw (same key) refl
      at Ordering.eq h rest = rw (same key) refl
      at Ordering.gt h rest = rw (differ key e.0 h) rest

  pub lookup-insert_other :
      (key other : String) (v : V) (m : Entries V)
      → key ≢ other
      → lookup (insert key v m) other ≡ lookup m other
  unfolding lookup insert
  lookup-insert_other key other v [] n = rw ((not_equal key other).1 n) refl
  lookup-insert_other key other v (e ∷ m) n =
      at (compare key e.0) refl (lookup-insert_other key other v m n)
    where
      at :
          (o : Ordering)
          → compare key e.0 ≡ o
          → lookup (insert key v m) other ≡ lookup m other
          → lookup (placed key v e m (insert key v m) o) other ≡ lookup (e ∷ m) other
      at Ordering.lt h rest = rw ((not_equal key other).1 n) refl
      at Ordering.eq h rest =
          rw
            (
              (not_equal key other).1 n,
              (not_equal e.0 other).1 (λ p. n (path_by_compare key e.0 h ∙ p)),
            )
            refl
      at Ordering.gt h rest = ap (λ r. if e.0 == other then some e.1 else r) rest
