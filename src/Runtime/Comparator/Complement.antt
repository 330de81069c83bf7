-- ===== src/Runtime/Comparator/Complement.antt =====
-- crates/decision-gate-core/src/runtime/comparator.rs: comparators that ask opposite questions.
use mathlib.Core.Bool
use decision_gate.Prelude.{ℕ, Bool, true, false, Option, none, some, ◌≡◌, refl, arith, List}
use decision_gate.RetLogic.TriState.{TriState, tri_not, from_bool}
use decision_gate.Core.Evidence.{
  Comparator, equals, not_equals, greater_than, greater_than_or_equal, less_than,
  less_than_or_equal, lex_greater_than, lex_greater_than_or_equal, lex_less_than,
  lex_less_than_or_equal, deep_equals, deep_not_equals, exists, not_exists, EvidenceValue,
  EvidenceResult,
}
use Prim.Native.Nat.{Ordering}
use decision_gate.Runtime.Json.{Json, View}
use decision_gate.Runtime.Comparator.{
  is_gt, is_lt, ordering_holds, evaluate_comparator, evaluate_value, evaluate_json_comparator,
  evaluate_bytes_comparator, json_against, compare_equals, compare_not_equals, compare_ordering,
  compare_lexicographic, compare_deep_equals, compare_deep_not_equals, equal_views, ordering_views,
  lexicographic_views, deep_views, expected_bytes, compare_bytes, compare_decimal_equality,
}
use decision_gate.Runtime.Comparator.Text.{bytes_beq}

-- The second comparator asks for the opposite of the first.
pub data Complementary : Comparator → Comparator → Type 0 where
  equality : Complementary equals not_equals
  above : Complementary greater_than less_than_or_equal
  below : Complementary less_than greater_than_or_equal
  lex_above : Complementary lex_greater_than lex_less_than_or_equal
  lex_below : Complementary lex_less_than lex_greater_than_or_equal
  deep_equality : Complementary deep_equals deep_not_equals
  presence : Complementary exists not_exists

not_from_bool : (b : Bool) → from_bool (Bool.not b) ≡ tri_not (from_bool b)
not_from_bool true = refl
not_from_bool false = refl

ordered_above :
    (o : Ordering) → ordering_holds less_than_or_equal o ≡ tri_not (ordering_holds greater_than o)
ordered_above o = not_from_bool (is_gt o)

ordered_below :
    (o : Ordering) → ordering_holds greater_than_or_equal o ≡ tri_not (ordering_holds less_than o)
ordered_below o = not_from_bool (is_lt o)

module _ (J : Json) where
  open J use {Value, Number, view}

  decimals :
      (l r : Number)
      → compare_decimal_equality J l r false ≡ tri_not (compare_decimal_equality J l r true)
  decimals l r = ground arith

  views_equal :
      (l r : View Value Number) (same : Bool)
      → equal_views J l r false same ≡ tri_not (equal_views J l r true same)
  unfolding equal_views
  views_equal l r same = ground arith

  views_above :
      (l r : View Value Number)
      → ordering_views J less_than_or_equal l r ≡ tri_not (ordering_views J greater_than l r)
  unfolding ordering_views
  views_above l r = ground arith

  views_below :
      (l r : View Value Number)
      → ordering_views J greater_than_or_equal l r ≡ tri_not (ordering_views J less_than l r)
  unfolding ordering_views
  views_below l r = ground arith

  views_lex_above :
      (l r : View Value Number)
      → lexicographic_views J lex_less_than_or_equal l r
        ≡ tri_not (lexicographic_views J lex_greater_than l r)
  unfolding lexicographic_views
  views_lex_above l r = ground arith

  views_lex_below :
      (l r : View Value Number)
      → lexicographic_views J lex_greater_than_or_equal l r
        ≡ tri_not (lexicographic_views J lex_less_than l r)
  unfolding lexicographic_views
  views_lex_below l r = ground arith

  views_deep :
      (l r : View Value Number) (same : Bool)
      → deep_views J l r (Bool.not same) ≡ tri_not (deep_views J l r same)
  unfolding deep_views
  views_deep l r same = ground arith

  json_complement :
      (c d : Comparator)
      → Complementary c d
      → (evidence expected : Value)
      → json_against J d evidence expected ≡ tri_not (json_against J c evidence expected)
  unfolding json_against compare_equals compare_not_equals compare_ordering compare_lexicographic
      compare_deep_equals compare_deep_not_equals
  json_complement c d equality evidence expected = views_equal _ _ _
  json_complement c d above evidence expected = views_above _ _
  json_complement c d below evidence expected = views_below _ _
  json_complement c d lex_above evidence expected = views_lex_above _ _
  json_complement c d lex_below evidence expected = views_lex_below _ _
  json_complement c d deep_equality evidence expected = views_deep _ _ _
  json_complement c d presence evidence expected = refl

  bytes_complement :
      (c d : Comparator)
      → Complementary c d
      → (bytes expected : List ℕ)
      → compare_bytes J d bytes expected ≡ tri_not (compare_bytes J c bytes expected)
  bytes_complement c d equality bytes expected = not_from_bool (bytes_beq bytes expected)
  bytes_complement c d above bytes expected = refl
  bytes_complement c d below bytes expected = refl
  bytes_complement c d lex_above bytes expected = refl
  bytes_complement c d lex_below bytes expected = refl
  bytes_complement c d deep_equality bytes expected = refl
  bytes_complement c d presence bytes expected = refl

  bytes_against :
      (c d : Comparator)
      → Complementary c d
      → (bytes : List ℕ) (out : Option (List ℕ))
      → (elim out [ none ↦ TriState.unknown | some o ↦ compare_bytes J d bytes o ])
        ≡ tri_not (elim out [ none ↦ TriState.unknown | some o ↦ compare_bytes J c bytes o ])
  bytes_against c d k bytes none = refl
  bytes_against c d k bytes (some out) = bytes_complement c d k bytes out

  value_complement :
      (c d : Comparator)
      → Complementary c d
      → (expected : Option Value) (value : Option (EvidenceValue Value))
      → evaluate_value J d expected value ≡ tri_not (evaluate_value J c expected value)
  unfolding evaluate_value evaluate_json_comparator evaluate_bytes_comparator
  value_complement c d k expected none = refl
  value_complement c d k none (some (EvidenceValue.json v)) = refl
  value_complement c d k (some e) (some (EvidenceValue.json v)) = json_complement c d k v e
  value_complement c d k none (some (EvidenceValue.bytes b)) = refl
  value_complement c d k (some e) (some (EvidenceValue.bytes b)) =
      bytes_against c d k b (expected_bytes J (view e))

  present :
      (value : Option (EvidenceValue Value)) (expected : Option Value) (e : EvidenceResult Value)
      → e.value ≡ value
      → evaluate_comparator J not_exists expected e
        ≡ tri_not (evaluate_comparator J exists expected e)
  unfolding evaluate_comparator
  present none expected e h = rw h refl
  present (some v) expected e h = rw h refl

  -- Complementary comparators give complementary verdicts on any evidence and any expected value:
  -- where one settles a condition the other settles it the other way, and they are unknown together,
  -- for missing values, values of different types, and texts and numbers that do not parse.
  pub evaluate_comparator-Complementary :
      (c d : Comparator) (expected : Option Value) (evidence : EvidenceResult Value)
      → Complementary c d
      → evaluate_comparator J d expected evidence
        ≡ tri_not (evaluate_comparator J c expected evidence)
  unfolding evaluate_comparator
  evaluate_comparator-Complementary c d expected e equality =
      value_complement _ _ equality expected e.value
  evaluate_comparator-Complementary c d expected e above =
      value_complement _ _ above expected e.value
  evaluate_comparator-Complementary c d expected e below =
      value_complement _ _ below expected e.value
  evaluate_comparator-Complementary c d expected e lex_above =
      value_complement _ _ lex_above expected e.value
  evaluate_comparator-Complementary c d expected e lex_below =
      value_complement _ _ lex_below expected e.value
  evaluate_comparator-Complementary c d expected e deep_equality =
      value_complement _ _ deep_equality expected e.value
  evaluate_comparator-Complementary c d expected e presence = present e.value expected e refl
