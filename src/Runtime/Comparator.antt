-- ===== src/Runtime/Comparator.antt =====
-- crates/decision-gate-core/src/runtime/comparator.rs: evidence and an expected value to a
-- tri-state status.
pub mod Text
pub mod Complement
use Prim.Native.Nat.{Ordering}
use mathlib.Core.Bool
use decision_gate.Prelude.{
  ℕ, ◌^◌, ◌-◌, String, Bool, true, false, Option, none, some, List, [], ◌∷◌, leb, ltb,
  if◌then◌else◌, all, contains as list_contains, PartialEq, ◌==◌, nat_eq, nat_beq,
}
use decision_gate.RetLogic.TriState.{TriState, from_bool}
use decision_gate.Core.Evidence.{
  Comparator, equals, not_equals, greater_than, greater_than_or_equal, less_than,
  less_than_or_equal, lex_greater_than, lex_greater_than_or_equal, lex_less_than,
  lex_less_than_or_equal, contains, in_set, deep_equals, deep_not_equals, exists, not_exists,
  EvidenceValue, EvidenceResult,
}
use decision_gate.Core.Evidence
use decision_gate.Runtime.Json.{Json, View, null, bool, number, string, array, object}
use decision_gate.Runtime.Comparator.Text.{
  string_cmp, contains_text, split, parse_unsigned, bytes_beq,
}

-- `Ordering::is_gt`, `is_ge`, `is_lt`, `is_le`
abbrev pub is_gt : Ordering → Bool
is_gt Ordering.gt = true
is_gt _ = false

abbrev pub is_lt : Ordering → Bool
is_lt Ordering.lt = true
is_lt _ = false

abbrev pub is_eq : Ordering → Bool
is_eq Ordering.eq = true
is_eq _ = false

-- The match that `compare_ordering` makes on its comparator, twice.
abbrev pub ordering_holds : Comparator → Ordering → TriState
ordering_holds greater_than o = from_bool (is_gt o)
ordering_holds greater_than_or_equal o = from_bool (Bool.not (is_lt o))
ordering_holds less_than o = from_bool (is_lt o)
ordering_holds less_than_or_equal o = from_bool (Bool.not (is_gt o))
ordering_holds _ o = TriState.unknown

abbrev pub lex_holds : Comparator → Ordering → TriState
lex_holds lex_greater_than o = from_bool (is_gt o)
lex_holds lex_greater_than_or_equal o = from_bool (Bool.not (is_lt o))
lex_holds lex_less_than o = from_bool (is_lt o)
lex_holds lex_less_than_or_equal o = from_bool (Bool.not (is_gt o))
lex_holds _ o = TriState.unknown

module _ (J : Json) where
  open J use {
    Value, Number, Decimal, Date, value_eq, view, as_u64, number_to_string, parse_decimal,
    decimal_cmp, parse_instant, instant_cmp, calendar_date, date_cmp,
  }

  abbrev beq : Value → Value → Bool
  beq a b = ◌==◌ ⦃keys = value_eq⦄ a b

  abbrev pub decimal_from_number : Number → Option Decimal
  decimal_from_number n = parse_decimal (number_to_string n)

  abbrev pub compare_decimal_equality : Number → Number → Bool → TriState
  compare_decimal_equality left right equal = elim (decimal_from_number left) [
    | none ↦ TriState.unknown
    | some l ↦ elim (decimal_from_number right) [
      | none ↦ TriState.unknown
      | some r ↦
          from_bool (if equal then is_eq (decimal_cmp l r) else Bool.not (is_eq (decimal_cmp l r)))
    ]
  ]

  abbrev number_cmp : Number → Number → Option Ordering
  number_cmp left right = elim (decimal_from_number left) [
    | none ↦ none
    | some l ↦ elim (decimal_from_number right) [ none ↦ none | some r ↦ some (decimal_cmp l r) ]
  ]

  abbrev parse_parts : List String → Option Date
  parse_parts (year ∷ month ∷ day ∷ []) = elim (parse_unsigned (2 ^ 31 - 1) year) [
    | none ↦ none
    | some y ↦ elim (parse_unsigned 255 month) [
      | none ↦ none
      | some m ↦ elim (parse_unsigned 255 day) [ none ↦ none | some d ↦ calendar_date y m d ]
    ]
  ]
  parse_parts _ = none

  unfoldable pub parse_rfc3339_date : String → Option Date
  parse_rfc3339_date value = parse_parts (split value)

  abbrev date_order : String → String → Option Ordering
  date_order left right = elim (parse_rfc3339_date left) [
    | none ↦ none
    | some l ↦ elim (parse_rfc3339_date right) [ none ↦ none | some r ↦ some (date_cmp l r) ]
  ]

  unfoldable pub temporal_cmp : String → String → Option Ordering
  temporal_cmp left right = elim (parse_instant left) [
    | none ↦ date_order left right
    | some l ↦ elim (parse_instant right) [
      | none ↦ date_order left right
      | some r ↦ some (instant_cmp l r)
    ]
  ]

  equal_views : View Value Number → View Value Number → Bool → Bool → TriState
  equal_views (number l) (number r) equal same = compare_decimal_equality l r equal
  equal_views _ _ equal same = from_bool (if equal then same else Bool.not same)

  unfoldable pub compare_equals : Value → Value → TriState
  unfolding equal_views
  compare_equals left right = equal_views (view left) (view right) true (beq left right)

  unfoldable pub compare_not_equals : Value → Value → TriState
  unfolding equal_views
  compare_not_equals left right = equal_views (view left) (view right) false (beq left right)

  ordering_views : Comparator → View Value Number → View Value Number → TriState
  ordering_views comparator (number l) (number r) = elim (number_cmp l r) [
    | none ↦ TriState.unknown
    | some o ↦ ordering_holds comparator o
  ]
  ordering_views comparator (string l) (string r) = elim (temporal_cmp l r) [
    | none ↦ TriState.unknown
    | some o ↦ ordering_holds comparator o
  ]
  ordering_views comparator _ _ = TriState.unknown

  unfoldable pub compare_ordering : Comparator → Value → Value → TriState
  unfolding ordering_views
  compare_ordering comparator left right = ordering_views comparator (view left) (view right)

  lexicographic_views : Comparator → View Value Number → View Value Number → TriState
  lexicographic_views comparator (string l) (string r) = lex_holds comparator (string_cmp l r)
  lexicographic_views comparator _ _ = TriState.unknown

  unfoldable pub compare_lexicographic : Comparator → Value → Value → TriState
  unfolding lexicographic_views
  compare_lexicographic comparator left right =
      lexicographic_views comparator (view left) (view right)

  deep_views : View Value Number → View Value Number → Bool → TriState
  deep_views (array _) (array _) outcome = from_bool outcome
  deep_views (object _) (object _) outcome = from_bool outcome
  deep_views _ _ outcome = TriState.unknown

  unfoldable pub compare_deep_equals : Value → Value → TriState
  unfolding deep_views
  compare_deep_equals left right = deep_views (view left) (view right) (beq left right)

  unfoldable pub compare_deep_not_equals : Value → Value → TriState
  unfolding deep_views
  compare_deep_not_equals left right =
      deep_views (view left) (view right) (Bool.not (beq left right))

  contains_views : View Value Number → View Value Number → TriState
  contains_views (string haystack) (string needle) = from_bool (contains_text haystack needle)
  contains_views (array haystack) (array needle) =
      from_bool (all (λ item. list_contains ⦃e = value_eq⦄ haystack item) needle)
  contains_views _ _ = TriState.unknown

  unfoldable pub compare_contains : Value → Value → TriState
  unfolding contains_views
  compare_contains left right = contains_views (view left) (view right)

  abbrev is_container : View Value Number → Bool
  is_container (array _) = true
  is_container (object _) = true
  is_container _ = false

  in_set_views : Value → View Value Number → TriState
  in_set_views value (array values) =
      if is_container (view value)
      then TriState.unknown
      else from_bool (list_contains ⦃e = value_eq⦄ values value)
  in_set_views value _ = TriState.unknown

  unfoldable pub compare_in_set : Value → Value → TriState
  unfolding in_set_views
  compare_in_set value expected = in_set_views value (view expected)

  json_against : Comparator → Value → Value → TriState
  json_against equals evidence expected = compare_equals evidence expected
  json_against not_equals evidence expected = compare_not_equals evidence expected
  json_against greater_than evidence expected = compare_ordering greater_than evidence expected
  json_against greater_than_or_equal evidence expected =
      compare_ordering greater_than_or_equal evidence expected
  json_against less_than evidence expected = compare_ordering less_than evidence expected
  json_against less_than_or_equal evidence expected =
      compare_ordering less_than_or_equal evidence expected
  json_against lex_greater_than evidence expected =
      compare_lexicographic lex_greater_than evidence expected
  json_against lex_greater_than_or_equal evidence expected =
      compare_lexicographic lex_greater_than_or_equal evidence expected
  json_against lex_less_than evidence expected =
      compare_lexicographic lex_less_than evidence expected
  json_against lex_less_than_or_equal evidence expected =
      compare_lexicographic lex_less_than_or_equal evidence expected
  json_against contains evidence expected = compare_contains evidence expected
  json_against in_set evidence expected = compare_in_set evidence expected
  json_against deep_equals evidence expected = compare_deep_equals evidence expected
  json_against deep_not_equals evidence expected = compare_deep_not_equals evidence expected
  json_against exists evidence expected = TriState.unknown
  json_against not_exists evidence expected = TriState.unknown

  unfoldable pub evaluate_json_comparator : Comparator → Option Value → Value → TriState
  unfolding json_against
  evaluate_json_comparator comparator none evidence = TriState.unknown
  evaluate_json_comparator comparator (some expected) evidence =
      json_against comparator evidence expected

  -- `value.as_u64()`, refused above `u8::MAX`.
  byte_of_view : View Value Number → Option ℕ
  byte_of_view (number n) = elim (as_u64 n) [
    | none ↦ none
    | some byte ↦ if ltb 255 byte then none else some byte
  ]
  byte_of_view _ = none

  -- The loop that reads the expected bytes.
  bytes_of : List Value → Option (List ℕ)
  unfolding byte_of_view
  bytes_of [] = some []
  bytes_of (value ∷ values) = elim (byte_of_view (view value)) [
    | none ↦ none
    | some byte ↦ elim (bytes_of values) [ none ↦ none | some out ↦ some (byte ∷ out) ]
  ]

  expected_bytes : View Value Number → Option (List ℕ)
  unfolding bytes_of
  expected_bytes (array values) = bytes_of values
  expected_bytes _ = none

  abbrev compare_bytes : Comparator → List ℕ → List ℕ → TriState
  compare_bytes equals bytes expected = from_bool (bytes_beq bytes expected)
  compare_bytes not_equals bytes expected = from_bool (Bool.not (bytes_beq bytes expected))
  compare_bytes _ bytes expected = TriState.unknown

  unfoldable pub evaluate_bytes_comparator : Comparator → Option Value → List ℕ → TriState
  unfolding expected_bytes
  evaluate_bytes_comparator comparator none bytes = TriState.unknown
  evaluate_bytes_comparator comparator (some expected) bytes =
      elim (expected_bytes (view expected)) [
        | none ↦ TriState.unknown
        | some out ↦ compare_bytes comparator bytes out
      ]

  evaluate_value : Comparator → Option Value → Option (EvidenceValue Value) → TriState
  evaluate_value comparator expected none = TriState.unknown
  evaluate_value comparator expected (some (EvidenceValue.json json)) =
      evaluate_json_comparator comparator expected json
  evaluate_value comparator expected (some (EvidenceValue.bytes bytes)) =
      evaluate_bytes_comparator comparator expected bytes

  abbrev is_some {ℓ} : {A : Type ℓ} → Option A → Bool
  is_some none = false
  is_some (some a) = true

  unfoldable pub evaluate_comparator : Comparator → Option Value → EvidenceResult Value → TriState
  unfolding evaluate_value
  evaluate_comparator exists expected evidence =
      if is_some evidence.value then TriState.true else TriState.false
  evaluate_comparator not_exists expected evidence =
      if is_some evidence.value then TriState.false else TriState.true
  evaluate_comparator comparator expected evidence =
      evaluate_value comparator expected evidence.value
