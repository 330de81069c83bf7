-- ===== src/Runtime/Json.antt =====
-- What the runtime uses of `serde_json`, `bigdecimal` and `time`, none of which is part of the
-- repository: JSON values with their views, decimals, instants and dates.
use Prim.Native.Nat.{Ordering}
use decision_gate.Prelude.{ℕ, String, List, Option, Bool, PartialEq}

-- The variants of `serde_json::Value`, with the immediate parts of a value.
pub data View (V N : Type 0) : Type 0 where
  null : View V N
  bool : Bool → View V N
  number : N → View V N
  string : String → View V N
  array : List V → View V N
  object : List (String × V) → View V N

pub record Json : Type 1 where
  pub Value : Type 0
  pub Number : Type 0
  pub Decimal : Type 0
  pub Instant : Type 0
  pub Date : Type 0
  pub value_eq : PartialEq Value
  pub view : Value → View Value Number
  -- `serde_json::from_str(s).ok()`
  pub from_str : String → Option Value
  -- `Number::as_u64`, `Number::to_string`
  pub as_u64 : Number → Option ℕ
  pub number_to_string : Number → String
  -- `BigDecimal::from_str(s).ok()`; its equality is that of its order.
  pub parse_decimal : String → Option Decimal
  pub decimal_cmp : Decimal → Decimal → Ordering
  -- `OffsetDateTime::parse(s, &Rfc3339).ok()`
  pub parse_instant : String → Option Instant
  pub instant_cmp : Instant → Instant → Ordering
  -- `Month::try_from(month)` and then `Date::from_calendar_date(year, month, day)`
  pub calendar_date : (year month day : ℕ) → Option Date
  pub date_cmp : Date → Date → Ordering
