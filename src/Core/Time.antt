-- ===== src/Core/Time.antt =====
-- crates/decision-gate-core/src/core/time.rs
use decision_gate.Prelude.{ℕ, Option, none, some}
use decision_gate.Prelude.Int.{ℤ}

pub data Timestamp : Type 0 where
  unix_millis : ℤ → Timestamp
  logical : ℕ → Timestamp

unfoldable pub as_unix_millis : Timestamp → Option ℤ
as_unix_millis (unix_millis value) = some value
as_unix_millis (logical value) = none

unfoldable pub as_logical : Timestamp → Option ℕ
as_logical (unix_millis value) = none
as_logical (logical value) = some value
