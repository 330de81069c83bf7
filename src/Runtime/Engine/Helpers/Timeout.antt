-- ===== src/Runtime/Engine/Helpers/Timeout.antt =====
-- The deadline of a stage: `timeout_expired` as time goes by.
use decision_gate.Prelude.{ℕ, ◌≤◌, ◌≡◌, arith, true}
use decision_gate.Prelude.Int.{ℤ, add_ℕ, leb_ℤ}
use decision_gate.Prelude.Outcome.{ok}
use decision_gate.Core.Time.{Timestamp, unix_millis, logical}
use decision_gate.Runtime.Engine.Helpers.{timeout_expired}

-- The second time is of the kind of the first, and no earlier.
abbrev pub Later : Timestamp → Timestamp → Type 0
Later (unix_millis a) (unix_millis b) = leb_ℤ a b ≡ true
Later (logical a) (logical b) = a ≤ b
Later _ _ = ⊥

leb_ℤ-trans : (a b c : ℤ) → leb_ℤ a b ≡ true → leb_ℤ b c ≡ true → leb_ℤ a c ≡ true
leb_ℤ-trans a b c h k = ground arith

-- A deadline that has passed stays passed: where `timeout_expired` answers true at one time, it answers
-- true, with no error, at every later time of the same kind.
pub timeout_expired-Later :
    (start now later : Timestamp) (timeout_ms : ℕ)
    → timeout_expired start now timeout_ms ≡ ok true
    → Later now later
    → timeout_expired start later timeout_ms ≡ ok true
unfolding timeout_expired
timeout_expired-Later (unix_millis a) (unix_millis b) (unix_millis c) ms h k =
    ground (arith, leb_ℤ-trans (add_ℕ a ms) b c)
timeout_expired-Later (logical a) (logical b) (logical c) ms h k = ground arith
timeout_expired-Later (unix_millis a) (logical b) c ms h k = cc
timeout_expired-Later (logical a) (unix_millis b) c ms h k = cc
timeout_expired-Later (unix_millis a) (unix_millis b) (logical c) ms h k = absurd k
timeout_expired-Later (logical a) (logical b) (unix_millis c) ms h k = absurd k
