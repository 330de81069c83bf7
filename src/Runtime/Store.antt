-- ===== src/Runtime/Store.antt =====
-- crates/decision-gate-core/src/runtime/store.rs: the in-memory run state store. The map behind its
-- lock is the world of the actions.
pub mod Lawful
pub mod Registry
use decision_gate.Prelude.{ℕ, String, [], Option, some, Bool, if◌then◌else◌}
use decision_gate.Prelude.Action.{Action, ◌>>=◌, pure, lift}
use decision_gate.Prelude.Decimal
use decision_gate.Prelude.Decimal.{to_string}
use decision_gate.Prelude.Map.{Entries, lookup, insert}
use decision_gate.Prelude.Outcome.{Outcome, ok, err}
use decision_gate.Core.State.{RunState}
use decision_gate.Runtime.Interfaces.{StoreError, store, RunStateStore}

-- `format!("{tenant_id}/{namespace_id}/{run_id}")`
unfoldable pub run_key : ℕ → ℕ → String → String
run_key tenant_id namespace_id run_id =
    Decimal.◌++◌ (to_string tenant_id)
      (Decimal.◌++◌ "/" (Decimal.◌++◌ (to_string namespace_id) (Decimal.◌++◌ "/" run_id)))

-- `poisoned`: a thread panicked while it held the lock.
pub record InMemoryRunStateStore (V : Type 0) : Type 0 where
  pub runs : Entries (RunState V)
  pub poisoned : Bool

abbrev pub empty_store : {V : Type 0} → InMemoryRunStateStore V
empty_store = record { runs = []; poisoned = Bool.false }

module _ {V : Type 0} where
  -- `lock().map_err(..)?`
  unfoldable pub locked :
      {A : Type 0}
      → (Entries (RunState V) → A × Entries (RunState V))
      → Action StoreError (InMemoryRunStateStore V) A
  locked use_guard s =
      if s.poisoned
      then (err (store "run state store mutex poisoned"), s)
      else (ok (use_guard s.runs).0, record s { runs = (use_guard s.runs).1 })

  unfoldable pub load :
      ℕ → ℕ → String → Action StoreError (InMemoryRunStateStore V) (Option (RunState V))
  unfolding locked
  load tenant_id namespace_id run_id =
      locked (λ guard. (lookup guard (run_key tenant_id namespace_id run_id), guard))

  unfoldable pub save : RunState V → Action StoreError (InMemoryRunStateStore V) (Unit {0})
  unfolding locked
  save state =
      locked (λ guard.
        (tt, insert (run_key state.tenant_id state.namespace_id state.run_id) state guard))

-- `impl RunStateStore for InMemoryRunStateStore`. A `SharedRunStateStore` passes every call on.
abbrev pub in_memory_store : {V : Type 0} → RunStateStore V (InMemoryRunStateStore V)
in_memory_store = record { load = load; save = save }
