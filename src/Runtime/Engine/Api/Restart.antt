-- ===== src/Runtime/Engine/Api/Restart.antt =====
-- crates/decision-gate-core/src/runtime/engine.rs: a run that is started again.
use mathlib.Core.Path.{subst}
use decision_gate.Prelude.{◌≡◌, refl, some, Bool, Bool-cases, inl, inr, ◌==◌, string_eq, nat_eq}
use decision_gate.Prelude.Outcome.{ok, err, ok-injective}
use decision_gate.Prelude.Action.{◌>>=◌, ◌>>◌, pure}
use decision_gate.Prelude.Action.Runs.{parts}
use decision_gate.Prelude.Action.Ensures.{Leaves, Leaves-bind}
use decision_gate.Core.Time.{Timestamp}
use decision_gate.Core.State.{RunConfig, RunState}
use decision_gate.Runtime.Json.{Json}
use decision_gate.Runtime.Interfaces.{RunStateStore, IsLawful}
use decision_gate.Runtime.Engine.Types.{ControlPlane, run_already_exists, store}
use decision_gate.Runtime.Engine.Trigger.Packets.{wrap}
use decision_gate.Runtime.Engine.Api.{start_run, absent}
use decision_gate.Runtime.Engine.Api.Start.{start_run-Started}
use decision_gate.Runtime.Engine.Api.Stored.{save, mapped-ok}

err-ok {ℓ κ} : {E : Type ℓ} {A : Type κ} (e : E) (a : A) → err e ≡ ok a → ⊥
err-ok e a h = cc

module _ (J : Json) {W : Type 0} (plane : ControlPlane J W) where
  open J use {Value}
  open plane use {spec}

  -- The run was saved last.
  abbrev Kept : RunState Value → W → Type 0
  Kept s w' = (w : W) × ((save J plane s w).0 ≡ ok tt) × (w' ≡ (save J plane s w).1)

  saved-Kept : (s : RunState Value) → Leaves Kept (wrap store (save J plane s) >> pure s)
  unfolding ◌>>=◌
  saved-Kept s = record {
    at = λ w a e.
        let p = parts (wrap store (save J plane s)) (λ _. pure s) w a e in
        subst (λ x. Kept x ((wrap store (save J plane s) >> pure s) w).1)
          (ok-injective s a p.second) (w, mapped-ok store (save J plane s w).0 tt p.first, p.state);
  }

  start_run-Kept :
      (run : RunConfig) (started_at : Timestamp) (dispatch_initial : Bool)
      → Leaves Kept (start_run J plane run started_at dispatch_initial)
  unfolding start_run
  start_run-Kept run started_at dispatch_initial = Leaves-bind _ _ _ λ _. Leaves-bind _ _ _ λ _.
      Leaves-bind _ _ _ λ existing. Leaves-bind _ _ _ λ _.
        Leaves-bind _ _ _
          λ stage_id. Leaves-bind _ _ _ λ spec_hash. Leaves-bind _ _ _ λ state. saved-Kept state

  refused :
      (run : RunConfig) (started_at : Timestamp) (dispatch_initial : Bool) (w w' : W)
      (s s' : RunState Value)
      → (start_run J plane run started_at dispatch_initial w).0 ≡ ok s
      → (RunStateStore.load plane.store run.tenant_id run.namespace_id run.run_id w').0
        ≡ ok (some s')
      → (RunStateStore.load plane.store run.tenant_id run.namespace_id run.run_id w').1 ≡ w'
      → (again : Timestamp) (dispatch_again : Bool)
      → start_run J plane run again dispatch_again w' ≡ (err (run_already_exists run.run_id), w')
  unfolding start_run ◌>>=◌ absent
  refused run started_at dispatch_initial w w' s s' h l reads again dispatch_again =
      elim (Bool-cases (run.scenario_id == spec.scenario_id)) [
        | inl same ↦ elim (Bool-cases (run.namespace_id == spec.namespace_id)) [
          | inl inside ↦ rw (same, inside, l, reads) refl
          | inr outside ↦ absurd (err-ok _ _ (rw (same, outside) at h))
        ]
        | inr other ↦ absurd (err-ok _ _ (rw other at h))
      ]

  -- Over a lawful store, a run that was started is not started again: whatever the second call's time
  -- and dispatch flag are, it is refused because the run exists, and leaves the world with the store in it
  -- exactly as the first call left it: nothing is saved and nothing is dispatched.
  pub start_run-again :
      (run : RunConfig) (started_at : Timestamp) (dispatch_initial : Bool) (w : W)
      (s : RunState Value) (again : Timestamp) (dispatch_again : Bool)
      → IsLawful plane.store
      → (start_run J plane run started_at dispatch_initial w).0 ≡ ok s
      → start_run J plane run again dispatch_again
          (start_run J plane run started_at dispatch_initial w).1
        ≡ (
          err (run_already_exists run.run_id),
          (start_run J plane run started_at dispatch_initial w).1,
        )
  start_run-again run started_at dispatch_initial w s again dispatch_again lawful h =
      let fresh = start_run-Started J plane run started_at dispatch_initial w s h in
      let (before, saved, world) = (start_run-Kept run started_at dispatch_initial).at w s h in
      let loaded = lawful.load_saved s before saved in
      refused run started_at dispatch_initial w _ s s h
        (rw (world, ← fresh.tenant_id, ← fresh.namespace_id, ← fresh.run_id) loaded)
        (lawful.load_reads run.tenant_id run.namespace_id run.run_id _) again dispatch_again
