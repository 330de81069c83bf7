-- ===== src/Runtime/Engine/Precheck/Predicts.antt =====
-- crates/decision-gate-core/src/runtime/engine.rs: `precheck_decision` next to the decision of a run.
use mathlib.Core.Bool
use decision_gate.Prelude.{◌≡◌, String, List, [], map, false, ◌⊎◌}
use decision_gate.Prelude.Outcome.{Outcome, ok, err, ◌>>=◌ as ◌>>=ᵒ◌}
use decision_gate.Prelude.Action.{◌>>=◌}
use decision_gate.RetLogic.TriState.{TriState}
use decision_gate.Core.State.{
  RunState, TriggerEvent, GateEvalRecord, GateEvaluation, DecisionOutcome, advance, failed,
}
use decision_gate.Runtime.Json.{Json}
use decision_gate.Runtime.Engine.Types.{ControlPlane, ControlPlaneError}
use decision_gate.Runtime.Engine.Helpers.{Fallible}
use decision_gate.Runtime.Engine.Trigger.{Decided, decision_for}
use decision_gate.Runtime.Engine.Trigger.Packets.{issue_stage_packets}

module _ {V : Type 0} where
  abbrev evaluations_of : List (GateEvalRecord V) → List GateEvaluation
  evaluations_of records = map (λ r. r.evaluation) records

module _ (J : Json) {W : Type 0} (plane : ControlPlane J W) where
  open J use {Value}
  open plane use {spec, error_text}

  -- The outcome that was predicted is an advance, and the packets of its stage could not be issued: the
  -- run failed, with the error as its reason and without a packet.
  abbrev pub Unissued :
      RunState Value → TriggerEvent Value → W → DecisionOutcome → Decided J plane → Type 0
  Unissued s t w predicted x =
      (next : String) × (e : ControlPlaneError) × (predicted
        ≡ advance s.current_stage_id next false)
      × ((issue_stage_packets J plane s (decision_for s t x.1.seq predicted) next w).0 ≡ err e)
      × (x.1.outcome ≡ DecisionOutcome.fail (error_text e))
      × (x.0.status ≡ failed)
      × (x.2 ≡ [])

  -- Precheck has an answer, and the decision is that answer but for packets that could not be issued.
  abbrev pub Predicted :
      RunState Value → TriggerEvent Value → W → Fallible DecisionOutcome → Decided J plane → Type 0
  Predicted s t w (err e) x = ⊥
  Predicted s t w (ok predicted) x = (x.1.outcome ≡ predicted) ⊎ Unissued s t w predicted x
