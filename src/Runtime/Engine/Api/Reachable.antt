-- ===== src/Runtime/Engine/Api/Reachable.antt =====
-- The states that a run goes through, from its start on.
use decision_gate.Prelude.{ℕ, ◌+◌, ◌≤◌, ◌≡◌, ◌≢◌, ◌∙◌, List, [], ◌∷◌, map, Bool, All, arith}
use decision_gate.Prelude.Distinct.{Distinct}
use decision_gate.Prelude.Outcome.{ok}
use decision_gate.Core.Time.{Timestamp}
use decision_gate.Core.State.{
  RunConfig, RunState, TriggerEvent, DecisionRecord, SubmissionRecord, ToolCallRecord,
}
use decision_gate.Runtime.Json.{Json}
use decision_gate.Runtime.Engine.Types.{ControlPlane, EvaluationResult}
use decision_gate.Runtime.Engine.Helpers.{decision_id_of}
use decision_gate.Runtime.Engine.Trigger.{handle_trigger_internal}
use decision_gate.Runtime.Engine.Trigger.Logs.{IsWellFormed, NumberedFrom, decision_id-injective}
use decision_gate.Runtime.Engine.Trigger.Replay.{handle_trigger_internal-IsWellFormed}
use decision_gate.Runtime.Engine.Api.{start_run}
use decision_gate.Runtime.Engine.Api.Start.{start_run-Started}

-- Decisions from number n + 1 on have none of the identifiers up to n.
fresh_ids :
    (k n : ℕ) (ds : List DecisionRecord)
    → k ≤ n
    → NumberedFrom n ds
    → All (λ y. decision_id_of k ≢ y) (map (λ d. d.decision_id) ds)
fresh_ids k n [] h p = tt
fresh_ids k n (d ∷ ds) h p = (
  λ e. absurd (omega (arith, h, decision_id-injective k (n + 1) (e ∙ p.1))),
  fresh_ids k (n + 1) ds (omega (arith, h)) p.2,
)

numbered-Distinct :
    (n : ℕ) (ds : List DecisionRecord) → NumberedFrom n ds → Distinct (map (λ d. d.decision_id) ds)
numbered-Distinct n [] p = tt
numbered-Distinct n (d ∷ ds) p =
    (rw p.1 (fresh_ids (n + 1) (n + 1) ds (omega arith) p.2), numbered-Distinct (n + 1) ds p.2)

module _ (J : Json) {W : Type 0} (plane : ControlPlane J W) where
  open J use {Value}

  -- A run starts, is triggered in any world and with any trigger, and has submissions and tool calls
  -- logged, in any order.
  pub data Reachable : RunState Value → Type 0 where
    started :
        (run : RunConfig) (started_at : Timestamp) (dispatch_initial : Bool) (w : W)
        (s : RunState Value)
        → (start_run J plane run started_at dispatch_initial w).0 ≡ ok s
        → Reachable s
    triggered :
        (s s' : RunState Value) (t : TriggerEvent Value) (r : EvaluationResult Value) (w : W)
        → Reachable s
        → (handle_trigger_internal J plane s t w).0 ≡ ok (s', r)
        → Reachable s'
    logged :
        (s : RunState Value) (submissions : List (SubmissionRecord Value))
        (tool_calls : List ToolCallRecord)
        → Reachable s
        → Reachable (record s { submissions = submissions; tool_calls = tool_calls })

  pub Reachable-IsWellFormed : (s : RunState Value) → Reachable s → IsWellFormed s
  Reachable-IsWellFormed _ (started run started_at dispatch_initial w s e) =
      (start_run-Started J plane run started_at dispatch_initial w s e).logs
  Reachable-IsWellFormed _ (triggered s₀ s t r w before e) =
      handle_trigger_internal-IsWellFormed J plane s₀ s t r w e (Reachable-IsWellFormed s₀ before)
  Reachable-IsWellFormed _ (logged s₀ submissions tool_calls before) =
      let h = Reachable-IsWellFormed s₀ before in
      record { numbered = h.numbered; issued = h.issued }

  -- In every state that a run reaches, whatever triggers, worlds, submissions and logged calls led to it, no
  -- two decisions have the same identifier.
  pub Reachable-Distinct :
      (s : RunState Value) → Reachable s → Distinct (map (λ d. d.decision_id) s.decisions)
  Reachable-Distinct s h = numbered-Distinct 0 s.decisions (Reachable-IsWellFormed s h).numbered
