-- ===== src/Runtime/Engine/Trigger.antt =====
-- crates/decision-gate-core/src/runtime/engine.rs: from a trigger event to a decision. A method that
-- takes `&mut RunState` returns the new state with its result; an error drops the state.
pub mod Conditions
pub mod Packets
pub mod Progress
pub mod Logs
pub mod Replay
pub mod Verdict
pub mod Order
pub mod Stages
use mathlib.Core.Bool
use decision_gate.Prelude.{
  ℕ, String, List, [], ◌∷◌, ◌++◌, Option, none, some, Bool, true, false, ◌==◌, string_eq,
  if◌then◌else◌, map,
}
use decision_gate.Prelude.Outcome.{Outcome, ok, err}
use decision_gate.Prelude.Action.{Action, pure, raise, lift, attempt, ◌>>=◌}
use decision_gate.RetLogic.TriState.{TriState}
use decision_gate.Core.Disclosure.{PacketRecord}
use decision_gate.Core.Spec.{
  StageSpec, TimeoutSpec, TimeoutPolicy, fail, advance_with_flag, alternate_branch,
}
use decision_gate.Core.State.{
  RunState, RunStatus, active, completed, failed, TriggerEvent, TriggerKind, tick, DecisionRecord,
  DecisionOutcome, start, complete, advance, hold, GateEvalRecord,
}
use decision_gate.Runtime.Json.{Json}
use decision_gate.Runtime.Interfaces.{EvidenceContext}
use decision_gate.Runtime.Engine.Types.{
  ControlPlane, ControlPlaneError, EvaluationResult, run_mismatch,
}
use decision_gate.Runtime.Engine.Helpers.{
  Fallible, stage_spec, condition_specs, next_seq, inactive_result, existing_trigger_result,
  record_trigger, build_evidence_context, gates_passed, synthetic_gate_outcomes, build_safe_summary,
  decision_id_of, timeout_expired, resolve_next_stage,
}
use decision_gate.Runtime.Engine.Evidence.{
  build_condition_requirements, evaluate_gates, gate_outcomes,
}
use decision_gate.Runtime.Engine.Trigger.Conditions.{reorder_condition_specs, evaluate_conditions}
use decision_gate.Runtime.Engine.Trigger.Packets.{issue_stage_packets}

abbrev is_active : RunStatus → Bool
is_active active = true
is_active _ = false

abbrev is_tick : TriggerKind → Bool
is_tick tick = true
is_tick _ = false

-- A decision about the stage that the run is in.
abbrev pub decision_for :
    {V : Type 0} → RunState V → TriggerEvent V → ℕ → DecisionOutcome → DecisionRecord
decision_for state trigger seq outcome = record {
  decision_id = decision_id_of seq;
  seq = seq;
  trigger_id = trigger.trigger_id;
  stage_id = state.current_stage_id;
  decided_at = trigger.time;
  outcome = outcome;
  correlation_id = trigger.correlation_id;
}

module _ (J : Json) {W : Type 0} (plane : ControlPlane J W) where
  open J use {Value}
  open plane use {spec, config, error_text}

  -- The new state with a decision and its packets, not yet recorded.
  abbrev pub Decided : Type 0
  Decided = RunState Value × DecisionRecord × List (PacketRecord Value)

  -- `match self.issue_stage_packets(..)`: the stage is entered, or the run fails.
  unfoldable pub enter_stage :
      RunState Value
      → TriggerEvent Value
      → ℕ
      → String
      → DecisionRecord
      → Outcome ControlPlaneError (List (PacketRecord Value))
      → Decided
  enter_stage state trigger seq next_stage decision (ok packets) = (
    record state { current_stage_id = next_stage; stage_entered_at = trigger.time },
    decision,
    packets,
  )
  enter_stage state trigger seq next_stage decision (err e) = (
    record state { status = failed },
    decision_for state trigger seq (DecisionOutcome.fail (error_text e)),
    [],
  )

  -- The common part of `decide_from_gate_evals` and `timeout_advance`: go to the next stage, or
  -- complete the run where there is none.
  unfoldable pub advance_to :
      RunState Value
      → TriggerEvent Value
      → ℕ
      → Bool
      → Option String
      → Action ControlPlaneError W Decided
  unfolding enter_stage
  advance_to state trigger seq timeout (some next_stage) = do
    let decision =
        decision_for state trigger seq (advance state.current_stage_id next_stage timeout)
    packets ← attempt (issue_stage_packets J plane state decision next_stage)
    pure (enter_stage state trigger seq next_stage decision packets)
  advance_to state trigger seq timeout none = pure (
    record state { status = completed },
    decision_for state trigger seq (complete state.current_stage_id),
    [],
  )

  unfoldable pub decide_from_gate_evals :
      RunState Value
      → TriggerEvent Value
      → StageSpec Value
      → List (GateEvalRecord Value)
      → Action ControlPlaneError W Decided
  unfolding advance_to
  decide_from_gate_evals state trigger stage records = do
    seq ← lift (next_seq state.decisions)
    let held = decision_for state trigger seq (hold (build_safe_summary records))
    let passed = do
      next ← lift (resolve_next_stage spec stage (gate_outcomes records) state)
      advance_to state trigger seq false next
    if gates_passed records then passed else pure (state, held, [])

  unfoldable pub timeout_advance :
      RunState Value
      → TriggerEvent Value
      → StageSpec Value
      → ℕ
      → TriState
      → Action ControlPlaneError W Decided
  unfolding advance_to
  timeout_advance state trigger stage seq synthetic = do
    next ← lift (resolve_next_stage spec stage (synthetic_gate_outcomes stage synthetic) state)
    advance_to state trigger seq true next

  -- The match on `stage_def.on_timeout`.
  on_timeout :
      TimeoutPolicy
      → RunState Value
      → TriggerEvent Value
      → StageSpec Value
      → ℕ
      → Action ControlPlaneError W Decided
  unfolding timeout_advance
  on_timeout fail state trigger stage seq = pure (
    record state { status = failed },
    decision_for state trigger seq (DecisionOutcome.fail "timeout"),
    [],
  )
  on_timeout advance_with_flag state trigger stage seq =
      timeout_advance state trigger stage seq TriState.true
  on_timeout alternate_branch state trigger stage seq =
      timeout_advance state trigger stage seq TriState.unknown

  -- The pushes of the decision and its packets, and the result.
  unfoldable pub recorded : Decided → RunState Value × EvaluationResult Value
  recorded (state, decision, packets) = (
    record state {
      decisions = state.decisions ++ decision ∷ [];
      packets = state.packets ++ packets;
    },
    record { decision = decision; packets = packets; status = state.status },
  )

  abbrev Handled : Type 0
  Handled = RunState Value × EvaluationResult Value

  timed_out :
      Option TimeoutSpec
      → RunState Value
      → TriggerEvent Value
      → StageSpec Value
      → Action ControlPlaneError W (Option Handled)
  unfolding on_timeout recorded
  timed_out none state trigger stage = pure none
  timed_out (some timeout) state trigger stage = do
    expired ← lift (timeout_expired state.stage_entered_at trigger.time timeout.timeout_ms)
    let handled = do
      seq ← lift (next_seq state.decisions)
      decided ← on_timeout stage.on_timeout state trigger stage seq
      pure (some (recorded decided))
    if expired then handled else pure none

  unfoldable pub handle_timeout :
      RunState Value
      → TriggerEvent Value
      → StageSpec Value
      → Action ControlPlaneError W (Option Handled)
  unfolding timed_out
  handle_timeout state trigger stage =
      if is_tick trigger.kind then timed_out stage.timeout state trigger stage else pure none

  unfoldable pub evaluate_stage_gates :
      RunState Value
      → TriggerEvent Value
      → StageSpec Value
      → EvidenceContext
      → Action ControlPlaneError W (List (GateEvalRecord Value))
  evaluate_stage_gates state trigger stage context = do
    specs ← lift (condition_specs spec stage)
    let ordered =
        reorder_condition_specs (ControlPlane.codec plane) specs config.condition_eval_order
          config.hash_algorithm
    records ← evaluate_conditions J plane ordered context
    pure (
        evaluate_gates config.logic_mode config.trust_requirement
          (build_condition_requirements config ordered []) records trigger.trigger_id
          state.current_stage_id stage.gates)

  -- The evaluation of the gates and the decision, where no timeout came first.
  evaluate :
      RunState Value
      → TriggerEvent Value
      → StageSpec Value
      → Option Handled
      → Action ControlPlaneError W Handled
  unfolding evaluate_stage_gates decide_from_gate_evals recorded
  evaluate state trigger stage (some handled) = pure handled
  evaluate state trigger stage none = do
    records ← evaluate_stage_gates state trigger stage (build_evidence_context state trigger)
    let evaluated = record state { gate_evals = state.gate_evals ++ records }
    decided ← decide_from_gate_evals evaluated trigger stage records
    pure (recorded decided)

  -- A trigger that no earlier decision answers.
  unfoldable pub handle_new_trigger :
      RunState Value → TriggerEvent Value → Action ControlPlaneError W Handled
  unfolding handle_timeout evaluate
  handle_new_trigger state trigger = do
    recording ← lift (record_trigger state trigger)
    stage ← lift (stage_spec spec recording.current_stage_id)
    early ← handle_timeout recording trigger stage
    evaluate recording trigger stage early

  replay_or_handle :
      Option (EvaluationResult Value)
      → RunState Value
      → TriggerEvent Value
      → Action ControlPlaneError W Handled
  unfolding handle_new_trigger
  replay_or_handle (some result) state trigger = pure (state, result)
  replay_or_handle none state trigger = handle_new_trigger state trigger

  unfoldable pub handle_trigger_internal :
      RunState Value → TriggerEvent Value → Action ControlPlaneError W Handled
  unfolding replay_or_handle
  handle_trigger_internal state trigger =
      if Bool.not (is_active state.status)
      then (do result ← lift (inactive_result state); pure (state, result))
      else if Bool.not (trigger.run_id == state.run_id)
      then raise (run_mismatch trigger.run_id)
      else replay_or_handle (existing_trigger_result state trigger) state trigger
