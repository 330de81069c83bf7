-- ===== src/Runtime/Engine/Helpers.antt =====
-- The helper functions at the end of crates/decision-gate-core/src/runtime/engine.rs that only read
-- the specification and the logs.
pub mod Timeout
pub mod Stages
pub mod Conditions
use mathlib.Core.Bool
use decision_gate.Prelude.{
  ℕ, ◌+◌, String, List, [], ◌∷◌, ◌++◌, map, Option, none, some, Bool, length, get_elem?, find,
  filter, position, all, contains, ◌==◌, string_eq, ltb, leb, usize_max, if◌then◌else◌, get_last?,
}
use decision_gate.Prelude.Decimal.{to_string}
use decision_gate.Prelude.Decimal
use decision_gate.Prelude.Int.{ℤ, pos, negsuc, add_ℕ, leb_ℤ, i64_max}
use decision_gate.Prelude.Outcome.{Outcome, ok, err, ok_or, ◌>>=◌}
use decision_gate.RetLogic.TriState.{TriState, is_true}
use decision_gate.Core.Time.{Timestamp, unix_millis, logical}
use decision_gate.Core.Disclosure.{PacketRecord}
use decision_gate.Core.Spec.{
  ScenarioSpec, StageSpec, ConditionSpec, GateSpec, GateOutcome, BranchRule, AdvanceTo, linear,
  fixed, branch, terminal,
}
use decision_gate.Core.State.{RunState, EvidenceRecord, GateEvalRecord, SafeSummary, TriggerEvent}
use decision_gate.Runtime.Gate.{collect_conditions}
use decision_gate.Runtime.Interfaces.{EvidenceContext}
use decision_gate.Runtime.Engine.Types.{
  ControlPlaneError, EvaluationResult, sequence_overflow, stage_not_found, gate_resolution_failed,
  run_inactive, trigger_time_mismatch, timeout_calculation,
}

abbrev pub Fallible {ℓ} : Type ℓ → Type ℓ
Fallible = Outcome ControlPlaneError

-- The push of `condition_specs` that keeps the keys distinct.
push_new : List String → List String → List String
push_new [] keys = keys
push_new (key ∷ rest) keys = push_new rest (if contains keys key then keys else keys ++ key ∷ [])

gate_keys : List GateSpec → List String → List String
unfolding push_new
gate_keys [] keys = keys
gate_keys (gate ∷ gates) keys =
    gate_keys gates (push_new (collect_conditions gate.requirement) keys)

-- `u64::try_from(len)` always succeeds, and the sum is checked.
unfoldable pub next_seq {ℓ} : {A : Type ℓ} → List A → Fallible ℕ
next_seq items =
    if ltb usize_max (length items + 1) then err sequence_overflow else ok (length items + 1)

module _ {V : Type 0} where
  unfoldable pub stage_spec : ScenarioSpec V → String → Fallible (StageSpec V)
  stage_spec spec stage_id =
      ok_or (find (λ stage. stage.stage_id == stage_id) spec.stages) (stage_not_found stage_id)

  specs_of : ScenarioSpec V → List String → Fallible (List (ConditionSpec V))
  specs_of spec [] = ok []
  specs_of spec (key ∷ keys) = do
    condition ←
        ok_or (find (λ c. c.condition_id == key) spec.conditions) (gate_resolution_failed key)
    rest ← specs_of spec keys
    ok (condition ∷ rest)

  unfoldable pub condition_specs : ScenarioSpec V → StageSpec V → Fallible (List (ConditionSpec V))
  unfolding specs_of gate_keys
  condition_specs spec stage = specs_of spec (gate_keys stage.gates [])

  unfoldable pub evidence_for_gate : List (EvidenceRecord V) → GateSpec → List (EvidenceRecord V)
  evidence_for_gate records gate =
      filter (λ r. contains (collect_conditions gate.requirement) r.condition_id) records

  unfoldable pub packets_for_decision : RunState V → String → List (PacketRecord V)
  packets_for_decision state decision_id =
      filter (λ packet. packet.decision_id == decision_id) state.packets

  unfoldable pub inactive_result : RunState V → Fallible (EvaluationResult V)
  inactive_result state = do
    decision ← ok_or (get_last? state.decisions) (run_inactive state.status)
    ok (record {
      decision = decision;
      packets = packets_for_decision state decision.decision_id;
      status = state.status;
    })

  unfoldable pub existing_trigger_result : RunState V → TriggerEvent V → Option (EvaluationResult V)
  existing_trigger_result state trigger =
      elim (find (λ d. d.trigger_id == trigger.trigger_id) state.decisions) [
        | none ↦ none
        | some decision ↦ some (record {
          decision = decision;
          packets = packets_for_decision state decision.decision_id;
          status = state.status;
        })
      ]

  unfoldable pub record_trigger : RunState V → TriggerEvent V → Fallible (RunState V)
  record_trigger state trigger = do
    seq ← next_seq state.triggers
    ok (record state { triggers = state.triggers ++ record { seq = seq; event = trigger } ∷ [] })

  unfoldable pub build_evidence_context : RunState V → TriggerEvent V → EvidenceContext
  build_evidence_context state trigger = record {
    tenant_id = state.tenant_id;
    namespace_id = state.namespace_id;
    run_id = state.run_id;
    scenario_id = state.scenario_id;
    stage_id = state.current_stage_id;
    trigger_id = trigger.trigger_id;
    trigger_time = trigger.time;
    correlation_id = trigger.correlation_id;
  }

  unfoldable pub gates_passed : List (GateEvalRecord V) → Bool
  gates_passed records = all (λ r. is_true r.evaluation.status) records

  unfoldable pub synthetic_gate_outcomes : StageSpec V → TriState → List (String × TriState)
  synthetic_gate_outcomes stage outcome = map (λ gate. (gate.gate_id, outcome)) stage.gates

  unfoldable pub build_safe_summary : List (GateEvalRecord V) → SafeSummary
  build_safe_summary records = record {
    status = "hold";
    unmet_gates =
        map (λ r. r.evaluation.gate_id)
          (filter (λ r. Bool.not (is_true r.evaluation.status)) records);
    retry_hint = some "await_evidence";
    policy_tags = [];
  }

-- `format!("decision-{seq}")` and `format!("call-{n}")`
abbrev pub decision_id_of : ℕ → String
decision_id_of seq = Decimal.◌++◌ "decision-" (to_string seq)

abbrev pub call_id_of : ℕ → String
call_id_of n = Decimal.◌++◌ "call-" (to_string n)

above_i64 : ℤ → Bool
above_i64 (pos n) = ltb i64_max n
above_i64 (negsuc n) = Bool.false

unfoldable pub timeout_expired : Timestamp → Timestamp → ℕ → Fallible Bool
unfolding above_i64
timeout_expired (unix_millis start) (unix_millis now) timeout_ms =
    if ltb i64_max timeout_ms
    then err (timeout_calculation "timeout_ms exceeds i64 range")
    else if above_i64 (add_ℕ start timeout_ms)
    then err (timeout_calculation "timeout deadline overflow")
    else ok (leb_ℤ (add_ℕ start timeout_ms) now)
timeout_expired (logical start) (logical now) timeout_ms =
    if ltb usize_max (start + timeout_ms)
    then err (timeout_calculation "timeout deadline overflow")
    else ok (leb (start + timeout_ms) now)
timeout_expired _ _ timeout_ms =
    err (trigger_time_mismatch "timeout evaluation requires matching timestamp kinds")

unfoldable pub gate_outcome_matches : TriState → GateOutcome → Bool
gate_outcome_matches TriState.true GateOutcome.true = Bool.true
gate_outcome_matches TriState.false GateOutcome.false = Bool.true
gate_outcome_matches TriState.unknown GateOutcome.unknown = Bool.true
gate_outcome_matches _ _ = Bool.false

-- The outcome of a gate, unknown if the list does not name it.
unfoldable pub outcome_of : List (String × TriState) → String → TriState
outcome_of outcomes gate_id = elim (find (λ o. o.0 == gate_id) outcomes) [
  | none ↦ TriState.unknown
  | some o ↦ o.1
]

-- The loop over the branches, and the default.
unfoldable pub choose_branch :
    List (String × TriState) → List BranchRule → Option String → Fallible (Option String)
choose_branch outcomes [] none = err (gate_resolution_failed "no branch matched")
choose_branch outcomes [] (some default) = ok (some default)
choose_branch outcomes (rule ∷ rules) default =
    if gate_outcome_matches (outcome_of outcomes rule.gate_id) rule.outcome
    then ok (some rule.next_stage_id)
    else choose_branch outcomes rules default

module _ {V : Type 0} where
  abbrev stage_id_of : Option (StageSpec V) → Option String
  stage_id_of none = none
  stage_id_of (some stage) = some stage.stage_id

  abbrev advance_target :
      AdvanceTo → ScenarioSpec V → StageSpec V → List (String × TriState) → Fallible (Option String)
  advance_target linear spec stage outcomes = do
    index ←
        ok_or (position (λ s. s.stage_id == stage.stage_id) spec.stages)
          (stage_not_found stage.stage_id)
    ok (stage_id_of (get_elem? spec.stages (index + 1)))
  advance_target (fixed stage_id) spec stage outcomes = ok (some stage_id)
  advance_target (branch branches default) spec stage outcomes =
      choose_branch outcomes branches default
  advance_target terminal spec stage outcomes = ok none

  unfoldable pub resolve_next_stage :
      ScenarioSpec V
      → StageSpec V
      → List (String × TriState)
      → RunState V
      → Fallible (Option String)
  resolve_next_stage spec stage outcomes state = advance_target stage.advance_to spec stage outcomes

  unfoldable pub resolve_next_stage_precheck :
      ScenarioSpec V → StageSpec V → List (String × TriState) → Fallible (Option String)
  resolve_next_stage_precheck spec stage outcomes =
      advance_target stage.advance_to spec stage outcomes
