-- ===== src/Runtime/Engine/Precheck.antt =====
-- crates/decision-gate-core/src/runtime/engine.rs: `precheck`, which evaluates a stage on evidence that
-- the caller asserts and touches neither a run nor the world.
pub mod Predicts
use mathlib.Core.Bool
use decision_gate.Prelude.{
  ℕ, String, List, [], ◌∷◌, map, filter, Option, none, some, Bool, all, head?, if◌then◌else◌,
}
use decision_gate.Prelude.Outcome.{Outcome, ok, err, ◌>>=◌}
use decision_gate.RetLogic.TriState.{TriState, LogicMode, is_true}
use decision_gate.Core.Evidence.{asserted, TrustRequirement, EvidenceResult, EvidenceProviderError}
use decision_gate.Core.Spec.{ScenarioSpec, StageSpec, ConditionSpec, GateSpec}
use decision_gate.Core.State.{
  EvidenceRecord, GateEvaluation, DecisionOutcome, advance, complete, hold,
}
use decision_gate.Runtime.Json.{Json}
use decision_gate.Runtime.Comparator.{evaluate_comparator}
use decision_gate.Runtime.Gate.{evaluate_gate}
use decision_gate.Runtime.Engine.Types.{
  ControlPlane, PrecheckRequest, PrecheckResult, get, missing_stages,
}
use decision_gate.Runtime.Engine.Helpers.{
  Fallible, stage_spec, condition_specs, resolve_next_stage_precheck,
}
use decision_gate.Runtime.Engine.Evidence.{
  build_condition_requirements, adjusted_evidence, empty_result, normalize_evidence_result,
}

abbrev moves_to : String → Option String → DecisionOutcome
moves_to stage_id none = complete stage_id
moves_to stage_id (some next) = advance stage_id next Bool.false

module _ {V : Type 0} where
  -- The loop over the gates, with both lists that it pushes to.
  unfoldable pub evaluate_precheck_gates :
      LogicMode
      → TrustRequirement
      → List (String × TrustRequirement)
      → List (EvidenceRecord V)
      → List GateSpec
      → List GateEvaluation × List (String × TriState)
  evaluate_precheck_gates logic default requirements records [] = ([], [])
  evaluate_precheck_gates logic default requirements records (gate ∷ gates) =
      let evaluation =
        evaluate_gate logic gate (adjusted_evidence default requirements records gate) in
      let (evaluations, outcomes) =
        evaluate_precheck_gates logic default requirements records gates in
      (evaluation ∷ evaluations, (gate.gate_id, evaluation.status) ∷ outcomes)

  unfoldable pub precheck_decision :
      ScenarioSpec V
      → String
      → StageSpec V
      → List (String × TriState)
      → List GateEvaluation
      → Fallible DecisionOutcome
  precheck_decision spec stage_id stage outcomes evaluations =
      let passed =
        resolve_next_stage_precheck spec stage outcomes >>= λ next. ok (moves_to stage_id next) in
      if all (λ e. is_true e.status) evaluations
      then passed
      else ok (
          hold (record {
            status = "hold";
            unmet_gates =
                map (λ e. e.gate_id) (filter (λ e. Bool.not (is_true e.status)) evaluations);
            retry_hint = some "await_evidence";
            policy_tags = [];
          }))

module _ (J : Json) {W : Type 0} (plane : ControlPlane J W) where
  open J use {Value}
  open plane use {spec, config}

  asserted_or_empty : Option (EvidenceResult Value) → EvidenceResult Value
  asserted_or_empty none = empty_result asserted
  asserted_or_empty (some result) = result

  -- A result with an error loses its value, hash and content type.
  redacted : Option (EvidenceProviderError Value) → EvidenceResult Value → EvidenceResult Value
  redacted none result = result
  redacted (some e) result = record result {
    value = none;
    evidence_hash = none;
    content_type = none;
  }

  precheck_status :
      Option (EvidenceProviderError Value) → ConditionSpec Value → EvidenceResult Value → TriState
  precheck_status (some e) condition normalized = TriState.unknown
  precheck_status none condition normalized =
      evaluate_comparator J condition.comparator condition.expected normalized

  unfoldable pub build_precheck_evidence_records :
      List (ConditionSpec Value)
      → List (String × EvidenceResult Value)
      → Fallible (List (EvidenceRecord Value))
  unfolding asserted_or_empty redacted precheck_status
  build_precheck_evidence_records [] evidence = ok []
  build_precheck_evidence_records (condition ∷ conditions) evidence = do
    let result = asserted_or_empty (get condition.condition_id evidence)
    normalized ← normalize_evidence_result J plane (redacted result.error result)
    records ← build_precheck_evidence_records conditions evidence
    ok (
        record {
          condition_id = condition.condition_id;
          status = precheck_status normalized.error condition normalized;
          result = normalized;
        }
        ∷ records)

  stage_or_first : Option String → Fallible String
  stage_or_first (some stage_id) = ok stage_id
  stage_or_first none = elim (head? spec.stages) [
    | none ↦ err missing_stages
    | some stage ↦ ok stage.stage_id
  ]

  unfoldable pub precheck : PrecheckRequest Value → Fallible PrecheckResult
  unfolding stage_or_first
  precheck request = do
    stage_id ← stage_or_first request.stage_id
    stage ← stage_spec spec stage_id
    conditions ← condition_specs spec stage
    records ← build_precheck_evidence_records conditions request.evidence
    let gates =
        evaluate_precheck_gates config.logic_mode config.trust_requirement
          (build_condition_requirements config conditions []) records stage.gates
    decision ← precheck_decision spec stage_id stage gates.1 gates.0
    ok (record { decision = decision; gate_evaluations = gates.0 })
