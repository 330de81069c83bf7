-- ===== src/Runtime/Engine/Types.antt =====
-- crates/decision-gate-core/src/runtime/engine.rs: configuration, requests, results, errors and the
-- `ControlPlane` itself.
use decision_gate.Prelude.{ℕ, String, List, [], Option, none, some, find, ◌==◌, string_eq}
use decision_gate.RetLogic.TriState.{LogicMode, kleene}
use decision_gate.Core.Time.{Timestamp}
use decision_gate.Core.Hashing.{HashAlgorithm, HashError, Codec, default_hash_algorithm}
use decision_gate.Core.Evidence.{
  TrustRequirement, EvidenceAnchorPolicy, ProviderMissingError, EvidenceResult, verified,
}
use decision_gate.Core.Disclosure.{PacketPayload, PacketRecord}
use decision_gate.Core.Spec.{ScenarioSpec, SpecError}
use decision_gate.Core.State.{
  RunStatus, DecisionRecord, DecisionOutcome, SafeSummary, SubmissionRecord, ToolCallError,
  TriggerEvent, GateEvaluation,
}
use decision_gate.Runtime.Json.{Json}
use decision_gate.Runtime.Interfaces.{
  DispatchError, StoreError, PolicyError, EvidenceProvider, Dispatcher, RunStateStore,
  PolicyDecider,
}

pub data ConditionEvalOrder : Type 0 where
  spec_order : ConditionEvalOrder
  deterministic_shuffle : (seed : ℕ) → ConditionEvalOrder

pub record ControlPlaneConfig : Type 0 where
  pub logic_mode : LogicMode
  pub hash_algorithm : HashAlgorithm
  pub trust_requirement : TrustRequirement
  pub anchor_policy : EvidenceAnchorPolicy
  pub provider_trust_overrides : List (String × TrustRequirement)
  pub condition_eval_order : ConditionEvalOrder

-- `BTreeMap::get` on an association list, whose first entry for a key is the one inserted last.
abbrev pub get {ℓ} : {A : Type ℓ} → String → List (String × A) → Option A
get key entries = elim (find (λ e. e.0 == key) entries) [ none ↦ none | some e ↦ some e.1 ]

abbrev or_else {ℓ} : {A : Type ℓ} → Option A → A → A
or_else none d = d
or_else (some a) d = a

unfoldable pub trust_requirement_for_provider : ControlPlaneConfig → String → TrustRequirement
trust_requirement_for_provider config provider_id =
    or_else (get provider_id config.provider_trust_overrides) config.trust_requirement

-- `impl Default for ControlPlaneConfig`
abbrev pub default_config : ControlPlaneConfig
default_config = record {
  logic_mode = kleene;
  hash_algorithm = default_hash_algorithm;
  trust_requirement = record { min_lane = verified };
  anchor_policy = record { providers = [] };
  provider_trust_overrides = [];
  condition_eval_order = spec_order;
}

pub record StatusRequest : Type 0 where
  pub run_id : String
  pub tenant_id : ℕ
  pub namespace_id : ℕ
  pub requested_at : Timestamp
  pub correlation_id : Option String

pub record NextRequest : Type 0 where
  pub run_id : String
  pub tenant_id : ℕ
  pub namespace_id : ℕ
  pub trigger_id : String
  pub agent_id : String
  pub time : Timestamp
  pub correlation_id : Option String

pub record SubmitRequest (V : Type 0) : Type 0 where
  pub run_id : String
  pub tenant_id : ℕ
  pub namespace_id : ℕ
  pub submission_id : String
  pub payload : PacketPayload V
  pub content_type : String
  pub submitted_at : Timestamp
  pub correlation_id : Option String

pub record PrecheckRequest (V : Type 0) : Type 0 where
  pub stage_id : Option String
  pub evidence : List (String × EvidenceResult V)

-- `EvaluationResult`, and `NextResult` and `TriggerResult`, which have its fields.
pub record EvaluationResult (V : Type 0) : Type 0 where
  pub decision : DecisionRecord
  pub packets : List (PacketRecord V)
  pub status : RunStatus

pub record SubmitResult (V : Type 0) : Type 0 where
  pub submitted : SubmissionRecord V

pub record PrecheckResult : Type 0 where
  pub decision : DecisionOutcome
  pub gate_evaluations : List GateEvaluation

pub record ScenarioStatus : Type 0 where
  pub run_id : String
  pub scenario_id : String
  pub current_stage_id : String
  pub status : RunStatus
  pub last_decision : Option DecisionRecord
  pub issued_packet_ids : List String
  pub safe_summary : Option SafeSummary

-- The variants that the operations of the engine return.
pub data ControlPlaneError : Type 0 where
  invalid_spec : SpecError → ControlPlaneError
  missing_stages : ControlPlaneError
  scenario_mismatch namespace_mismatch : String → ControlPlaneError
  run_already_exists run_not_found run_mismatch : String → ControlPlaneError
  run_inactive : RunStatus → ControlPlaneError
  submission_conflict : String → ControlPlaneError
  sequence_overflow : ControlPlaneError
  evidence_too_large payload_too_large : (max actual : ℕ) → ControlPlaneError
  stage_not_found gate_resolution_failed : String → ControlPlaneError
  trigger_time_mismatch timeout_calculation : String → ControlPlaneError
  policy_denied : ControlPlaneError
  provider_missing : ProviderMissingError → ControlPlaneError
  dispatch : DispatchError → ControlPlaneError
  policy : PolicyError → ControlPlaneError
  store : StoreError → ControlPlaneError
  hash : HashError → ControlPlaneError
  tool_call_hash payload_hash : String → ControlPlaneError

-- The values whose canonical JSON the engine hashes.
pub data Document (V : Type 0) : Type 0 where
  json_value : V → Document V
  scenario : ScenarioSpec V → Document V
  status_request : StatusRequest → Document V
  next_request : NextRequest → Document V
  submit_request : SubmitRequest V → Document V
  trigger_event : TriggerEvent V → Document V
  scenario_status : ScenarioStatus → Document V
  evaluation_result : EvaluationResult V → Document V
  submit_result : SubmitResult V → Document V
  tool_error : ToolCallError → Document V

module _ (J : Json) where
  open J use {Value}

  -- `struct ControlPlane`, with what the repository does not define: the hashing codec and the
  -- texts that `thiserror` generates for errors.
  pub record ControlPlane (W : Type 0) : Type 0 where
    pub spec : ScenarioSpec Value
    pub evidence : EvidenceProvider Value W
    pub dispatcher : Dispatcher Value W
    pub store : RunStateStore Value W
    pub policy : Option (PolicyDecider Value W)
    pub config : ControlPlaneConfig
    pub codec : Codec (Document Value)
    pub error_text : ControlPlaneError → String
    pub hash_error_text : HashError → String
