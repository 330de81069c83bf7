-- ===== src/Core/State.antt =====
-- crates/decision-gate-core/src/core/state.rs and summary.rs: the run state and its logs.
use decision_gate.Prelude.{ℕ, String, List, Option, Bool}
use decision_gate.RetLogic.TriState.{TriState}
use decision_gate.Core.Time.{Timestamp}
use decision_gate.Core.Hashing.{HashDigest}
use decision_gate.Core.Evidence.{EvidenceResult, ProviderMissingError}
use decision_gate.Core.Disclosure.{DispatchTarget, PacketPayload, PacketRecord}

pub record SafeSummary : Type 0 where
  pub status : String
  pub unmet_gates : List String
  pub retry_hint : Option String
  pub policy_tags : List String

pub record RunConfig : Type 0 where
  pub tenant_id : ℕ
  pub namespace_id : ℕ
  pub run_id : String
  pub scenario_id : String
  pub dispatch_targets : List DispatchTarget
  pub policy_tags : List String

pub data RunStatus : Type 0 where
  active completed failed : RunStatus

pub data TriggerKind : Type 0 where
  agent_request_next tick external_event backend_event : TriggerKind

pub record TriggerEvent (V : Type 0) : Type 0 where
  pub trigger_id : String
  pub tenant_id : ℕ
  pub namespace_id : ℕ
  pub run_id : String
  pub kind : TriggerKind
  pub time : Timestamp
  pub source_id : String
  pub payload : Option (PacketPayload V)
  pub correlation_id : Option String

pub record TriggerRecord (V : Type 0) : Type 0 where
  pub seq : ℕ
  pub event : TriggerEvent V

pub record EvidenceRecord (V : Type 0) : Type 0 where
  pub condition_id : String
  pub status : TriState
  pub result : EvidenceResult V

pub record GateTraceEntry : Type 0 where
  pub condition_id : String
  pub status : TriState

pub record GateEvaluation : Type 0 where
  pub gate_id : String
  pub status : TriState
  pub trace : List GateTraceEntry

pub record GateEvalRecord (V : Type 0) : Type 0 where
  pub trigger_id : String
  pub stage_id : String
  pub evaluation : GateEvaluation
  pub evidence : List (EvidenceRecord V)

pub data DecisionOutcome : Type 0 where
  start : (stage_id : String) → DecisionOutcome
  complete : (stage_id : String) → DecisionOutcome
  advance : (from_stage to_stage : String) (timeout : Bool) → DecisionOutcome
  hold : (summary : SafeSummary) → DecisionOutcome
  fail : (reason : String) → DecisionOutcome

pub record DecisionRecord : Type 0 where
  pub decision_id : String
  pub seq : ℕ
  pub trigger_id : String
  pub stage_id : String
  pub decided_at : Timestamp
  pub outcome : DecisionOutcome
  pub correlation_id : Option String

pub record SubmissionRecord (V : Type 0) : Type 0 where
  pub submission_id : String
  pub run_id : String
  pub payload : PacketPayload V
  pub content_type : String
  pub content_hash : HashDigest
  pub submitted_at : Timestamp
  pub correlation_id : Option String

pub data ToolCallErrorDetails : Type 0 where
  provider_missing : ProviderMissingError → ToolCallErrorDetails
  message : (info : String) → ToolCallErrorDetails

pub record ToolCallError : Type 0 where
  pub code : String
  pub message : String
  pub details : Option ToolCallErrorDetails

pub record ToolCallRecord : Type 0 where
  pub call_id : String
  pub method : String
  pub request_hash : HashDigest
  pub response_hash : HashDigest
  pub called_at : Timestamp
  pub correlation_id : Option String
  pub error : Option ToolCallError

pub record RunState (V : Type 0) : Type 0 where
  pub tenant_id : ℕ
  pub namespace_id : ℕ
  pub run_id : String
  pub scenario_id : String
  pub spec_hash : HashDigest
  pub current_stage_id : String
  pub stage_entered_at : Timestamp
  pub status : RunStatus
  pub dispatch_targets : List DispatchTarget
  pub triggers : List (TriggerRecord V)
  pub gate_evals : List (GateEvalRecord V)
  pub decisions : List DecisionRecord
  pub packets : List (PacketRecord V)
  pub submissions : List (SubmissionRecord V)
  pub tool_calls : List ToolCallRecord
