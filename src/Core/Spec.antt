-- ===== src/Core/Spec.antt =====
-- crates/decision-gate-core/src/core/spec.rs: the scenario specification.
pub mod Validate
use decision_gate.Prelude.{ℕ, String, List, Option}
use decision_gate.RetLogic.Requirement.{Requirement}
use decision_gate.Core.Time.{Timestamp}
use decision_gate.Core.Evidence.{EvidenceQuery, Comparator, TrustRequirement}
use decision_gate.Core.Disclosure.{PacketPayload}

pub data GateOutcome : Type 0 where
  true false unknown : GateOutcome

pub record BranchRule : Type 0 where
  pub gate_id : String
  pub outcome : GateOutcome
  pub next_stage_id : String

pub data AdvanceTo : Type 0 where
  linear : AdvanceTo
  fixed : (stage_id : String) → AdvanceTo
  branch : (branches : List BranchRule) (default : Option String) → AdvanceTo
  terminal : AdvanceTo

pub record TimeoutSpec : Type 0 where
  pub timeout_ms : ℕ
  pub policy_tags : List String

pub data TimeoutPolicy : Type 0 where
  fail advance_with_flag alternate_branch : TimeoutPolicy

pub record GateSpec : Type 0 where
  pub gate_id : String
  pub requirement : Requirement String
  pub trust : Option TrustRequirement

pub record ConditionSpec (V : Type 0) : Type 0 where
  pub condition_id : String
  pub query : EvidenceQuery V
  pub comparator : Comparator
  pub expected : Option V
  pub policy_tags : List String
  pub trust : Option TrustRequirement

pub record PacketSpec (V : Type 0) : Type 0 where
  pub packet_id : String
  pub schema_id : String
  pub content_type : String
  pub visibility_labels : List String
  pub policy_tags : List String
  pub expiry : Option Timestamp
  pub payload : PacketPayload V

pub record StageSpec (V : Type 0) : Type 0 where
  pub stage_id : String
  pub entry_packets : List (PacketSpec V)
  pub gates : List GateSpec
  pub advance_to : AdvanceTo
  pub timeout : Option TimeoutSpec
  pub on_timeout : TimeoutPolicy

pub record PolicyRef : Type 0 where
  pub policy_id : String
  pub description : Option String

pub record SchemaRef : Type 0 where
  pub schema_id : String
  pub version : Option String
  pub uri : Option String

pub record ScenarioSpec (V : Type 0) : Type 0 where
  pub scenario_id : String
  pub namespace_id : ℕ
  pub spec_version : String
  pub stages : List (StageSpec V)
  pub conditions : List (ConditionSpec V)
  pub policies : List PolicyRef
  pub schemas : List SchemaRef
  pub default_tenant_id : Option ℕ

pub data SpecError : Type 0 where
  missing_stages : SpecError
  duplicate_stage_id duplicate_gate_id duplicate_packet_id duplicate_condition : String → SpecError
  missing_condition : String → SpecError
  invalid_evidence_query : (condition_id reason : String) → SpecError
  missing_branch_target : String → SpecError
