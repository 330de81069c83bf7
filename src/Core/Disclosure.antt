-- ===== src/Core/Disclosure.antt =====
-- crates/decision-gate-core/src/core/disclosure.rs
use decision_gate.Prelude.{ℕ, String, List, Option}
use decision_gate.Core.Hashing.{HashDigest}
use decision_gate.Core.Time.{Timestamp}

pub record VisibilityPolicy : Type 0 where
  pub labels : List String
  pub policy_tags : List String

pub data DispatchTarget : Type 0 where
  agent : (agent_id : String) → DispatchTarget
  session : (session_id : String) → DispatchTarget
  external : (system target : String) → DispatchTarget
  channel : (channel : String) → DispatchTarget

pub record ContentRef : Type 0 where
  pub uri : String
  pub content_hash : HashDigest
  pub encryption : Option String

pub data PacketPayload (V : Type 0) : Type 0 where
  json : V → PacketPayload V
  bytes : List ℕ → PacketPayload V
  external : ContentRef → PacketPayload V

pub record PacketEnvelope : Type 0 where
  pub scenario_id : String
  pub run_id : String
  pub stage_id : String
  pub packet_id : String
  pub schema_id : String
  pub content_type : String
  pub content_hash : HashDigest
  pub visibility : VisibilityPolicy
  pub expiry : Option Timestamp
  pub correlation_id : Option String
  pub issued_at : Timestamp

pub record DispatchReceipt : Type 0 where
  pub dispatch_id : String
  pub target : DispatchTarget
  pub receipt_hash : HashDigest
  pub dispatched_at : Timestamp
  pub dispatcher : String

pub record PacketRecord (V : Type 0) : Type 0 where
  pub envelope : PacketEnvelope
  pub payload : PacketPayload V
  pub receipts : List DispatchReceipt
  pub decision_id : String
