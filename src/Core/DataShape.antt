-- ===== src/Core/DataShape.antt =====
-- crates/decision-gate-core/src/core/data_shape.rs: records of the data shape registry.
use decision_gate.Prelude.{ℕ, String, List, Option}
use decision_gate.Core.Time.{Timestamp}

pub record DataShapeRef : Type 0 where
  pub schema_id : String
  pub version : String

pub record DataShapeSignature : Type 0 where
  pub key_id : String
  pub signature : String
  pub algorithm : Option String

pub record DataShapeRecord (V : Type 0) : Type 0 where
  pub tenant_id : ℕ
  pub namespace_id : ℕ
  pub schema_id : String
  pub version : String
  pub schema : V
  pub description : Option String
  pub created_at : Timestamp
  pub signing : Option DataShapeSignature

pub record DataShapePage (V : Type 0) : Type 0 where
  pub items : List (DataShapeRecord V)
  pub next_token : Option String
