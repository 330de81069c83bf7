-- ===== src/Runtime/Engine.antt =====
-- crates/decision-gate-core/src/runtime/engine.rs: the control plane. The types, the helpers and
-- each group of operations are modules below.
pub mod Types
pub mod Construct
pub mod Helpers
pub mod Evidence
pub mod Trigger
pub mod Precheck
pub mod Api
