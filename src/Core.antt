-- ===== src/Core.antt =====
-- The data model of crates/decision-gate-core/src/core. A JSON value (`serde_json::Value`) is the
-- parameter `V` of every type that stores one.
pub mod Time
pub mod Hashing
pub mod Evidence
pub mod Disclosure
pub mod Spec
pub mod DataShape
pub mod State
