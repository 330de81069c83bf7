-- ===== src/Runtime.antt =====
-- The runtime of crates/decision-gate-core/src/runtime.
pub mod Json
pub mod Comparator
pub mod Gate
pub mod Interfaces
pub mod Engine
pub mod Store
