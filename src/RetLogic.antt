-- ===== src/RetLogic.antt =====
-- The crate `crates/ret-logic`: tri-state logic, requirement trees and the plan executor.
pub mod Dsl
pub mod Serde
pub mod TriState
pub mod Requirement
pub mod Plan
pub mod Executor
