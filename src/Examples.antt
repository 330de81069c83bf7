-- ===== src/Examples.antt =====
-- Witnesses at concrete inputs: a small scenario, requirement trees and evidence.
pub mod Plane
pub mod Trees
pub mod Lexing
pub mod Plans
pub mod Specs
pub mod Stores
pub mod Handling
pub mod Operations
