-- ===== src/Lib.antt =====
-- Decision Gate: deterministic gates over evidence, and the engine that moves a run through the
-- stages of a scenario.
--
-- The program's core is two crates. `crates/ret-logic` has requirement trees over conditions and
-- evaluates them, on Booleans and on three truth values. `crates/decision-gate-core` has the data of
-- scenarios and runs, compares evidence with what is expected, evaluates the gates of a stage and
-- decides. A trigger event reaches `ControlPlane::trigger` or `scenario_next`, which load the run,
-- handle the trigger, log the call and save the run. Handling it asks the evidence providers for the
-- conditions of the stage, compares each answer, lowers what comes from a lane that is not trusted
-- enough, evaluates each gate, and holds, advances, completes or fails. Entering a stage dispatches
-- its packets, each after the policy permits it.
--
-- Files:
-- - RetLogic/TriState: crates/ret-logic/src/tristate.rs (`TriState`, `TriLogic`, `KleeneLogic`,
--   `BochvarLogic`, `LogicMode`); TriState/Order has the information order on truth values.
-- - RetLogic/Requirement: crates/ret-logic/src/requirement.rs (`Requirement`). Eval is
--   `eval_with_depth`, Tri is `eval_tristate_with_depth` and its two callers, Trivial the static
--   analyses and `RequirementGroup`. Shape says what a tree means apart from the code.
-- - Core/Time, Hashing, Evidence, Disclosure, Spec, State: the files of the same name under
--   crates/decision-gate-core/src/core. Spec/Validate is `ScenarioSpec::validate`, and DataShape is
--   data_shape.rs.
-- - Runtime/Comparator and Runtime/Gate: runtime/comparator.rs and runtime/gate.rs of that crate.
-- - Runtime/Interfaces: interfaces/mod.rs, each trait as a record of actions.
-- - Runtime/Engine: runtime/engine.rs. Types has the configuration, the requests and the errors;
--   Helpers and Evidence the functions at the end of the file; Trigger is `handle_trigger_internal`
--   with Trigger/Conditions (`evaluate_conditions`) and Trigger/Packets (`issue_stage_packets`); Api
--   has `start_run`, `scenario_status`, `scenario_next`, `scenario_submit` and `trigger`; Precheck has
--   `precheck`, and Construct `ControlPlane::new`.
-- - Runtime/Store: runtime/store.rs, the in-memory run store; Store/Registry is the data shape
--   registry.
-- - Prelude: names, list functions, maps, `Result` as `Outcome`, and `Action`, the type of code that may
--   fail and that changes a state which outlives the failure. Examples: concrete inputs.
--
-- How the code is read: a method on `&mut RunState` takes the state and returns the new one with its
-- result; its error drops the state, as the callers do, which save nothing after one. Calls of a
-- trait change an outside world, of an arbitrary type, also when they fail. A loop is a function by
-- recursion on the list. `SmallVec` and `Vec` are lists, `BTreeMap` is an association list, and
-- identifiers are texts.
--
-- Bounds: evaluation stops below depth `MAX_EVAL_DEPTH` (32), which the model keeps, so no fuel is
-- needed. The lexer has one unit of fuel for each byte and one more: each round passes a byte.
-- `usize` and `u64` additions that the code saturates or checks do so here; counts within one list,
-- which memory bounds, are plain numbers, and the `u8` of a group's minimum is a number. `u64::MAX`
-- and `usize::MAX` are both 2 ^ 64 - 1. An `i64` time is an integer, checked where the code checks
-- it.
--
-- Parameters, not modelled: JSON values, decimals and dates (`serde_json`, `bigdecimal`, `time`) are
-- the record `Json`; SHA-256 and canonical JSON (`sha2`, `serde_jcs`) are the record `Codec`; the
-- texts of errors (`thiserror`) are fields of `ControlPlane`, and the text of schemas and cursors
-- (`serde_json`) is the record `Serde`. Not modelled: the parser of ret-logic's DSL and its serializers, and
-- the run pack of the core. The other crates are input and output around these two.
pub mod Prelude
pub mod RetLogic
pub mod Core
pub mod Runtime
pub mod Examples
