-- ===== src/Runtime/Gate.antt =====
-- crates/decision-gate-core/src/runtime/gate.rs: evidence snapshots, traced gate evaluation and the
-- collection of a requirement's conditions.
pub mod Relevant
use decision_gate.Prelude.{
  String, Bool, Option, none, some, List, [], ◌∷◌, ◌++◌, find, contains, ◌==◌, string_eq,
  if◌then◌else◌,
}
use decision_gate.RetLogic.TriState.{TriState, LogicMode, logic_of}
use decision_gate.RetLogic.Requirement.{
  Requirement, Requirements, and, or, not, require_group, condition, nil, cons,
}
use decision_gate.RetLogic.Requirement.Tri.{eval_tristate_with_trace}
use decision_gate.Core.State.{EvidenceRecord, GateEvaluation, GateTraceEntry}
use decision_gate.Core.Spec.{GateSpec}

-- `EvidenceSnapshot` is the list of its records.
unfoldable pub status_for : {V : Type 0} → List (EvidenceRecord V) → String → TriState
status_for records condition_id = elim (find (λ r. r.condition_id == condition_id) records) [
  | none ↦ TriState.unknown
  | some r ↦ r.status
]

-- `impl RequirementTrace for GateTrace`
unfoldable pub on_condition_evaluated :
    String → TriState → List GateTraceEntry → List GateTraceEntry
on_condition_evaluated condition_id result entries =
    entries ++ record { condition_id = condition_id; status = result } ∷ []

unfoldable pub evaluate_gate :
    {V : Type 0} → LogicMode → GateSpec → List (EvidenceRecord V) → GateEvaluation
evaluate_gate logic gate snapshot =
    let (status, entries) =
      eval_tristate_with_trace (logic_of logic) (status_for snapshot) on_condition_evaluated
        gate.requirement [] in
    record { gate_id = gate.gate_id; status = status; trace = entries }

unfoldable mutual
  pub collect_conditions_inner : Requirement String → List String → List String
  collect_conditions_inner (condition c) out = if contains out c then out else out ++ c ∷ []
  collect_conditions_inner (not inner) out = collect_conditions_inner inner out
  collect_conditions_inner (and rs) out = collect_each rs out
  collect_conditions_inner (or rs) out = collect_each rs out
  collect_conditions_inner (require_group min rs) out = collect_each rs out

  pub collect_each : Requirements String → List String → List String
  collect_each nil out = out
  collect_each (cons r rs) out = collect_each rs (collect_conditions_inner r out)

unfoldable pub collect_conditions : Requirement String → List String
collect_conditions requirement = collect_conditions_inner requirement []
