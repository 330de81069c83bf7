-- ===== src/Examples/Specs.antt =====
-- Scenario specifications, accepted and rejected.
use decision_gate.Prelude.{ℕ, ◌≡◌, ◌↔◌, refl, List, [], ◌∷◌, map, All, string_eq}
use decision_gate.Prelude.Outcome.{ok, err}
use decision_gate.Core.Spec.{
  ScenarioSpec, StageSpec, ConditionSpec, fixed, duplicate_stage_id, duplicate_gate_id,
  missing_branch_target, missing_condition, missing_stages,
}
use decision_gate.Core.Spec.Validate.{
  validate, is_blank, test_later, push_ids, push_each, each_known, resolve_gates,
  collect_conditions, collect_conditions_inner, ensure_unique_stage_ids, ensure_unique_gate_ids,
  ensure_unique_packet_ids, ensure_unique_conditions, ensure_condition_queries_well_formed,
  ensure_gate_conditions_resolve, ensure_branch_targets_exist,
}
use decision_gate.Core.Spec.Validate.Resolve.{Resolves}
use decision_gate.Core.Spec.Validate.Valid.{IsValid, validate_iff}
use decision_gate.Runtime.Engine.Helpers.{condition_specs, stage_spec}
use decision_gate.Runtime.Engine.Helpers.Conditions.{condition_specs-Known}
use decision_gate.Examples.Plane.{scenario, intake, review}

pub accepted : validate scenario ≡ ok tt
unfolding validate ensure_unique_stage_ids ensure_unique_gate_ids ensure_unique_packet_ids
    ensure_unique_conditions ensure_condition_queries_well_formed ensure_gate_conditions_resolve
    ensure_branch_targets_exist test_later push_ids push_each each_known resolve_gates
    collect_conditions collect_conditions_inner is_blank
accepted = refl

validate_iff_example : (validate scenario ≡ ok tt) ↔ IsValid scenario
validate_iff_example = validate_iff scenario

condition_specs-Known_example :
    (cs : List (ConditionSpec ℕ)) × (condition_specs scenario intake ≡ ok cs)
    × All (Resolves (map (λ c. c.condition_id) cs)) intake.gates
condition_specs-Known_example =
    condition_specs-Known scenario "intake" intake ((validate_iff scenario).0 accepted)
      (unfold stage_spec in refl)

-- A specification with these stages.
abbrev staged : List (StageSpec ℕ) → ScenarioSpec ℕ
staged stages = record scenario { stages = stages }

no_stages : validate (staged []) ≡ err missing_stages
unfolding validate
no_stages = refl

twice : validate (staged (intake ∷ review ∷ intake ∷ [])) ≡ err (duplicate_stage_id "intake")
unfolding validate ensure_unique_stage_ids test_later
twice = refl

same_gate :
    validate (staged (intake ∷ record intake { stage_id = "other" } ∷ []))
    ≡ err (duplicate_gate_id "ready_gate")
unfolding validate ensure_unique_stage_ids ensure_unique_gate_ids test_later push_ids push_each
same_gate = refl

nowhere :
    validate (staged (record intake { advance_to = fixed "nowhere" } ∷ []))
    ≡ err (missing_branch_target "nowhere")
unfolding validate ensure_unique_stage_ids ensure_unique_gate_ids ensure_unique_packet_ids
    ensure_unique_conditions ensure_condition_queries_well_formed ensure_gate_conditions_resolve
    ensure_branch_targets_exist test_later push_ids push_each each_known resolve_gates
    collect_conditions collect_conditions_inner is_blank
nowhere = refl

undefined : validate (record scenario { conditions = [] }) ≡ err (missing_condition "ready")
unfolding validate ensure_unique_stage_ids ensure_unique_gate_ids ensure_unique_packet_ids
    ensure_unique_conditions ensure_condition_queries_well_formed ensure_gate_conditions_resolve
    ensure_branch_targets_exist test_later push_ids push_each each_known resolve_gates
    collect_conditions collect_conditions_inner is_blank
undefined = refl
