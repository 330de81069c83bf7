-- ===== src/Core/Spec/Validate/Valid.antt =====
-- crates/decision-gate-core/src/core/spec.rs: what a specification must be, apart from the checks.
use decision_gate.Prelude.{String, ◌≡◌, ◌↔◌, refl, List, [], ◌∷◌, map, some, All, head?}
use decision_gate.Prelude.Distinct.{Distinct}
use decision_gate.Prelude.Outcome.{sequel_iff, ok, ◌>>◌}
use decision_gate.Core.Spec.{
  ScenarioSpec, StageSpec, duplicate_gate_id, duplicate_packet_id, duplicate_stage_id,
  duplicate_condition,
}
use decision_gate.Core.Spec.Validate.{
  validate, has_stages, ensure_unique_stage_ids, ensure_unique_gate_ids, ensure_unique_packet_ids,
  ensure_unique_conditions, ensure_condition_queries_well_formed, ensure_gate_conditions_resolve,
  ensure_branch_targets_exist, stage_ids, condition_ids, targets,
}
use decision_gate.Core.Spec.Validate.Unique.{Passes, flat, test_later_iff, push_each_iff}
use decision_gate.Core.Spec.Validate.Resolve.{
  Known, Resolves, Filled, stage_gates_iff, stage_targets_iff, queries_iff,
}

module _ {V : Type 0} where
  abbrev pub gate_ids : StageSpec V → List String
  gate_ids stage = map (λ gate. gate.gate_id) stage.gates

  abbrev pub packet_ids : StageSpec V → List String
  packet_ids stage = map (λ packet. packet.packet_id) stage.entry_packets

  pub record IsValid (spec : ScenarioSpec V) : Type 0 where
    pub first_stage : (stage : StageSpec V) × (head? spec.stages ≡ some stage)
    pub stages : Distinct (stage_ids spec)
    pub gates : Distinct (flat gate_ids spec.stages)
    pub packets : Distinct (flat packet_ids spec.stages)
    pub conditions : Distinct (condition_ids spec)
    pub queries : All Filled spec.conditions
    -- Every leaf of every gate's requirement is a condition of the specification.
    pub requirements : All (λ stage. All (Resolves (condition_ids spec)) stage.gates) spec.stages
    -- Every stage that a stage names as its next is a stage of the specification.
    pub next_stages :
        All (λ stage. All (Known (stage_ids spec)) (targets stage.advance_to)) spec.stages

  has_stages_iff :
      (stages : List (StageSpec V))
      → Passes (has_stages stages) ↔ ((stage : StageSpec V) × (head? stages ≡ some stage))
  has_stages_iff [] = (λ h. cc, λ h. cc)
  has_stages_iff (stage ∷ stages) = (λ _. (stage, refl), λ _. refl)

  -- `validate` accepts a specification exactly when it has a stage, no two stages, gates, packets or
  -- conditions have the same identifier, no query has a blank provider or check, every condition that
  -- a gate's requirement mentions is defined, and every stage that a fixed step, a branch or a
  -- default leads to is defined.
  pub validate_iff : (spec : ScenarioSpec V) → (validate spec ≡ ok tt) ↔ IsValid spec
  unfolding validate ensure_unique_stage_ids ensure_unique_gate_ids ensure_unique_packet_ids
      ensure_unique_conditions
  validate_iff spec =
      let gates = ensure_unique_gate_ids spec.stages in
      let packets = ensure_unique_packet_ids spec.stages in
      let conditions = ensure_unique_conditions spec.conditions in
      let queries = ensure_condition_queries_well_formed spec.conditions in
      let resolve = ensure_gate_conditions_resolve spec.stages (condition_ids spec) in
      let exist = ensure_branch_targets_exist (stage_ids spec) spec.stages in
      let s7 = sequel_iff resolve exist in
      let s6 = sequel_iff queries (resolve >> exist) in
      let s5 = sequel_iff conditions (queries >> (resolve >> exist)) in
      let s4 = sequel_iff packets (conditions >> (queries >> (resolve >> exist))) in
      let s3 = sequel_iff gates (packets >> (conditions >> (queries >> (resolve >> exist)))) in
      let s2 =
        sequel_iff (ensure_unique_stage_ids spec.stages)
          (gates >> (packets >> (conditions >> (queries >> (resolve >> exist))))) in
      let s1 = sequel_iff (has_stages spec.stages) (
        ensure_unique_stage_ids spec.stages
        >> (gates >> (packets >> (conditions >> (queries >> (resolve >> exist)))))) in
      (
        λ h.
            let h1 = s1.0 h in
            let h2 = s2.0 h1.1 in
            let h3 = s3.0 h2.1 in
            let h4 = s4.0 h3.1 in
            let h5 = s5.0 h4.1 in
            let h6 = s6.0 h5.1 in
            let h7 = s7.0 h6.1 in
            record {
              first_stage = (has_stages_iff spec.stages).0 h1.0;
              stages =
                  (test_later_iff (λ stage. stage.stage_id) duplicate_stage_id spec.stages).0 h2.0;
              gates = (push_each_iff duplicate_gate_id gate_ids spec.stages).0 h3.0;
              packets = (push_each_iff duplicate_packet_id packet_ids spec.stages).0 h4.0;
              conditions =
                  (test_later_iff (λ c. c.condition_id) duplicate_condition spec.conditions).0 h5.0;
              queries = (queries_iff spec.conditions).0 h6.0;
              requirements = (stage_gates_iff (condition_ids spec) spec.stages).0 h7.0;
              next_stages = (stage_targets_iff (stage_ids spec) spec.stages).0 h7.1;
            },
        λ v. s1.1 (
          (has_stages_iff spec.stages).1 v.first_stage,
          s2.1 (
            (test_later_iff (λ stage. stage.stage_id) duplicate_stage_id spec.stages).1 v.stages,
            s3.1 (
              (push_each_iff duplicate_gate_id gate_ids spec.stages).1 v.gates,
              s4.1 (
                (push_each_iff duplicate_packet_id packet_ids spec.stages).1 v.packets,
                s5.1 (
                  (test_later_iff (λ c. c.condition_id) duplicate_condition spec.conditions).1
                      v.conditions,
                  s6.1 (
                    (queries_iff spec.conditions).1 v.queries,
                    s7.1 (
                      (stage_gates_iff (condition_ids spec) spec.stages).1 v.requirements,
                      (stage_targets_iff (stage_ids spec) spec.stages).1 v.next_stages,
                    ),
                  ),
                ),
              ),
            ),
          ),
        ),
      )
