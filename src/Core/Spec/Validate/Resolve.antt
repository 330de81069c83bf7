-- ===== src/Core/Spec/Validate/Resolve.antt =====
-- crates/decision-gate-core/src/core/spec.rs: the checks that what a stage names is defined.
use mathlib.Core.Path.{subst}
use decision_gate.Prelude.{
  String, ◌≡◌, ◌↔◌, refl, List, [], ◌∷◌, true, false, Bool-cases, inl, inr, contains, ◌==◌,
  string_eq, if◌then◌else◌, All,
}
use decision_gate.Prelude.Distinct.{equal_to, All-append, append-All}
use decision_gate.Prelude.Outcome.{sequel_iff, err}
use decision_gate.RetLogic.Requirement.{
  Requirement, Requirements, and, or, not, require_group, condition, nil, cons,
}
use decision_gate.RetLogic.Requirement.Shape.{leaves, leaves_all}
use decision_gate.Core.Spec.{
  SpecError, missing_condition, invalid_evidence_query, missing_branch_target, StageSpec, GateSpec,
  ConditionSpec,
}
use decision_gate.Core.Spec.Validate.{
  each_known, collect_conditions, collect_conditions_inner, collect_reqs, resolve_gates,
  ensure_gate_conditions_resolve, ensure_branch_targets_exist, targets,
  ensure_condition_queries_well_formed, is_blank,
}
use decision_gate.Core.Spec.Validate.Unique.{Passes, test_iff}

abbrev pub Known : List String → String → Type 0
Known ids x = contains ids x ≡ true

each_known_iff :
    (error : String → SpecError) (ids xs : List String)
    → Passes (each_known error ids xs) ↔ All (Known ids) xs
unfolding each_known
each_known_iff error ids [] = (λ _. tt, λ _. refl)
each_known_iff error ids (x ∷ xs) = elim (Bool-cases (contains ids x)) [
  | inl e ↦
      rw e
        (λ h. (refl, (each_known_iff error ids xs).0 h), λ h. (each_known_iff error ids xs).1 h.1)
  | inr e ↦ rw e (λ h. cc, λ h. cc)
]

-- `collect_conditions` keeps what holds of every leaf, and only that.
All-found :
    (P : String → Type 0) (out : List String) (c : String) → contains out c ≡ true → All P out → P c
All-found P [] c h k = cc
All-found P (x ∷ out) c h k = elim (Bool-cases (x == c)) [
  | inl e ↦ subst P (equal_to x c e) k.0
  | inr e ↦ All-found P out c (rw e at h) k.1
]

module _ (P : String → Type 0) where
  mutual
    unfolding collect_conditions_inner leaves

    inner_All :
        (r : Requirement String) (out : List String)
        → All P (collect_conditions_inner r out) ↔ (All P out × All P (leaves r))
    inner_All (condition c) out = elim (Bool-cases (contains out c)) [
      | inl e ↦ rw e (λ h. (h, (All-found P out c e h, tt)), λ h. h.0)
      | inr e ↦ rw e (All-append P out (c ∷ []), λ h. append-All P out (c ∷ []) h.0 h.1)
    ]
    inner_All (not r) out = inner_All r out
    inner_All (and rs) out = reqs_All rs out
    inner_All (or rs) out = reqs_All rs out
    inner_All (require_group min rs) out = reqs_All rs out

    reqs_All :
        (rs : Requirements String) (out : List String)
        → All P (collect_reqs rs out) ↔ (All P out × All P (leaves_all rs))
    reqs_All nil out = (λ h. (h, tt), λ h. h.0)
    reqs_All (cons r rs) out =
        let rest = reqs_All rs (collect_conditions_inner r out) in
        (
          λ h.
              let k = (inner_All r out).0 (rest.0 h).0 in
              (k.0, append-All P (leaves r) (leaves_all rs) k.1 (rest.0 h).1),
          λ h.
              let k = All-append P (leaves r) (leaves_all rs) h.1 in
              rest.1 ((inner_All r out).1 (h.0, k.0), k.1),
        )

abbrev pub Resolves : List String → GateSpec → Type 0
Resolves ids gate = All (Known ids) (leaves gate.requirement)

gates_iff :
    (ids : List String) (gates : List GateSpec)
    → Passes (resolve_gates ids gates) ↔ All (Resolves ids) gates
unfolding resolve_gates collect_conditions
gates_iff ids [] = (λ _. tt, λ _. refl)
gates_iff ids (gate ∷ gates) =
    let step =
      sequel_iff (each_known missing_condition ids (collect_conditions gate.requirement))
        (resolve_gates ids gates) in
    let one = each_known_iff missing_condition ids (collect_conditions gate.requirement) in
    let leaf = inner_All (Known ids) gate.requirement [] in
    (
      λ h. ((leaf.0 (one.0 (step.0 h).0)).1, (gates_iff ids gates).0 (step.0 h).1),
      λ h. step.1 (one.1 (leaf.1 (tt, h.0)), (gates_iff ids gates).1 h.1),
    )

module _ {V : Type 0} where
  pub stage_gates_iff :
      (ids : List String) (stages : List (StageSpec V))
      → Passes (ensure_gate_conditions_resolve stages ids)
        ↔ All (λ stage. All (Resolves ids) stage.gates) stages
  unfolding ensure_gate_conditions_resolve
  stage_gates_iff ids [] = (λ _. tt, λ _. refl)
  stage_gates_iff ids (stage ∷ stages) =
      let step =
        sequel_iff (resolve_gates ids stage.gates) (ensure_gate_conditions_resolve stages ids) in
      (
        λ h. (
          (gates_iff ids stage.gates).0 (step.0 h).0,
          (stage_gates_iff ids stages).0 (step.0 h).1,
        ),
        λ h. step.1 ((gates_iff ids stage.gates).1 h.0, (stage_gates_iff ids stages).1 h.1),
      )

  pub stage_targets_iff :
      (ids : List String) (stages : List (StageSpec V))
      → Passes (ensure_branch_targets_exist ids stages)
        ↔ All (λ stage. All (Known ids) (targets stage.advance_to)) stages
  unfolding ensure_branch_targets_exist
  stage_targets_iff ids [] = (λ _. tt, λ _. refl)
  stage_targets_iff ids (stage ∷ stages) =
      let found = each_known missing_branch_target ids (targets stage.advance_to) in
      let step = sequel_iff found (ensure_branch_targets_exist ids stages) in
      let one = each_known_iff missing_branch_target ids (targets stage.advance_to) in
      (
        λ h. (one.0 (step.0 h).0, (stage_targets_iff ids stages).0 (step.0 h).1),
        λ h. step.1 (one.1 h.0, (stage_targets_iff ids stages).1 h.1),
      )

  abbrev pub Filled : ConditionSpec V → Type 0
  Filled c = (is_blank c.query.provider_id ≡ false) × (is_blank c.query.check_id ≡ false)

  pub queries_iff :
      (conditions : List (ConditionSpec V))
      → Passes (ensure_condition_queries_well_formed conditions) ↔ All Filled conditions
  unfolding ensure_condition_queries_well_formed
  queries_iff [] = (λ _. tt, λ _. refl)
  queries_iff (c ∷ conditions) =
      let rest = ensure_condition_queries_well_formed conditions in
      let unchecked = invalid_evidence_query c.condition_id "check_id is empty" in
      let check = test_iff (is_blank c.query.check_id) unchecked rest in
      let provider =
        test_iff (is_blank c.query.provider_id)
          (invalid_evidence_query c.condition_id "provider_id is empty")
          (if is_blank c.query.check_id then err unchecked else rest) in
      (
        λ h.
            let k = provider.0 h in
            let k' = check.0 k.1 in ((k.0, k'.0), (queries_iff conditions).0 k'.1),
        λ h. provider.1 (h.0.0, check.1 (h.0.1, (queries_iff conditions).1 h.1)),
      )
