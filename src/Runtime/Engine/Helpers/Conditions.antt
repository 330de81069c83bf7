-- ===== src/Runtime/Engine/Helpers/Conditions.antt =====
-- crates/decision-gate-core/src/runtime/engine.rs: `condition_specs` in a validated specification.
use decision_gate.Prelude.{
  ◌≡◌, refl, ap, ◌∙◌, sym, String, List, [], ◌∷◌, ◌++◌, map, true, Bool-cases, inl, inr, contains,
  ◌==◌, string_eq, if◌then◌else◌, All,
}
use mathlib.Core.Path.{subst}
use decision_gate.Prelude.Distinct.{All-append, append-All, All-map, equal_to}
use decision_gate.Prelude.Outcome.{ok}
use decision_gate.RetLogic.Requirement.{
  Requirement, Requirements, and, or, not, require_group, condition, nil, cons,
}
use decision_gate.RetLogic.Requirement.Shape.{leaves, leaves_all}
use decision_gate.Core.Spec.{ScenarioSpec, StageSpec, ConditionSpec, GateSpec}
use decision_gate.Core.Spec.Validate.{condition_ids}
use decision_gate.Core.Spec.Validate.Resolve.{Known, Resolves}
use decision_gate.Core.Spec.Validate.Valid.{IsValid}
use decision_gate.Runtime.Gate.{collect_conditions, collect_conditions_inner, collect_each}
use decision_gate.Runtime.Gate.Relevant.{contains-append, contains-last, collected}
use decision_gate.Runtime.Engine.Helpers.{
  condition_specs, specs_of, gate_keys, push_new, stage_spec,
}
use decision_gate.Runtime.Engine.Helpers.Stages.{find-Known, stage_spec-All}

module _ (P : String → Type 0) where
  mutual
    unfolding collect_conditions_inner leaves

    inner_All :
        (r : Requirement String) (out : List String)
        → All P out
        → All P (leaves r)
        → All P (collect_conditions_inner r out)
    inner_All (condition c) out h k = elim (Bool-cases (contains out c)) [
      | inl e ↦ rw e h
      | inr e ↦ rw e (append-All P out (c ∷ []) h k)
    ]
    inner_All (not r) out h k = inner_All r out h k
    inner_All (and rs) out h k = each_All rs out h k
    inner_All (or rs) out h k = each_All rs out h k
    inner_All (require_group min rs) out h k = each_All rs out h k

    each_All :
        (rs : Requirements String) (out : List String)
        → All P out
        → All P (leaves_all rs)
        → All P (collect_each rs out)
    each_All nil out h k = h
    each_All (cons r rs) out h k =
        let (here, later) = All-append P (leaves r) (leaves_all rs) k in
        each_All rs (collect_conditions_inner r out) (inner_All r out h here) later

  push_new-All : (cs keys : List String) → All P cs → All P keys → All P (push_new cs keys)
  unfolding push_new
  push_new-All [] keys h k = k
  push_new-All (c ∷ cs) keys h k = elim (Bool-cases (contains keys c)) [
    | inl e ↦ rw e (push_new-All cs keys h.1 k)
    | inr e ↦ rw e (push_new-All cs (keys ++ c ∷ []) h.1 (append-All P keys (c ∷ []) k (h.0, tt)))
  ]

  gate_keys-All :
      (gates : List GateSpec) (keys : List String)
      → All (λ g. All P (leaves g.requirement)) gates
      → All P keys
      → All P (gate_keys gates keys)
  unfolding gate_keys collect_conditions
  gate_keys-All [] keys h k = k
  gate_keys-All (g ∷ gates) keys h k =
      gate_keys-All gates (push_new (collect_conditions g.requirement) keys) h.1
        (push_new-All (collect_conditions g.requirement) keys (inner_All g.requirement [] tt h.0) k)

-- Nothing that is pushed or was there is lost.
push_new-kept :
    (cs keys : List String) (c : String)
    → contains keys c ≡ true
    → contains (push_new cs keys) c ≡ true
unfolding push_new
push_new-kept [] keys c h = h
push_new-kept (d ∷ cs) keys c h = elim (Bool-cases (contains keys d)) [
  | inl e ↦ rw e (push_new-kept cs keys c h)
  | inr e ↦ rw e (push_new-kept cs (keys ++ d ∷ []) c (contains-append keys (d ∷ []) c h))
]

push_new-pushed :
    (cs keys : List String) (c : String)
    → contains cs c ≡ true
    → contains (push_new cs keys) c ≡ true
unfolding push_new
push_new-pushed [] keys c h = cc
push_new-pushed (d ∷ cs) keys c h = elim (Bool-cases (d == c)) [
  | inl e ↦
      subst (λ x. contains (push_new (d ∷ cs) keys) x ≡ true) (equal_to d c e)
        (head_pushed d cs keys)
  | inr e ↦ push_new-pushed cs (if contains keys d then keys else keys ++ d ∷ []) c (rw e at h)
]
  where
    head_pushed : (d : String) (cs keys : List String) → contains (push_new (d ∷ cs) keys) d ≡ true
    head_pushed d cs keys = elim (Bool-cases (contains keys d)) [
      | inl e ↦ rw e (push_new-kept cs keys d e)
      | inr e ↦ rw e (push_new-kept cs (keys ++ d ∷ []) d (contains-last keys d))
    ]

gate_keys-kept :
    (gates : List GateSpec) (keys : List String) (c : String)
    → contains keys c ≡ true
    → contains (gate_keys gates keys) c ≡ true
unfolding gate_keys
gate_keys-kept [] keys c h = h
gate_keys-kept (g ∷ gates) keys c h =
    gate_keys-kept gates _ c (push_new-kept (collect_conditions g.requirement) keys c h)

gate_keys-Known :
    (gates : List GateSpec) (keys : List String)
    → All (λ g. All (Known (gate_keys gates keys)) (leaves g.requirement)) gates
unfolding gate_keys collect_conditions
gate_keys-Known [] keys = tt
gate_keys-Known (g ∷ gates) keys =
    let pushed = push_new (collect_conditions g.requirement) keys in
    (
      All-map
          (λ c h.
            gate_keys-kept gates pushed c
              (push_new-pushed (collect_conditions g.requirement) keys c h))
          (leaves g.requirement) (collected g.requirement []),
      gate_keys-Known gates pushed,
    )

module _ {V : Type 0} where
  specs_of-Known :
      (spec : ScenarioSpec V) (keys : List String)
      → All (Known (condition_ids spec)) keys
      → (cs : List (ConditionSpec V)) × (specs_of spec keys ≡ ok cs)
        × (map (λ c. c.condition_id) cs ≡ keys)
  unfolding specs_of
  specs_of-Known spec [] h = ([], refl, refl)
  specs_of-Known spec (key ∷ keys) h =
      let (c, found, id) = find-Known (λ c. c.condition_id) spec.conditions key h.0 in
      let (cs, e, ids) = specs_of-Known spec keys h.1 in
      (
        c ∷ cs,
        rw (found, e) refl,
        ap (λ k. k ∷ map (λ c. c.condition_id) cs) id ∙ ap (λ ks. key ∷ ks) ids,
      )

  -- In a valid specification, a stage that can be looked up has the specifications of all conditions
  -- that the requirements of its gates mention: looking them up does not fail, and misses none.
  pub condition_specs-Known :
      (spec : ScenarioSpec V) (x : String) (stage : StageSpec V)
      → IsValid spec
      → stage_spec spec x ≡ ok stage
      → (cs : List (ConditionSpec V)) × (condition_specs spec stage ≡ ok cs)
        × All (Resolves (map (λ c. c.condition_id) cs)) stage.gates
  unfolding condition_specs
  condition_specs-Known spec x stage v h =
      let known =
        stage_spec-All (λ s. All (Resolves (condition_ids spec)) s.gates) spec x stage h
          v.requirements in
      let (cs, e, ids) =
        specs_of-Known spec (gate_keys stage.gates [])
          (gate_keys-All (Known (condition_ids spec)) stage.gates [] known tt) in
      (
        cs,
        e,
        subst (λ keys. All (Resolves keys) stage.gates) (sym ids) (gate_keys-Known stage.gates []),
      )
