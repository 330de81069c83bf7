-- ===== src/Runtime/Gate/Relevant.antt =====
-- crates/decision-gate-core/src/runtime/gate.rs: the evidence that a gate looks at.
use decision_gate.Prelude.{
  ℕ, ◌≤◌, String, true, false, Bool-cases, inl, inr, List, [], ◌∷◌, ◌++◌, ◌≡◌, refl, ap, find,
  filter, contains, ◌==◌, string_eq, All,
}
use decision_gate.Prelude.Distinct.{All-append, append-All, All-map, equal_to, same}
use decision_gate.RetLogic.TriState.{TriState, LogicMode, logic_of, TriLogic}
use decision_gate.RetLogic.TriState.Order.{◌⊑◌}
use decision_gate.RetLogic.Requirement.{
  Requirement, Requirements, and, or, not, require_group, condition, nil, cons, len, max_eval_depth,
}
use decision_gate.RetLogic.Requirement.Shape.{height, leaves, leaves_all}
use decision_gate.RetLogic.Requirement.Tri.{count_satisfied, count_unknown}
use decision_gate.RetLogic.Requirement.Tri.Meaning.{
  eval_tristate_with_trace-value, value, value_and, value_or, value_group, record_all,
}
use decision_gate.RetLogic.Requirement.Tri.Monotone.{eval_tristate_with_trace-⊑}
use decision_gate.Core.State.{EvidenceRecord}
use decision_gate.Core.Spec.{GateSpec}
use decision_gate.Runtime.Engine.Helpers.{evidence_for_gate}
use decision_gate.Runtime.Gate.{
  status_for, on_condition_evaluated, evaluate_gate, collect_conditions, collect_conditions_inner,
  collect_each,
}

-- Two valuations that agree on the conditions listed.
abbrev Agree : (String → TriState) → (String → TriState) → List String → Type 0
Agree f g cs = All (λ c. f c ≡ g c) cs

module _ (logic : TriLogic) (f g : String → TriState) where
  mutual
    unfolding value leaves

    value_local :
        (r : Requirement String) → Agree f g (leaves r) → value logic f r ≡ value logic g r
    value_local (condition c) h = h.0
    value_local (not r) h = ap logic.not (value_local r h)
    value_local (and rs) h = and_local rs TriState.true h
    value_local (or rs) h = or_local rs TriState.false h
    value_local (require_group min rs) h = group_local rs min 0 0 (len rs) h

    and_local :
        (rs : Requirements String) (acc : TriState)
        → Agree f g (leaves_all rs)
        → value_and logic f rs acc ≡ value_and logic g rs acc
    and_local nil acc h = refl
    and_local (cons r rs) acc h =
        let k = All-append (λ c. f c ≡ g c) (leaves r) (leaves_all rs) h in
        rw (value_local r k.0) (and_local rs (logic.and acc (value logic g r)) k.1)

    or_local :
        (rs : Requirements String) (acc : TriState)
        → Agree f g (leaves_all rs)
        → value_or logic f rs acc ≡ value_or logic g rs acc
    or_local nil acc h = refl
    or_local (cons r rs) acc h =
        let k = All-append (λ c. f c ≡ g c) (leaves r) (leaves_all rs) h in
        rw (value_local r k.0) (or_local rs (logic.or acc (value logic g r)) k.1)

    group_local :
        (rs : Requirements String) (min s u total : ℕ)
        → Agree f g (leaves_all rs)
        → value_group logic f rs min s u total ≡ value_group logic g rs min s u total
    group_local nil min s u total h = refl
    group_local (cons r rs) min s u total h =
        let k = All-append (λ c. f c ≡ g c) (leaves r) (leaves_all rs) h in
        rw (value_local r k.0) (
          group_local rs min (count_satisfied (value logic g r) s)
            (count_unknown (value logic g r) u) total k.1)

  record_local :
      {T : Type 0} (hook : String → TriState → T → T) (cs : List String) (t : T)
      → Agree f g cs
      → record_all f hook cs t ≡ record_all g hook cs t
  record_local hook [] t h = refl
  record_local hook (c ∷ cs) t h = rw h.0 (record_local hook cs (hook c (g c) t) h.1)

-- The conditions that `collect_conditions` finds.
pub contains-append :
    (out more : List String) (c : String) → contains out c ≡ true → contains (out ++ more) c ≡ true
contains-append [] more c h = cc
contains-append (x ∷ out) more c h = elim (Bool-cases (x == c)) [
  | inl e ↦ rw e refl
  | inr e ↦ rw e (contains-append out more c (rw e at h))
]

pub contains-last : (out : List String) (c : String) → contains (out ++ c ∷ []) c ≡ true
contains-last [] c = rw (same c) refl
contains-last (x ∷ out) c = elim (Bool-cases (x == c)) [
  | inl e ↦ rw e refl
  | inr e ↦ rw e (contains-last out c)
]

mutual
  unfolding collect_conditions_inner

  kept :
      (r : Requirement String) (out : List String) (c : String)
      → contains out c ≡ true
      → contains (collect_conditions_inner r out) c ≡ true
  kept (condition d) out c h = elim (Bool-cases (contains out d)) [
    | inl e ↦ rw e h
    | inr e ↦ rw e (contains-append out (d ∷ []) c h)
  ]
  kept (not r) out c h = kept r out c h
  kept (and rs) out c h = kept_each rs out c h
  kept (or rs) out c h = kept_each rs out c h
  kept (require_group min rs) out c h = kept_each rs out c h

  kept_each :
      (rs : Requirements String) (out : List String) (c : String)
      → contains out c ≡ true
      → contains (collect_each rs out) c ≡ true
  kept_each nil out c h = h
  kept_each (cons r rs) out c h = kept_each rs (collect_conditions_inner r out) c (kept r out c h)

mutual
  unfolding collect_conditions_inner leaves

  pub collected :
      (r : Requirement String) (out : List String)
      → All (λ c. contains (collect_conditions_inner r out) c ≡ true) (leaves r)
  collected (condition d) out = elim (Bool-cases (contains out d)) [
    | inl e ↦ (rw e e, tt)
    | inr e ↦ (rw e (contains-last out d), tt)
  ]
  collected (not r) out = collected r out
  collected (and rs) out = collected_each rs out
  collected (or rs) out = collected_each rs out
  collected (require_group min rs) out = collected_each rs out

  collected_each :
      (rs : Requirements String) (out : List String)
      → All (λ c. contains (collect_each rs out) c ≡ true) (leaves_all rs)
  collected_each nil out = tt
  collected_each (cons r rs) out =
      append-All (λ c. contains (collect_each (cons r rs) out) c ≡ true) (leaves r) (leaves_all rs)
        (All-map (kept_each rs (collect_conditions_inner r out)) (leaves r) (collected r out))
        (collected_each rs (collect_conditions_inner r out))

module _ {V : Type 0} (cs : List String) (c : String) (known : contains cs c ≡ true) where
  find-filter :
      (records : List (EvidenceRecord V))
      → find (λ r. r.condition_id == c) (filter (λ r. contains cs r.condition_id) records)
        ≡ find (λ r. r.condition_id == c) records
  find-filter [] = refl
  find-filter (r ∷ records) = elim (Bool-cases (contains cs r.condition_id)) [
    | inl e ↦ elim (Bool-cases (r.condition_id == c)) [
      | inl at ↦ rw (e, at) refl
      | inr off ↦ rw (e, off) (find-filter records)
    ]
    | inr e ↦ elim (Bool-cases (r.condition_id == c)) [
      | inl at ↦ absurd (differ e (equal_to r.condition_id c at))
      | inr off ↦ rw (e, off) (find-filter records)
    ]
  ]
    where
      differ : {d : String} → contains cs d ≡ false → d ≡ c → ⊥
      differ e p = cc

  status_for-filter :
      (records : List (EvidenceRecord V))
      → status_for (filter (λ r. contains cs r.condition_id) records) c ≡ status_for records c
  unfolding status_for
  status_for-filter records = rw (status_for, find-filter records) refl

module _ {V : Type 0} (logic : LogicMode) (gate : GateSpec)
    (fits : height gate.requirement ≤ max_eval_depth) where
  evaluate_gate-Agree :
      (a b : List (EvidenceRecord V))
      → Agree (status_for a) (status_for b) (leaves gate.requirement)
      → evaluate_gate logic gate a ≡ evaluate_gate logic gate b
  unfolding evaluate_gate
  evaluate_gate-Agree a b h =
      rw
        (
          eval_tristate_with_trace-value (logic_of logic) (status_for a) on_condition_evaluated
              gate.requirement [] fits,
          eval_tristate_with_trace-value (logic_of logic) (status_for b) on_condition_evaluated
              gate.requirement [] fits,
          value_local (logic_of logic) (status_for a) (status_for b) gate.requirement h,
          record_local (logic_of logic) (status_for a) (status_for b) on_condition_evaluated
              (leaves gate.requirement) [] h,
        )
        refl

-- The evidence that the engine selects for a gate decides it as the whole evidence does, with the
-- same trace, in either logic mode and for a requirement within the depth limit: no condition of the
-- gate is lost, and no other evidence has a say.
pub evaluate_gate-evidence_for_gate :
    {V : Type 0} (logic : LogicMode) (gate : GateSpec) (records : List (EvidenceRecord V))
    → height gate.requirement ≤ max_eval_depth
    → evaluate_gate logic gate (evidence_for_gate records gate) ≡ evaluate_gate logic gate records
unfolding evidence_for_gate collect_conditions
evaluate_gate-evidence_for_gate logic gate records fits =
    evaluate_gate-Agree logic gate fits _ records (
      All-map (λ c known. status_for-filter (collect_conditions gate.requirement) c known records)
        (leaves gate.requirement) (collected gate.requirement []))

-- A gate's verdict can only become more settled with more settled evidence: where the second
-- evidence keeps every status that the first has settled, the second verdict keeps the first's.
pub evaluate_gate-⊑ :
    {V : Type 0} (logic : LogicMode) (gate : GateSpec) (a b : List (EvidenceRecord V))
    → ((c : String) → status_for a c ⊑ status_for b c)
    → (evaluate_gate logic gate a).status ⊑ (evaluate_gate logic gate b).status
unfolding evaluate_gate
evaluate_gate-⊑ logic gate a b h =
    eval_tristate_with_trace-⊑ logic (status_for a) (status_for b) on_condition_evaluated
      gate.requirement [] [] h
