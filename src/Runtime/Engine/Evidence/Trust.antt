-- ===== src/Runtime/Engine/Evidence/Trust.antt =====
-- crates/decision-gate-core/src/runtime/engine.rs: trust lanes in `evaluate_stage_gates`.
use Prim.Native.Nat.{Ordering}
use decision_gate.Prelude.{
  ◌≡◌, refl, sym, ◌∙◌, ap, String, List, [], ◌∷◌, map, Bool, true, ◌&&◌, Bool-cases, inl, inr, ◌⊎◌,
  All, arith,
}
use decision_gate.Prelude.Sorting.{insert, sort_by}
use decision_gate.RetLogic.TriState.{TriState}
use decision_gate.Core.Evidence.{TrustLane, TrustRequirement, satisfies, stricter}
use decision_gate.Core.Spec.{GateSpec}
use decision_gate.Core.State.{EvidenceRecord}
use decision_gate.Runtime.Engine.Types.{get}
use decision_gate.Runtime.Engine.Helpers.{evidence_for_gate}
use decision_gate.Runtime.Engine.Evidence.{
  apply_trust_requirement, effective_requirement, adjusted_evidence, or_default,
}

-- The stricter of two requirements is met exactly where both are.
satisfies-stricter :
    (lane : TrustLane) (a b : TrustRequirement)
    → satisfies lane (stricter a b) ≡ (satisfies lane a && satisfies lane b)
unfolding satisfies stricter
satisfies-stricter lane a b = ground arith

met :
    (lane : TrustLane) (a b c : TrustRequirement)
    → satisfies lane (stricter a (stricter b c)) ≡ true
    → (satisfies lane b ≡ true) × (satisfies lane c ≡ true) × (satisfies lane a ≡ true)
met lane a b c h = both (satisfies lane a) (satisfies lane b) (satisfies lane c) (
    sym (
      satisfies-stricter lane a (stricter b c)
      ∙ ap (λ x. satisfies lane a && x) (satisfies-stricter lane b c))
    ∙ h)
  where
    both : (x y z : Bool) → (x && (y && z)) ≡ true → (y ≡ true) × (z ≡ true) × (x ≡ true)
    both x y z h = ground arith

module _ {V : Type 0} where
  -- A record has no say, or its lane meets the default requirement of the engine, that of the gate
  -- and that of the condition.
  abbrev pub Trusted :
      TrustRequirement → List (String × TrustRequirement) → GateSpec → EvidenceRecord V → Type 0
  Trusted default requirements gate r =
      (r.status ≡ TriState.unknown)
      ⊎ ((satisfies r.result.lane default ≡ true)
          × (satisfies r.result.lane (or_default gate.trust default) ≡ true)
          × (satisfies r.result.lane (or_default (get r.condition_id requirements) default) ≡ true))

  apply-Trusted :
      (default : TrustRequirement) (requirements : List (String × TrustRequirement))
      (gate : GateSpec) (r : EvidenceRecord V)
      → Trusted default requirements gate
          (apply_trust_requirement r (effective_requirement default requirements gate r))
  unfolding apply_trust_requirement effective_requirement
  apply-Trusted default requirements gate r =
      elim (Bool-cases
        (satisfies r.result.lane (effective_requirement default requirements gate r))) [
          | inl enough ↦ rw enough (inr (met r.result.lane _ default _ enough))
          | inr short ↦ rw short (inl refl)
        ]

All-insert :
    {A : Type 0} (P : A → Type 0) (cmp : A → A → Ordering) (x : A) (xs : List A)
    → P x
    → All P xs
    → All P (insert cmp x xs)
unfolding insert
All-insert P cmp x [] p h = (p, tt)
All-insert P cmp x (y ∷ ys) p h = placed (All-insert P cmp x ys p h.1) (cmp x y)
  where
    placed :
        All P (insert cmp x ys)
        → (o : Ordering) → All P (elim o [ Ordering.gt ↦ y ∷ insert cmp x ys | _ ↦ x ∷ y ∷ ys ])
    placed rest Ordering.gt = (h.0, rest)
    placed rest Ordering.lt = (p, h)
    placed rest Ordering.eq = (p, h)

All-sort_by :
    {A : Type 0} (P : A → Type 0) (cmp : A → A → Ordering) (xs : List A)
    → All P xs
    → All P (sort_by cmp xs)
unfolding sort_by
All-sort_by P cmp [] h = tt
All-sort_by P cmp (x ∷ xs) h = All-insert P cmp x (sort_by cmp xs) h.0 (All-sort_by P cmp xs h.1)

All-image :
    {A B : Type 0} (P : B → Type 0) (f : A → B)
    → ((a : A) → P (f a))
    → (xs : List A) → All P (map f xs)
All-image P f h [] = tt
All-image P f h (x ∷ xs) = (h x, All-image P f h xs)

-- A gate counts no evidence from a lane that the engine's default, the gate itself or the condition
-- refuses: in the evidence that decides the gate such a record is unknown.
pub adjusted_evidence-Trusted :
    {V : Type 0} (default : TrustRequirement) (requirements : List (String × TrustRequirement))
    (records : List (EvidenceRecord V)) (gate : GateSpec)
    → All (Trusted default requirements gate) (adjusted_evidence default requirements records gate)
unfolding adjusted_evidence
adjusted_evidence-Trusted default requirements records gate = All-sort_by _ _ _ (
    All-image (Trusted default requirements gate) _ (apply-Trusted default requirements gate)
      (evidence_for_gate records gate))
