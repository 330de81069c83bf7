-- ===== src/Runtime/Engine/Helpers/Stages.antt =====
-- crates/decision-gate-core/src/runtime/engine.rs: the stages and conditions of a validated
-- specification, as the helpers look them up.
use mathlib.Core.Path.{subst}
use decision_gate.Prelude.{
  ℕ, zero, suc, ◌+◌, ◌≡◌, refl, String, List, [], ◌∷◌, ◌++◌, map, Option, none, some, Bool, true,
  false, ◌||◌, Bool-cases, inl, inr, find, position, get_elem?, ◌==◌, string_eq, All,
}
use decision_gate.Prelude.Distinct.{same, equal_to}
use decision_gate.Prelude.Outcome.{Outcome, ok, ok_or, bind-eq-ok, ok-injective}
use decision_gate.RetLogic.TriState.{TriState}
use decision_gate.Core.Spec.{
  ScenarioSpec, StageSpec, AdvanceTo, linear, fixed, branch, terminal, BranchRule,
}
use decision_gate.Core.Spec.Validate.{stage_ids, targets, default_target}
use decision_gate.Core.Spec.Validate.Resolve.{Known}
use decision_gate.Core.Spec.Validate.Valid.{IsValid}
use decision_gate.Core.State.{RunState}
use decision_gate.Runtime.Engine.Types.{stage_not_found}
use decision_gate.Runtime.Engine.Helpers.{
  stage_spec, resolve_next_stage, advance_target, choose_branch, outcome_of, gate_outcome_matches,
  stage_id_of,
}

some-injective {ℓ} : {A : Type ℓ} (a b : A) → some a ≡ some b → a ≡ b
some-injective a b h = cc

or_right : (b : Bool) {c : Bool} → c ≡ true → (b || c) ≡ true
or_right true h = refl
or_right false h = h

ok_some :
    {E A : Type 0} (a b : A) → ◌≡◌ {A = Outcome E (Option A)} (ok (some a)) (ok (some b)) → a ≡ b
ok_some a b h = cc

pub All-find {ℓ} :
    {A : Type ℓ} (P : A → Type 0) (p : A → Bool) (xs : List A) (a : A)
    → find p xs ≡ some a
    → All P xs
    → P a
All-find P p [] a h k = cc
All-find P p (x ∷ xs) a h k = elim (Bool-cases (p x)) [
  | inl e ↦ subst P (some-injective x a (rw e at h)) k.0
  | inr e ↦ All-find P p xs a (rw e at h) k.1
]

module _ {ℓ} {A : Type ℓ} (id : A → String) where
  -- What an identifier of the list finds.
  pub find-Known :
      (xs : List A) (x : String)
      → Known (map id xs) x
      → (a : A) × (find (λ a. id a == x) xs ≡ some a) × (id a ≡ x)
  find-Known [] x h = cc
  find-Known (a ∷ xs) x h = elim (Bool-cases (id a == x)) [
    | inl e ↦ rw e (a, refl, equal_to (id a) x e)
    | inr e ↦ rw e (find-Known xs x (rw e at h))
  ]

  pub Known-get_elem? :
      (xs : List A) (i : ℕ) (a : A) → get_elem? xs i ≡ some a → Known (map id xs) (id a)
  Known-get_elem? [] i a h = cc
  Known-get_elem? (x ∷ xs) zero a h = rw (some-injective x a h, same (id a)) refl
  Known-get_elem? (x ∷ xs) (suc i) a h = or_right (id x == id a) (Known-get_elem? xs i a h)

choose_branch-Known :
    (ids : List String) (outcomes : List (String × TriState)) (rules : List BranchRule)
    (default : Option String) (next : String)
    → All (Known ids) (map (λ rule. rule.next_stage_id) rules ++ default_target default)
    → choose_branch outcomes rules default ≡ ok (some next)
    → Known ids next
unfolding choose_branch
choose_branch-Known ids outcomes [] none next k h = cc
choose_branch-Known ids outcomes [] (some default) next k h =
    subst (Known ids) (ok_some default next h) k.0
choose_branch-Known ids outcomes (rule ∷ rules) default next k h =
    elim (Bool-cases (gate_outcome_matches (outcome_of outcomes rule.gate_id) rule.outcome)) [
      | inl e ↦ subst (Known ids) (ok_some rule.next_stage_id next (rw e at h)) k.0
      | inr e ↦ choose_branch-Known ids outcomes rules default next k.1 (rw e at h)
    ]

module _ {V : Type 0} where
  pub stage_spec-Known :
      (spec : ScenarioSpec V) (x : String)
      → Known (stage_ids spec) x
      → (stage : StageSpec V) × (stage_spec spec x ≡ ok stage)
  unfolding stage_spec
  stage_spec-Known spec x h =
      let (stage, e, _) = find-Known (λ s. s.stage_id) spec.stages x h in (stage, rw e refl)

  linear-Known :
      (stages : List (StageSpec V)) (i : ℕ) (next : String)
      → stage_id_of (get_elem? stages i) ≡ some next
      → Known (map (λ s. s.stage_id) stages) next
  linear-Known stages i next h = at_index (get_elem? stages i) refl h
    where
      at_index :
          (o : Option (StageSpec V))
          → get_elem? stages i ≡ o
          → stage_id_of o ≡ some next
          → Known (map (λ s. s.stage_id) stages) next
      at_index none e h = cc
      at_index (some stage) e h =
          subst (Known (map (λ s. s.stage_id) stages)) (some-injective stage.stage_id next h)
            (Known-get_elem? (λ s. s.stage_id) stages i stage e)

  advance_target-Known :
      (target : AdvanceTo) (spec : ScenarioSpec V) (stage : StageSpec V)
      (outcomes : List (String × TriState)) (next : String)
      → All (Known (stage_ids spec)) (targets target)
      → advance_target target spec stage outcomes ≡ ok (some next)
      → Known (stage_ids spec) next
  advance_target-Known linear spec stage outcomes next k h =
      let (index, _, e) =
        bind-eq-ok
          (ok_or (position (λ s. s.stage_id == stage.stage_id) spec.stages)
            (stage_not_found stage.stage_id))
          _ h in
      linear-Known spec.stages (index + 1) next (ok-injective _ (some next) e)
  advance_target-Known (fixed stage_id) spec stage outcomes next k h =
      subst (Known (stage_ids spec)) (ok_some stage_id next h) k.0
  advance_target-Known (branch branches default) spec stage outcomes next k h =
      choose_branch-Known (stage_ids spec) outcomes branches default next k h
  advance_target-Known terminal spec stage outcomes next k h = cc

  pub stage_spec-All :
      (P : StageSpec V → Type 0) (spec : ScenarioSpec V) (x : String) (stage : StageSpec V)
      → stage_spec spec x ≡ ok stage
      → All P spec.stages
      → P stage
  unfolding stage_spec
  stage_spec-All P spec x stage h k = found (find (λ s. s.stage_id == x) spec.stages) refl h
    where
      found :
          (o : Option (StageSpec V))
          → find (λ s. s.stage_id == x) spec.stages ≡ o
          → ok_or o (stage_not_found x) ≡ ok stage
          → P stage
      found none e h = cc
      found (some s) e h =
          subst P (ok-injective s stage h) (All-find P (λ s. s.stage_id == x) spec.stages s e k)

  -- In a valid specification, the next stage of a stage that can be looked up can be looked up too,
  -- whichever outcomes the gates have.
  pub resolve_next_stage-Known :
      (spec : ScenarioSpec V) (x : String) (stage : StageSpec V)
      (outcomes : List (String × TriState)) (state : RunState V) (next : String)
      → IsValid spec
      → stage_spec spec x ≡ ok stage
      → resolve_next_stage spec stage outcomes state ≡ ok (some next)
      → Known (stage_ids spec) next
  unfolding resolve_next_stage
  resolve_next_stage-Known spec x stage outcomes state next v h e =
      advance_target-Known stage.advance_to spec stage outcomes next
        (stage_spec-All (λ s. All (Known (stage_ids spec)) (targets s.advance_to)) spec x stage h
          v.next_stages)
        e
