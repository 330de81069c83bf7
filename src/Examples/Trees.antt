-- ===== src/Examples/Trees.antt =====
-- Requirement trees, gates, evidence and comparators at concrete inputs.
use decision_gate.Prelude.{
  ℕ, ◌+◌, ◌<◌, ◌&&◌, ltb, nat_beq, ◌≤◌, ◌≡◌, refl, ◌==◌, string_eq, String, List, [], ◌∷◌, ◌++◌,
  Bool, some, arith, All,
}
use decision_gate.RetLogic.TriState.{
  TriState, kleene, bochvar, from_bool, kleene_logic, bochvar_logic, logic_of, tri_not,
}
use decision_gate.RetLogic.TriState.Order.{◌⊑◌}
use decision_gate.RetLogic.Requirement.{
  Requirement, or, not, require_group, condition, nil, cons, max_eval_depth,
}
use decision_gate.RetLogic.Requirement.Shape.{height, holds, leaves}
use decision_gate.RetLogic.Requirement.Eval.{eval}
use decision_gate.RetLogic.Requirement.Eval.Correct.{eval-holds}
use Prim.Native.Nat.{min}
use decision_gate.RetLogic.Requirement.Block.{default_block, eval_block}
use decision_gate.RetLogic.Requirement.Block.Correct.{eval_block-eval}
use decision_gate.Prelude.{◌↔◌}
use decision_gate.Prelude.{Bool-cases, inl, inr, sym, false}
use decision_gate.Prelude.Action.{◌>>=◌}
use decision_gate.Prelude.Distinct.{equal_to}
use mathlib.Core.Path.{subst}
use decision_gate.Prelude.Outcome.{ok}
use decision_gate.RetLogic.Requirement.Eval.{eval_with_depth}
use decision_gate.RetLogic.Serde.{default_config, validate, validate_depth, validate_structure}
use decision_gate.RetLogic.Serde.Accepted.{IsSound, accepted_iff, validate-eval_with_depth}
use decision_gate.RetLogic.Requirement.Tri.{
  eval_tristate, eval_tristate_with_trace, eval_tristate_with_depth,
}
use decision_gate.RetLogic.Requirement.Tri.Known.{eval_tristate-eval}
use decision_gate.RetLogic.Requirement.Tri.Meaning.{
  value, record_all, eval_tristate_with_trace-value, eval_tristate-too_deep,
}
use decision_gate.RetLogic.Requirement.Tri.Monotone.{eval_tristate-⊑, bochvar-⊑-kleene}
use decision_gate.RetLogic.Requirement.Trivial.{is_trivially_satisfied}
use decision_gate.RetLogic.Requirement.Trivial.Sound.{
  is_trivially_satisfied-eval, is_trivially_unsatisfiable-eval,
}
use decision_gate.Core.Evidence.{greater_than, less_than_or_equal, verified, TrustRequirement}
use decision_gate.Core.State.{EvidenceRecord}
use decision_gate.Runtime.Comparator.{evaluate_comparator}
use decision_gate.Runtime.Comparator.Complement.{above, evaluate_comparator-Complementary}
use decision_gate.Runtime.Gate.{evaluate_gate, status_for}
use decision_gate.Runtime.Gate.Relevant.{evaluate_gate-evidence_for_gate, evaluate_gate-⊑}
use decision_gate.Runtime.Engine.Helpers.{evidence_for_gate}
use decision_gate.Runtime.Engine.Evidence.{adjusted_evidence}
use decision_gate.Runtime.Engine.Evidence.Trust.{Trusted, adjusted_evidence-Trusted}
use decision_gate.Examples.Plane.{numbers, one_verified, ready_gate}

-- Two of three, with a negation below.
abbrev quorum : Requirement String
quorum =
    require_group 2
      (cons (condition "a") (cons (not (condition "b")) (cons (or (cons (condition "c") nil)) nil)))

quorum-height : height quorum ≤ max_eval_depth
unfolding height
quorum-height = omega arith

abbrev only_a : String → Bool
only_a c = c == "a"

eval-holds_example : eval only_a quorum ≡ holds only_a quorum
eval-holds_example = eval-holds only_a quorum quorum-height

-- Three rows from row 1 on: the second is 2.
abbrev counted_row : String → ℕ → Bool
counted_row c j = (c == "a") && nat_beq j 2

default_block-row :
    (f : ℕ → Bool) (start n j : ℕ) → j < min n 64 → default_block f start n j ≡ f (start + j)
default_block-row f start n j l = ground (arith, l)

abbrev kernel : String → ℕ → ℕ → Bool
kernel c = default_block (counted_row c) 1

eval_block-eval_example :
    eval_block kernel quorum 3 1 ≡ (ltb 1 (min 3 64) && eval (λ c. counted_row c 2) quorum)
unfolding height
eval_block-eval_example =
    eval_block-eval kernel counted_row quorum 3 1 1
      (λ c n j l. default_block-row (counted_row c) 1 n j l) quorum-height
      ((omega arith), (tt, (tt, ((tt, tt), tt))))

accepted_iff_example :
    validate default_config quorum ≡ ok tt
    ↔ ((height quorum ≤ default_config.max_depth) × IsSound default_config quorum)
accepted_iff_example = accepted_iff default_config quorum

quorum-validate : validate default_config quorum ≡ ok tt
unfolding validate validate_depth default_config validate_structure
quorum-validate = refl

validate-eval_with_depth_example :
    eval_with_depth only_a quorum 0 max_eval_depth ≡ ok (holds only_a quorum)
validate-eval_with_depth_example = validate-eval_with_depth only_a quorum quorum-validate

eval_tristate-eval_example :
    eval_tristate (logic_of bochvar) (λ c. from_bool (only_a c)) quorum
    ≡ from_bool (eval only_a quorum)
eval_tristate-eval_example = eval_tristate-eval bochvar only_a quorum quorum-height

abbrev nothing : String → TriState
nothing c = TriState.unknown

abbrev known_a : String → TriState
known_a c = from_bool (c == "a")

-- What is known of `a` and of `b`, and of no other condition.
settled : (is_a is_b : Bool) → TriState
settled Bool.true is_b = TriState.true
settled Bool.false Bool.true = TriState.false
settled Bool.false Bool.false = TriState.unknown

settled-⊑ : (is_a is_b : Bool) → settled is_a is_b ⊑ from_bool is_a
unfolding settled
settled-⊑ Bool.true is_b = refl
settled-⊑ Bool.false Bool.true = refl
settled-⊑ Bool.false Bool.false = tt

abbrev partly : String → TriState
partly c = settled (c == "a") (c == "b")

-- The two conditions that are settled are enough for the quorum.
partly-quorum : eval_tristate (logic_of kleene) partly quorum ≡ TriState.true
unfolding settled eval_tristate eval_tristate_with_depth eval_tristate_with_trace ◌>>=◌
    decision_gate.RetLogic.TriState.require_group
partly-quorum = refl

eval_tristate-⊑_example :
    eval_tristate (logic_of kleene) partly quorum ⊑ eval_tristate (logic_of kleene) known_a quorum
eval_tristate-⊑_example =
    eval_tristate-⊑ kleene partly known_a quorum (λ c. settled-⊑ (c == "a") (c == "b"))

bochvar-⊑-kleene_example :
    eval_tristate bochvar_logic known_a quorum ⊑ eval_tristate kleene_logic known_a quorum
bochvar-⊑-kleene_example = bochvar-⊑-kleene known_a quorum

abbrev push : String → TriState → List (String × TriState) → List (String × TriState)
push c v trace = trace ++ (c, v) ∷ []

eval_tristate_with_trace-value_example :
    eval_tristate_with_trace kleene_logic known_a push quorum []
    ≡ (value kleene_logic known_a quorum, record_all known_a push (leaves quorum) [])
eval_tristate_with_trace-value_example =
    eval_tristate_with_trace-value kleene_logic known_a push quorum [] quorum-height

negated : ℕ → Requirement String
negated ℕ.zero = condition "a"
negated (ℕ.suc n) = not (negated n)

eval_tristate-too_deep_example : eval_tristate kleene_logic known_a (negated 33) ≡ TriState.unknown
eval_tristate-too_deep_example =
    eval_tristate-too_deep kleene_logic known_a (negated 33) (unfold height negated in omega arith)

-- A group that asks for nothing beside a condition.
abbrev open_door : Requirement String
open_door = or (cons (condition "a") (cons (require_group 0 (cons (condition "b") nil)) nil))

is_trivially_satisfied-eval_example : eval_tristate kleene_logic nothing open_door ≡ TriState.true
is_trivially_satisfied-eval_example =
    is_trivially_satisfied-eval nothing open_door (unfold height in omega arith)
      (unfold is_trivially_satisfied in refl)

is_trivially_unsatisfiable-eval_example :
    eval_tristate kleene_logic nothing (not open_door) ≡ TriState.false
is_trivially_unsatisfiable-eval_example =
    is_trivially_unsatisfiable-eval nothing (not open_door) (unfold height in omega arith)
      (unfold is_trivially_satisfied in refl)

abbrev evidence_of : String → TriState → EvidenceRecord ℕ
evidence_of c v = record { condition_id = c; status = v; result = one_verified }

abbrev mixed : List (EvidenceRecord ℕ)
mixed = evidence_of "other" TriState.false ∷ evidence_of "ready" TriState.true ∷ []

evaluate_gate-evidence_for_gate_example :
    evaluate_gate kleene ready_gate (evidence_for_gate mixed ready_gate)
    ≡ evaluate_gate kleene ready_gate mixed
evaluate_gate-evidence_for_gate_example =
    evaluate_gate-evidence_for_gate kleene ready_gate mixed (unfold height in omega arith)

-- The record of `ready` alone, which settles the gate.
abbrev ready_only : List (EvidenceRecord ℕ)
ready_only = evidence_of "ready" TriState.true ∷ []

unready : (c : String) → ("ready" == c) ≡ false → status_for ready_only c ≡ TriState.unknown
unfolding status_for
unready c h = rw (status_for, h) refl

ready_only-mixed : (c : String) → status_for ready_only c ⊑ status_for mixed c
unfolding status_for
ready_only-mixed c = elim (Bool-cases ("ready" == c)) [
  | inl is_ready ↦
      subst (λ d. status_for ready_only d ⊑ status_for mixed d) (equal_to "ready" c is_ready) refl
  | inr no_ready ↦ subst (λ v. v ⊑ status_for mixed c) (sym (unready c no_ready)) tt
]

ready_only-gate : (evaluate_gate kleene ready_gate ready_only).status ≡ TriState.true
unfolding evaluate_gate status_for eval_tristate_with_trace eval_tristate_with_depth ◌>>=◌
ready_only-gate = refl

evaluate_gate-⊑_example :
    (evaluate_gate kleene ready_gate ready_only).status
    ⊑ (evaluate_gate kleene ready_gate mixed).status
evaluate_gate-⊑_example = evaluate_gate-⊑ kleene ready_gate ready_only mixed ready_only-mixed

evaluate_comparator-Complementary_example :
    evaluate_comparator numbers less_than_or_equal (some 5) one_verified
    ≡ tri_not (evaluate_comparator numbers greater_than (some 5) one_verified)
evaluate_comparator-Complementary_example =
    evaluate_comparator-Complementary numbers greater_than less_than_or_equal (some 5) one_verified
      above

abbrev at_least_verified : TrustRequirement
at_least_verified = record { min_lane = verified }

adjusted_evidence-Trusted_example :
    All
      (Trusted at_least_verified [] ready_gate)
      (adjusted_evidence at_least_verified [] mixed ready_gate)
adjusted_evidence-Trusted_example = adjusted_evidence-Trusted at_least_verified [] mixed ready_gate
