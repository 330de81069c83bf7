-- ===== src/Examples/Operations.antt =====
-- The start of a run with its initial dispatch, a precheck, and a deadline.
use mathlib.Core.List.{Permᴰ, ◌++◌}
use decision_gate.Prelude.{ℕ, ◌≡◌, refl, List, [], ◌∷◌, map, none, true, arith}
use decision_gate.Prelude.Outcome.{Outcome, ok, err}
use decision_gate.Prelude.Action.{◌>>=◌}
use decision_gate.Prelude.Decimal.{to_string}
use decision_gate.RetLogic.TriState.{TriState, kleene}
use decision_gate.Core.Time.{logical}
use decision_gate.Core.Hashing.{sha256, new, hash_bytes, hash_canonical_json}
use decision_gate.Core.Hashing.Hex.{hex_encode}
use decision_gate.Core.Evidence.{verified, TrustRequirement}
use decision_gate.Core.Disclosure.{agent}
use decision_gate.Core.Spec.{ConditionSpec, StageSpec}
use decision_gate.Runtime.Engine.Api.Stages.{Reachable-Located}
use decision_gate.Prelude.Distinct.{Distinct}
use decision_gate.Examples.Specs.{accepted}
use decision_gate.Core.State.{RunConfig, RunState, EvidenceRecord, start}
use decision_gate.Runtime.Engine.Types.{ControlPlaneError, ControlPlane, deterministic_shuffle}
use decision_gate.Runtime.Engine.Helpers.{next_seq, stage_spec, timeout_expired}
use decision_gate.Runtime.Engine.Helpers.Timeout.{timeout_expired-Later}
use decision_gate.Runtime.Engine.Evidence.{evaluate_gates}
use decision_gate.Runtime.Engine.Trigger.{Decided, decide_from_gate_evals, decision_for}
use decision_gate.Runtime.Engine.Trigger.Conditions.{reorder_condition_specs}
use decision_gate.Runtime.Engine.Trigger.Order.{reorder_condition_specs-Perm}
use decision_gate.Runtime.Engine.Trigger.Packets.{
  dispatch_to, dispatch_packet, build_packet_envelope, issue_packets, issue_stage_packets,
}
use decision_gate.Runtime.Engine.Api.{initial_state, dispatch_first, start_run}
use decision_gate.Runtime.Engine.Api.Reachable.{started, logged, Reachable-Distinct}
use decision_gate.Runtime.Engine.Api.Start.{Started, start_run-Started}
use decision_gate.Examples.Plane.{numbers, plane, fresh, poke, scenario, intake, one_verified}

timeout_expired-Later_example : timeout_expired (logical 0) (logical 30) 10 ≡ ok true
timeout_expired-Later_example =
    timeout_expired-Later (logical 0) (logical 12) (logical 30) 10 (unfold timeout_expired in refl)
      (omega arith)

abbrev alice : RunConfig
alice = record {
  tenant_id = 1;
  namespace_id = 1;
  run_id = "run-2";
  scenario_id = "onboarding";
  dispatch_targets = agent "alice" ∷ [];
  policy_tags = [];
}

abbrev state_of : Outcome ControlPlaneError (RunState ℕ) → RunState ℕ
state_of (ok s) = s
state_of (err e) = fresh

abbrev begun : RunState ℕ
begun = state_of (start_run numbers plane alice (logical 3) true 0).0

begun_ok : (start_run numbers plane alice (logical 3) true 0).0 ≡ ok begun
unfolding start_run ◌>>=◌ initial_state dispatch_first next_seq to_string stage_spec
    issue_stage_packets issue_packets dispatch_packet dispatch_to build_packet_envelope
    hash_canonical_json hash_bytes new hex_encode
begun_ok = refl

start_run-Started_example : Started numbers plane alice begun
start_run-Started_example = start_run-Started numbers plane alice (logical 3) true 0 begun begun_ok

abbrev any_lane : TrustRequirement
any_lane = record { min_lane = verified }

abbrev evidence : List (EvidenceRecord ℕ)
evidence = record { condition_id = "ready"; status = TriState.true; result = one_verified } ∷ []

abbrev decided_of : Outcome ControlPlaneError (Decided numbers plane) → Decided numbers plane
decided_of (ok x) = x
decided_of (err e) = (fresh, decision_for fresh poke 0 (start "intake"), [])

abbrev decided : Decided numbers plane
decided =
    decided_of
      (decide_from_gate_evals numbers plane fresh poke intake
        (evaluate_gates kleene any_lane [] evidence "poke" "intake" intake.gates) 0).0

abbrev begun_again : RunState ℕ
begun_again = record begun { submissions = []; tool_calls = [] }

Reachable-Distinct_example : Distinct (map (λ d. d.decision_id) begun_again.decisions)
Reachable-Distinct_example =
    Reachable-Distinct numbers plane begun_again
      (logged begun [] [] (started alice (logical 3) true 0 begun begun_ok))

abbrev two_conditions : List (ConditionSpec ℕ)
two_conditions = scenario.conditions ++ scenario.conditions

reorder_condition_specs-Perm_example :
    Permᴰ
      (reorder_condition_specs
        (ControlPlane.codec plane)
        two_conditions
        (deterministic_shuffle 7)
        sha256)
      two_conditions
reorder_condition_specs-Perm_example =
    reorder_condition_specs-Perm (ControlPlane.codec plane) two_conditions (deterministic_shuffle 7)
      sha256

Reachable-Located_example :
    (stage : StageSpec ℕ) × (stage_spec (ControlPlane.spec plane) begun_again.current_stage_id
      ≡ ok stage)
Reachable-Located_example =
    Reachable-Located numbers scenario (ControlPlane.evidence plane) (ControlPlane.dispatcher plane)
      (ControlPlane.store plane) none (ControlPlane.config plane) (ControlPlane.codec plane)
      (λ e. "error") (λ e. "hash error") plane begun_again
      (unfold decision_gate.Runtime.Engine.Construct.new in rw accepted refl)
      (logged begun [] [] (started alice (logical 3) true 0 begun begun_ok))
