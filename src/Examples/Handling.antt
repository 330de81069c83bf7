-- ===== src/Examples/Handling.antt =====
-- One trigger in the scenario of two stages, and its second delivery.
use decision_gate.Prelude.{sym, ◌∙◌, ℕ, ◌≡◌, refl, [], none, false}
use decision_gate.Prelude.Outcome.{Outcome, ok, err}
use decision_gate.Prelude.Action.{◌>>=◌}
use decision_gate.Prelude.Decimal.{to_string, read}
use decision_gate.Prelude.Sorting.{insert, sort_by}
use decision_gate.Core.Time.{logical}
use decision_gate.Core.Hashing.{new, hash_bytes, hash_canonical_json_with_limit}
use decision_gate.Core.Hashing.Hex.{hex_encode}
use decision_gate.Core.Evidence.{satisfies, stricter, requirement_for}
use decision_gate.Core.State.{RunState, TriggerEvent, completed, active, start, advance, complete}
use decision_gate.RetLogic.Requirement.Tri.{eval_tristate_with_trace, eval_tristate_with_depth}
use decision_gate.Runtime.Comparator.{evaluate_comparator, evaluate_json_comparator, compare_equals}
use decision_gate.Runtime.Comparator.Text.{string_cmp}
use decision_gate.Runtime.Gate.{
  status_for, on_condition_evaluated, evaluate_gate, collect_conditions, collect_conditions_inner,
}
use decision_gate.Runtime.Engine.Types.{
  ControlPlaneError, EvaluationResult, trust_requirement_for_provider,
}
use decision_gate.Runtime.Engine.Helpers.{
  next_seq, stage_spec, condition_specs, evidence_for_gate, existing_trigger_result, record_trigger,
  build_evidence_context, gates_passed, resolve_next_stage,
}
use decision_gate.Runtime.Engine.Evidence.{
  apply_trust_requirement, build_condition_requirements, effective_requirement, adjusted_evidence,
  evaluate_gates, gate_outcomes, payload_hash, normalize_evidence_result,
}
use decision_gate.Runtime.Engine.Trigger.{
  decide_from_gate_evals, recorded, handle_timeout, evaluate_stage_gates, handle_new_trigger,
  handle_trigger_internal,
}
use decision_gate.Runtime.Engine.Trigger.Conditions.{
  reorder_condition_specs, screened, evidence_record, evaluate_conditions,
}
use decision_gate.Runtime.Engine.Trigger.Packets.{
  dispatch_to, dispatch_packet, build_packet_envelope, issue_packets, issue_stage_packets,
}
use decision_gate.Runtime.Engine.Trigger.Progress.{Progress}
use decision_gate.Runtime.Engine.Trigger.Logs.{IsWellFormed}
use decision_gate.Runtime.Engine.Trigger.Replay.{
  handle_trigger_internal-replay, handle_trigger_internal-inactive,
  handle_trigger_internal-IsWellFormed,
}
use decision_gate.Runtime.Engine.Trigger.Verdict.{Verdict, handle_new_trigger-Verdict}
use decision_gate.Examples.Plane.{numbers, plane, fresh, poke}

not_completed : completed ≡ active → ⊥
not_completed e = cc

fresh-IsWellFormed : IsWellFormed fresh
fresh-IsWellFormed = record { numbered = tt; issued = tt }

abbrev no_result : EvaluationResult ℕ
no_result = record {
  decision = record {
    decision_id = "";
    seq = 0;
    trigger_id = "";
    stage_id = "";
    decided_at = logical 0;
    outcome = start "";
    correlation_id = none;
  };
  packets = [];
  status = active;
}

abbrev reached :
    Outcome ControlPlaneError (RunState ℕ × EvaluationResult ℕ) → RunState ℕ × EvaluationResult ℕ
reached (ok x) = x
reached (err e) = (fresh, no_result)

-- The state and the result after the trigger.
abbrev after : RunState ℕ × EvaluationResult ℕ
after = reached (handle_new_trigger numbers plane fresh poke 0).0

-- The first stage asks for no packet, so the run enters `review`, which dispatches one.
after-advance :
    (after.1.decision.outcome ≡ advance "intake" "review" false)
    × ((handle_new_trigger numbers plane fresh poke 0).0 ≡ ok after)
    × ((handle_new_trigger numbers plane fresh poke 0).1 ≡ 2)
unfolding handle_new_trigger ◌>>=◌ to_string insert sort_by new hash_bytes
    hash_canonical_json_with_limit hex_encode satisfies stricter requirement_for
    eval_tristate_with_trace eval_tristate_with_depth evaluate_comparator evaluate_json_comparator
    compare_equals string_cmp status_for on_condition_evaluated evaluate_gate collect_conditions
    collect_conditions_inner trust_requirement_for_provider next_seq stage_spec condition_specs
    evidence_for_gate record_trigger build_evidence_context gates_passed resolve_next_stage
    apply_trust_requirement build_condition_requirements effective_requirement adjusted_evidence
    evaluate_gates gate_outcomes payload_hash normalize_evidence_result decide_from_gate_evals
    recorded handle_timeout evaluate_stage_gates reorder_condition_specs screened evidence_record
    evaluate_conditions dispatch_to dispatch_packet build_packet_envelope issue_packets
    issue_stage_packets read
after-advance = (refl, refl, refl)

handled : (handle_trigger_internal numbers plane fresh poke 0).0 ≡ ok after
unfolding handle_trigger_internal existing_trigger_result
handled = after-advance.1

handle_new_trigger-Verdict_example :
    Verdict numbers plane fresh poke after.0 after.1.decision.outcome after.1.packets
    × Progress numbers plane fresh poke after.0 after.1
handle_new_trigger-Verdict_example =
    handle_new_trigger-Verdict numbers plane fresh after.0 poke after.1 0 after-advance.1

handle_trigger_internal-replay_example :
    handle_trigger_internal numbers plane after.0 poke 9 ≡ (ok (after.0, after.1), 9)
handle_trigger_internal-replay_example =
    handle_trigger_internal-replay numbers plane fresh after.0 poke after.1 0 fresh-IsWellFormed
      handled 9

handle_trigger_internal-IsWellFormed_example : IsWellFormed after.0
handle_trigger_internal-IsWellFormed_example =
    handle_trigger_internal-IsWellFormed numbers plane fresh after.0 poke after.1 0 handled
      fresh-IsWellFormed

-- A run in the last stage, which the same trigger completes.
abbrev reviewing : RunState ℕ
reviewing = record fresh { current_stage_id = "review" }

abbrev ended : RunState ℕ × EvaluationResult ℕ
ended = reached (handle_new_trigger numbers plane reviewing poke 0).0

ended-complete :
    (ended.1.decision.outcome ≡ complete "review")
    × (ended.0.status ≡ completed)
    × ((handle_trigger_internal numbers plane reviewing poke 0).0 ≡ ok ended)
unfolding handle_trigger_internal existing_trigger_result handle_new_trigger ◌>>=◌ to_string insert
    sort_by new hash_bytes hash_canonical_json_with_limit hex_encode satisfies stricter
    requirement_for eval_tristate_with_trace eval_tristate_with_depth evaluate_comparator
    evaluate_json_comparator compare_equals string_cmp status_for on_condition_evaluated
    evaluate_gate collect_conditions collect_conditions_inner trust_requirement_for_provider
    next_seq stage_spec condition_specs evidence_for_gate record_trigger build_evidence_context
    gates_passed resolve_next_stage apply_trust_requirement build_condition_requirements
    effective_requirement adjusted_evidence evaluate_gates gate_outcomes payload_hash
    normalize_evidence_result decide_from_gate_evals recorded handle_timeout evaluate_stage_gates
    reorder_condition_specs screened evidence_record evaluate_conditions dispatch_to dispatch_packet
    build_packet_envelope issue_packets issue_stage_packets read
ended-complete = (refl, refl, refl)

abbrev other : TriggerEvent ℕ
other = record poke { trigger_id = "other"; run_id = "run-2" }

handle_trigger_internal-inactive_example :
    handle_trigger_internal numbers plane ended.0 other 9 ≡ (ok (ended.0, ended.1), 9)
handle_trigger_internal-inactive_example =
    handle_trigger_internal-inactive numbers plane reviewing ended.0 poke other ended.1 0 9
      (record { numbered = tt; issued = tt }) ended-complete.2
      (λ e. not_completed (sym ended-complete.1 ∙ e))
