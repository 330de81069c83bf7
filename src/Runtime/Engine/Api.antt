-- ===== src/Runtime/Engine/Api.antt =====
-- crates/decision-gate-core/src/runtime/engine.rs: the operations that load a run, work on it, log
-- the tool call and save the run (`start_run`, `scenario_status`, `scenario_next`,
-- `scenario_submit`, `trigger`).
pub mod Start
pub mod Reachable
pub mod Stages
pub mod Stored
pub mod Resubmit
pub mod Restart
use decision_gate.Prelude.{
  ℕ, ◌+◌, String, List, [], ◌∷◌, ◌++◌, map, Option, none, some, Bool, true, false, ◌&&◌, ◌==◌,
  string_eq, nat_eq, nat_beq, length, find, head?, get_last?, if◌then◌else◌,
}
use decision_gate.Prelude.Decimal
use decision_gate.Prelude.Decimal.{to_string}
use decision_gate.Prelude.Outcome.{Outcome, ok, err, ok_or}
use decision_gate.Prelude.Action.{Action, pure, raise, lift, attempt, ◌>>=◌, ◌>>◌}
use decision_gate.Core.Time.{Timestamp}
use decision_gate.Core.Hashing.{HashDigest, HashAlgorithm, sha256, hash_canonical_json}
use decision_gate.Core.Evidence.{ProviderMissingError}
use decision_gate.Core.Disclosure.{PacketPayload, ContentRef}
use decision_gate.Core.State.{
  RunConfig, RunState, active, TriggerEvent, external_event, agent_request_next, DecisionRecord,
  DecisionOutcome, start, hold, SubmissionRecord, SafeSummary, ToolCallRecord, ToolCallError,
  ToolCallErrorDetails,
}
use decision_gate.Runtime.Json.{Json}
use decision_gate.Runtime.Interfaces.{RunStateStore, EvidenceProvider}
use decision_gate.Runtime.Engine.Types.{
  ControlPlane, ControlPlaneError, Document, scenario, status_request, next_request, submit_request,
  trigger_event, scenario_status as status_document, evaluation_result, submit_result, tool_error,
  StatusRequest, NextRequest, SubmitRequest, SubmitResult, EvaluationResult, ScenarioStatus,
  scenario_mismatch, namespace_mismatch, run_already_exists, run_not_found, missing_stages,
  submission_conflict, provider_missing, hash, store, tool_call_hash,
}
use decision_gate.Runtime.Engine.Helpers.{Fallible, next_seq, decision_id_of, call_id_of}
use decision_gate.Runtime.Engine.Evidence.{payload_hash}
use decision_gate.Runtime.Engine.Trigger.{handle_trigger_internal}
use decision_gate.Runtime.Engine.Trigger.Packets.{issue_stage_packets, wrap}

abbrev summary_of : Option DecisionRecord → Option SafeSummary
summary_of none = none
summary_of (some decision) = of_outcome decision.outcome
  where
    of_outcome : DecisionOutcome → Option SafeSummary
    of_outcome (hold summary) = some summary
    of_outcome _ = none

unfoldable pub status_from_state : {V : Type 0} → RunState V → ScenarioStatus
status_from_state state = record {
  run_id = state.run_id;
  scenario_id = state.scenario_id;
  current_stage_id = state.current_stage_id;
  status = state.status;
  last_decision = get_last? state.decisions;
  issued_packet_ids = map (λ packet. packet.envelope.packet_id) state.packets;
  safe_summary = summary_of (get_last? state.decisions);
}

algorithm_beq : HashAlgorithm → HashAlgorithm → Bool
algorithm_beq sha256 sha256 = true

bytes_beq : List ℕ → List ℕ → Bool
bytes_beq [] [] = true
bytes_beq (a ∷ as') (b ∷ bs) = nat_beq a b && bytes_beq as' bs
bytes_beq _ _ = false

option_beq : Option String → Option String → Bool
option_beq none none = true
option_beq (some a) (some b) = a == b
option_beq _ _ = false

content_beq : ContentRef → ContentRef → Bool
unfolding algorithm_beq option_beq
content_beq a b =
    a.uri == b.uri
    && (algorithm_beq a.content_hash.algorithm b.content_hash.algorithm
        && (a.content_hash.value == b.content_hash.value && option_beq a.encryption b.encryption))

module _ (J : Json) where
  open J use {Value, value_eq}

  -- The derived `PartialEq` of payloads.
  unfoldable pub payload_beq : PacketPayload Value → PacketPayload Value → Bool
  unfolding content_beq bytes_beq
  payload_beq (PacketPayload.json a) (PacketPayload.json b) = ◌==◌ ⦃keys = value_eq⦄ a b
  payload_beq (PacketPayload.bytes a) (PacketPayload.bytes b) = bytes_beq a b
  payload_beq (PacketPayload.external a) (PacketPayload.external b) = content_beq a b
  payload_beq _ _ = false

module _ (J : Json) {W : Type 0} (plane : ControlPlane J W) where
  open J use {Value}
  open plane use {spec, config, evidence, codec, hash_error_text}

  abbrev document_hash : Document Value → Fallible HashDigest
  document_hash document = elim (hash_canonical_json codec config.hash_algorithm document) [
    | ok digest ↦ ok digest
    | err e ↦ err (tool_call_hash (hash_error_text e))
  ]

  -- `build_tool_call_record` and `build_tool_call_record_error`, which differ in the last field.
  unfoldable pub build_tool_call_record :
      String
      → Document Value
      → Document Value
      → Timestamp
      → String
      → Option String
      → Option ToolCallError
      → Fallible ToolCallRecord
  build_tool_call_record method request response called_at call_id correlation_id error =
      elim (document_hash request) [
        | err e ↦ err e
        | ok request_hash ↦ elim (document_hash response) [
          | err e ↦ err e
          | ok response_hash ↦ ok (record {
            call_id = call_id;
            method = method;
            request_hash = request_hash;
            response_hash = response_hash;
            called_at = called_at;
            correlation_id = correlation_id;
            error = error;
          })
        ]
      ]

  -- The log entry for a call, and the save, with which every operation ends.
  unfoldable pub log_and_save :
      RunState Value
      → String
      → Document Value
      → Document Value
      → Timestamp
      → Option String
      → Option ToolCallError
      → Action ControlPlaneError W (Unit {0})
  log_and_save state method request response called_at correlation_id error = do
    entry ← lift (
        build_tool_call_record method request response called_at
          (call_id_of (length state.tool_calls + 1)) correlation_id error)
    wrap store (
        RunStateStore.save plane.store
          (record state { tool_calls = state.tool_calls ++ entry ∷ [] }))

  found : String → Option (RunState Value) → Fallible (RunState Value)
  found run_id state = ok_or state (run_not_found run_id)

  unfoldable pub load_run : ℕ → ℕ → String → Action ControlPlaneError W (RunState Value)
  unfolding found
  load_run tenant_id namespace_id run_id = do
    loaded ← wrap store (RunStateStore.load plane.store tenant_id namespace_id run_id)
    lift (found run_id loaded)

  unfoldable pub scenario_status : StatusRequest → Action ControlPlaneError W ScenarioStatus
  unfolding load_run log_and_save
  scenario_status request = do
    state ← load_run request.tenant_id request.namespace_id request.run_id
    let status = status_from_state state
    log_and_save state "scenario.status" (status_request request) (status_document status)
        request.requested_at request.correlation_id none
    pure status

  provider_missing_tool_error : ProviderMissingError → ToolCallError
  provider_missing_tool_error error = record {
    code = "provider_missing";
    message = "required evidence providers are missing or blocked";
    details = some (ToolCallErrorDetails.provider_missing error);
  }

  -- What follows the validation of the providers in `scenario_next` and `trigger`.
  serve_validated :
      Outcome ProviderMissingError (Unit {0})
      → RunState Value
      → TriggerEvent Value
      → String
      → Document Value
      → Action ControlPlaneError W (EvaluationResult Value)
  unfolding log_and_save provider_missing_tool_error
  serve_validated (err missing) state event method request = do
    log_and_save state method request (tool_error (provider_missing_tool_error missing)) event.time
        event.correlation_id (some (provider_missing_tool_error missing))
    raise (provider_missing missing)
  serve_validated (ok _) state event method request = do
    handled ← handle_trigger_internal J plane state event
    log_and_save handled.0 method request (evaluation_result handled.1) event.time
        event.correlation_id none
    pure handled.1

  -- The common body of `scenario_next` and `trigger`.
  serve :
      TriggerEvent Value
      → String
      → Document Value
      → Action ControlPlaneError W (EvaluationResult Value)
  unfolding load_run serve_validated
  serve event method request = do
    state ← load_run event.tenant_id event.namespace_id event.run_id
    validated ← attempt (EvidenceProvider.validate_providers evidence spec)
    serve_validated validated state event method request

  unfoldable pub trigger : TriggerEvent Value → Action ControlPlaneError W (EvaluationResult Value)
  unfolding serve
  trigger event = serve event "scenario.trigger" (trigger_event event)

  unfoldable pub scenario_next : NextRequest → Action ControlPlaneError W (EvaluationResult Value)
  unfolding serve
  scenario_next request =
      serve
        (record {
          trigger_id = request.trigger_id;
          tenant_id = request.tenant_id;
          namespace_id = request.namespace_id;
          run_id = request.run_id;
          kind = agent_request_next;
          time = request.time;
          source_id = request.agent_id;
          payload = none;
          correlation_id = request.correlation_id;
        })
        "scenario.next" (next_request request)

  conflict_error : String → ToolCallError
  conflict_error submission_id = record {
    code = "submission_conflict";
    message = "submission_id conflicts with existing record";
    details = some (ToolCallErrorDetails.message (Decimal.◌++◌ "submission_id=" submission_id));
  }

  submission_of : SubmitRequest Value → HashDigest → SubmissionRecord Value
  submission_of request content_hash = record {
    submission_id = request.submission_id;
    run_id = request.run_id;
    payload = request.payload;
    content_type = request.content_type;
    content_hash = content_hash;
    submitted_at = request.submitted_at;
    correlation_id = request.correlation_id;
  }

  -- The state that a submission leads to, before its tool call is logged, and the answer.
  accept :
      RunState Value
      → SubmitRequest Value
      → SubmissionRecord Value
      → Action ControlPlaneError W (SubmitResult Value)
  unfolding log_and_save
  accept state request submission = do
    log_and_save state "scenario.submit" (submit_request request)
        (submit_result (record { submitted = submission })) request.submitted_at
        request.correlation_id none
    pure (record { submitted = submission })

  refuse : RunState Value → SubmitRequest Value → Action ControlPlaneError W (SubmitResult Value)
  unfolding log_and_save conflict_error
  refuse state request = do
    log_and_save state "scenario.submit" (submit_request request)
        (tool_error (conflict_error request.submission_id)) request.submitted_at
        request.correlation_id (some (conflict_error request.submission_id))
    raise (submission_conflict request.submission_id)

  submit_to :
      Option (SubmissionRecord Value)
      → RunState Value
      → SubmitRequest Value
      → Action ControlPlaneError W (SubmitResult Value)
  unfolding accept refuse submission_of
  submit_to (some existing) state request =
      if existing.content_type == request.content_type
        && payload_beq J existing.payload request.payload
      then accept state request existing
      else refuse state request
  submit_to none state request = do
    content_hash ← lift (payload_hash J plane request.payload)
    let submission = submission_of request content_hash
    accept (record state { submissions = state.submissions ++ submission ∷ [] }) request submission

  unfoldable pub scenario_submit :
      SubmitRequest Value → Action ControlPlaneError W (SubmitResult Value)
  unfolding load_run submit_to
  scenario_submit request = do
    state ← load_run request.tenant_id request.namespace_id request.run_id
    submit_to (find (λ s. s.submission_id == request.submission_id) state.submissions) state request

  -- The first state of a run, before the initial dispatch.
  unfoldable pub initial_state : RunConfig → String → HashDigest → Timestamp → RunState Value
  initial_state run stage_id spec_hash started_at = record {
    tenant_id = run.tenant_id;
    namespace_id = run.namespace_id;
    run_id = run.run_id;
    scenario_id = run.scenario_id;
    spec_hash = spec_hash;
    current_stage_id = stage_id;
    stage_entered_at = started_at;
    status = active;
    dispatch_targets = run.dispatch_targets;
    triggers = [];
    gate_evals = [];
    decisions = [];
    packets = [];
    submissions = [];
    tool_calls = [];
  }

  init_trigger : RunState Value → Timestamp → TriggerEvent Value
  init_trigger state started_at = record {
    trigger_id = "init";
    tenant_id = state.tenant_id;
    namespace_id = state.namespace_id;
    run_id = state.run_id;
    kind = external_event;
    time = started_at;
    source_id = "system";
    payload = none;
    correlation_id = none;
  }

  start_decision : String → ℕ → Timestamp → DecisionRecord
  start_decision stage_id seq started_at = record {
    decision_id = decision_id_of seq;
    seq = seq;
    trigger_id = "init";
    stage_id = stage_id;
    decided_at = started_at;
    outcome = start stage_id;
    correlation_id = none;
  }

  -- The branch `if dispatch_initial`.
  unfoldable pub dispatch_first :
      RunState Value → String → Timestamp → Action ControlPlaneError W (RunState Value)
  unfolding init_trigger start_decision
  dispatch_first state stage_id started_at = do
    trigger_seq ← lift (next_seq state.triggers)
    let triggered = record state {
      triggers =
          state.triggers
          ++ record { seq = trigger_seq; event = init_trigger state started_at } ∷ [];
    }
    decision_seq ← lift (next_seq triggered.decisions)
    let decision = start_decision stage_id decision_seq started_at
    packets ← issue_stage_packets J plane triggered decision stage_id
    pure (record triggered {
      packets = triggered.packets ++ packets;
      decisions = triggered.decisions ++ decision ∷ [];
    })

  first_stage : Fallible String
  first_stage = elim (head? spec.stages) [
    | none ↦ err missing_stages
    | some stage ↦ ok stage.stage_id
  ]

  spec_digest : Fallible HashDigest
  spec_digest = elim (hash_canonical_json codec config.hash_algorithm (scenario spec)) [
    | ok digest ↦ ok digest
    | err e ↦ err (hash e)
  ]

  absent : String → Option (RunState Value) → Fallible (Unit {0})
  absent run_id none = ok tt
  absent run_id (some state) = err (run_already_exists run_id)

  abbrev check : Bool → ControlPlaneError → Fallible (Unit {0})
  check true e = ok tt
  check false e = err e

  unfoldable pub start_run :
      RunConfig → Timestamp → Bool → Action ControlPlaneError W (RunState Value)
  unfolding first_stage spec_digest absent
  start_run run started_at dispatch_initial = do
    lift (check (run.scenario_id == spec.scenario_id) (scenario_mismatch run.scenario_id))
    lift (
        check (run.namespace_id == spec.namespace_id)
          (namespace_mismatch (to_string run.namespace_id)))
    existing ← wrap store (RunStateStore.load plane.store run.tenant_id run.namespace_id run.run_id)
    lift (absent run.run_id existing)
    stage_id ← lift first_stage
    spec_hash ← lift spec_digest
    let fresh = initial_state run stage_id spec_hash started_at
    let dispatched = dispatch_first fresh stage_id started_at
    state ← if dispatch_initial then dispatched else pure fresh
    wrap store (RunStateStore.save plane.store state)
    pure state
