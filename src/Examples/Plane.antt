-- ===== src/Examples/Plane.antt =====
-- A control plane over a world that counts the calls it gets, and a scenario of two stages: the run
-- leaves `intake` when the condition `ready` is 1, and `review` has a deadline.
use Prim.Native.Nat.{compare}
use decision_gate.Prelude.{ℕ, ◌+◌, [], ◌∷◌, none, some, nat_eq}
use decision_gate.Prelude.Decimal.{to_string, read}
use decision_gate.Prelude.Outcome.{ok}
use decision_gate.RetLogic.Requirement.{and, condition, nil, cons}
use decision_gate.Core.Time.{logical}
use decision_gate.Core.Hashing.{HashDigest, sha256}
use decision_gate.Core.Evidence.{EvidenceResult, EvidenceValue, verified, equals}
use decision_gate.Core.Disclosure.{PacketPayload, agent}
use decision_gate.Core.Spec.{
  ScenarioSpec, StageSpec, GateSpec, PacketSpec, linear, terminal, fail, advance_with_flag,
}
use decision_gate.Core.State.{RunState, active, TriggerEvent, external_event}
use decision_gate.Runtime.Json.{Json, number}
use decision_gate.Runtime.Engine.Types.{ControlPlane, default_config}

-- JSON values that are numbers.
abbrev pub numbers : Json
numbers = record {
  Value = ℕ;
  Number = ℕ;
  Decimal = ℕ;
  Instant = ℕ;
  Date = ℕ;
  value_eq = nat_eq;
  view = λ v. number v;
  from_str = λ s. some (read 0 s);
  as_u64 = λ n. some n;
  number_to_string = to_string;
  parse_decimal = λ s. some (read 0 s);
  decimal_cmp = compare;
  parse_instant = λ s. none;
  instant_cmp = compare;
  calendar_date = λ y m d. none;
  date_cmp = compare;
}

abbrev pub one_verified : EvidenceResult ℕ
one_verified = record {
  value = some (EvidenceValue.json 1);
  lane = verified;
  error = none;
  evidence_hash = none;
  evidence_ref = none;
  evidence_anchor = none;
  signature = none;
  content_type = none;
}

abbrev pub ready_gate : GateSpec
ready_gate = record {
  gate_id = "ready_gate";
  requirement = and (cons (condition "ready") nil);
  trust = none;
}

abbrev greeting : PacketSpec ℕ
greeting = record {
  packet_id = "greeting";
  schema_id = "greeting/v1";
  content_type = "application/json";
  visibility_labels = [];
  policy_tags = [];
  expiry = none;
  payload = PacketPayload.json 7;
}

abbrev pub intake : StageSpec ℕ
intake = record {
  stage_id = "intake";
  entry_packets = [];
  gates = ready_gate ∷ [];
  advance_to = linear;
  timeout = none;
  on_timeout = fail;
}

abbrev pub review : StageSpec ℕ
review = record {
  stage_id = "review";
  entry_packets = greeting ∷ [];
  gates = record ready_gate { gate_id = "review_gate" } ∷ [];
  advance_to = terminal;
  timeout = some (record { timeout_ms = 10; policy_tags = [] });
  on_timeout = advance_with_flag;
}

abbrev pub scenario : ScenarioSpec ℕ
scenario = record {
  scenario_id = "onboarding";
  namespace_id = 1;
  spec_version = "v1";
  stages = intake ∷ review ∷ [];
  conditions =
      record {
        condition_id = "ready";
        query = record { provider_id = "env"; check_id = "get"; params = none };
        comparator = equals;
        expected = some 1;
        policy_tags = [];
        trust = none;
      }
      ∷ [];
  policies = [];
  schemas = [];
  default_tenant_id = none;
}

abbrev pub a_digest : HashDigest
a_digest = record { algorithm = sha256; value = "00" }

abbrev pub plane : ControlPlane numbers ℕ
plane = record {
  spec = scenario;
  evidence = record {
    query = λ query context calls. (ok one_verified, calls + 1);
    validate_providers = λ spec calls. (ok tt, calls);
  };
  dispatcher = record {
    dispatch = λ target envelope payload calls. (
      ok (record {
        dispatch_id = "dispatch";
        target = target;
        receipt_hash = a_digest;
        dispatched_at = envelope.issued_at;
        dispatcher = "test";
      }),
      calls + 1,
    );
  };
  store = record {
    load = λ tenant namespace run calls. (ok none, calls);
    save = λ state calls. (ok tt, calls + 1);
  };
  policy = none;
  config = default_config;
  codec = record {
    digest = λ bytes. bytes;
    canonical_json_bytes = λ value. ok (1 ∷ []);
    canonical_json_bytes_with_limit = λ value limit. ok (1 ∷ []);
  };
  error_text = λ e. "error";
  hash_error_text = λ e. "hash error";
}

abbrev pub fresh : RunState ℕ
fresh = record {
  tenant_id = 1;
  namespace_id = 1;
  run_id = "run-1";
  scenario_id = "onboarding";
  spec_hash = a_digest;
  current_stage_id = "intake";
  stage_entered_at = logical 0;
  status = active;
  dispatch_targets = agent "alice" ∷ [];
  triggers = [];
  gate_evals = [];
  decisions = [];
  packets = [];
  submissions = [];
  tool_calls = [];
}

abbrev pub poke : TriggerEvent ℕ
poke = record {
  trigger_id = "poke";
  tenant_id = 1;
  namespace_id = 1;
  run_id = "run-1";
  kind = external_event;
  time = logical 5;
  source_id = "test";
  payload = none;
  correlation_id = none;
}
