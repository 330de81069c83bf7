-- ===== src/Examples/Stores.antt =====
-- Stores and the registry at concrete inputs, with a control plane over the in-memory store.
use Prim.Native.Char.{Char, code}
use decision_gate.Prelude.{
  ℕ, ◌≡◌, refl, ◌⊎◌, String, [], ◌∷◌, Option, none, some, true, false, string_eq, nat_eq, nat_beq,
  if◌then◌else◌, ap, arith,
}
use decision_gate.Prelude.Distinct.{not_equal}
use decision_gate.Prelude.Action.{◌>>=◌}
use decision_gate.Prelude.Decimal.{to_string}
use decision_gate.Prelude.Map.{lookup, insert}
use decision_gate.Prelude.Outcome.{Outcome, ok, err}
use decision_gate.Prelude.Sorting.{sort_by}
use decision_gate.Core.Time.{logical}
use decision_gate.Core.Disclosure.{agent, PacketPayload}
use decision_gate.Core.DataShape.{DataShapeRecord}
use decision_gate.Core.Hashing.{
  new, hash_bytes, hash_canonical_json, hash_canonical_json_with_limit,
}
use decision_gate.Core.Hashing.Hex.{hex_encode}
use decision_gate.Core.State.{RunConfig, RunState}
use decision_gate.Runtime.Interfaces.{IsLawful, StoreError, DataShapeRegistryError}
use decision_gate.Runtime.Engine.Types.{
  ControlPlane, ControlPlaneError, default_config, run_already_exists, store, SubmitRequest,
  SubmitResult,
}
use decision_gate.Runtime.Engine.Evidence.{payload_hash}
use decision_gate.Runtime.Engine.Helpers.{next_seq, stage_spec}
use decision_gate.Runtime.Engine.Trigger.Packets.{
  dispatch_to, dispatch_packet, build_packet_envelope, issue_packets, issue_stage_packets,
}
use decision_gate.Runtime.Engine.Api.{
  start_run, initial_state, dispatch_first, scenario_submit, load_run, log_and_save,
  build_tool_call_record,
}
use decision_gate.Runtime.Engine.Api.Restart.{start_run-again}
use decision_gate.Runtime.Engine.Api.Resubmit.{scenario_submit-again}
use decision_gate.Runtime.Store.{
  InMemoryRunStateStore, empty_store, in_memory_store, locked, load, save, run_key,
}
use decision_gate.Runtime.Store.Lawful.{in_memory_store-IsLawful}
use decision_gate.Runtime.Store.Registry.{
  InMemoryDataShapeRegistry, with_limits, Serde, RegistryCursor, register, get, listed, schema_key,
}
use decision_gate.Runtime.Store.Registry.Kept.{register-Immutable, register-get}
use decision_gate.Runtime.Store.Registry.Pages.{collected, collected-all, ReadsBack}
use decision_gate.Examples.Plane.{numbers, scenario, one_verified, a_digest}

in_memory_store-IsLawful_example : IsLawful (in_memory_store {V = ℕ})
in_memory_store-IsLawful_example = in_memory_store-IsLawful

abbrev Runs : Type 0
Runs = InMemoryRunStateStore ℕ

abbrev plane : ControlPlane numbers Runs
plane = record {
  spec = scenario;
  evidence = record {
    query = λ query context runs. (ok one_verified, runs);
    validate_providers = λ spec runs. (ok tt, runs);
  };
  dispatcher = record {
    dispatch = λ target envelope payload runs. (
      ok (record {
        dispatch_id = "dispatch";
        target = target;
        receipt_hash = a_digest;
        dispatched_at = envelope.issued_at;
        dispatcher = "test";
      }),
      runs,
    );
  };
  store = in_memory_store;
  policy = none;
  config = default_config;
  codec = record {
    digest = λ bytes. bytes;
    canonical_json_bytes = λ value. ok (1 ∷ []);
    canonical_json_bytes_with_limit = λ value limit. ok (1 ∷ []);
  };
  error_text = λ e. "error";
  hash_error_text = λ e. "hash error";
}

abbrev alice : RunConfig
alice = record {
  tenant_id = 1;
  namespace_id = 1;
  run_id = "a/b";
  scenario_id = "onboarding";
  dispatch_targets = agent "alice" ∷ [];
  policy_tags = [];
}

abbrev state_of : Outcome ControlPlaneError (RunState ℕ) → RunState ℕ
state_of (ok s) = s
state_of (err e) = initial_state numbers plane alice "none" a_digest (logical 0)

abbrev begun : RunState ℕ
begun = state_of (start_run numbers plane alice (logical 3) true empty_store).0

begun_ok : (start_run numbers plane alice (logical 3) true empty_store).0 ≡ ok begun
unfolding start_run ◌>>=◌ initial_state dispatch_first next_seq to_string stage_spec
    issue_stage_packets issue_packets dispatch_packet dispatch_to build_packet_envelope
    hash_canonical_json hash_bytes new hex_encode load save locked run_key lookup insert
begun_ok = refl

start_run-again_example :
    start_run numbers plane alice
      (logical 9)
      false
      (start_run numbers plane alice (logical 3) true empty_store).1
    ≡ (
      err (run_already_exists "a/b"),
      (start_run numbers plane alice (logical 3) true empty_store).1,
    )
start_run-again_example =
    start_run-again numbers plane alice (logical 3) true empty_store begun (logical 9) false
      in_memory_store-IsLawful begun_ok

abbrev world : Runs
world = (start_run numbers plane alice (logical 3) true empty_store).1

abbrev note : SubmitRequest ℕ
note = record {
  run_id = "a/b";
  tenant_id = 1;
  namespace_id = 1;
  submission_id = "note-1";
  payload = PacketPayload.json 8;
  content_type = "application/json";
  submitted_at = logical 4;
  correlation_id = none;
}

abbrev answer_of : Outcome ControlPlaneError (SubmitResult ℕ) → SubmitResult ℕ
answer_of (ok r) = r
answer_of (err e) = record {
  submitted = record {
    submission_id = "none";
    run_id = "none";
    payload = PacketPayload.json 0;
    content_type = "none";
    content_hash = a_digest;
    submitted_at = logical 0;
    correlation_id = none;
  };
}

abbrev answered : SubmitResult ℕ
answered = answer_of (scenario_submit numbers plane note world).0

scenario_submit-again_example :
    ((scenario_submit numbers plane note (scenario_submit numbers plane note world).1).0
      ≡ ok answered)
    ⊎ ((e : StoreError) × ((scenario_submit numbers plane note
            (scenario_submit numbers plane note world).1).0
          ≡ err (store e)))
unfolding start_run ◌>>=◌ initial_state dispatch_first next_seq to_string stage_spec
    issue_stage_packets issue_packets dispatch_packet dispatch_to build_packet_envelope
    hash_canonical_json hash_canonical_json_with_limit hash_bytes new hex_encode load save locked
    run_key lookup insert scenario_submit load_run log_and_save build_tool_call_record payload_hash
scenario_submit-again_example =
    scenario_submit-again numbers plane note begun world answered in_memory_store-IsLawful refl refl
      refl refl refl

abbrev shape : String → String → DataShapeRecord ℕ
shape schema_id version = record {
  tenant_id = 1;
  namespace_id = 1;
  schema_id = schema_id;
  version = version;
  schema = 3;
  description = none;
  created_at = logical 1;
  signing = none;
}

-- Cursors are written with an `x` before each character of the identifier and a `y` before the version.
abbrev write : String → String → String
write String.[] version = String.◌∷◌ "y" version
write (String.◌∷◌ c s) version = String.◌∷◌ "x" (String.◌∷◌ c (write s version))

abbrev with_char : Char → Option RegistryCursor → Option RegistryCursor
with_char c none = none
with_char c (some cursor) =
    some (record { schema_id = String.◌∷◌ c cursor.schema_id; version = cursor.version })

abbrev read : String → Option RegistryCursor
read String.[] = none
read (String.◌∷◌ t String.[]) =
    if nat_beq (code t) 121 then some (record { schema_id = ""; version = "" }) else none
read (String.◌∷◌ t (String.◌∷◌ c s)) =
    let rest = with_char c (read s) in
    if nat_beq (code t) 121
    then some (record { schema_id = ""; version = String.◌∷◌ c s })
    else rest

read-write :
    (schema_id version : String)
    → read (write schema_id version) ≡ some (record { schema_id = schema_id; version = version })
read-write String.[] String.[] = refl
read-write String.[] (String.◌∷◌ c s) = refl
read-write (String.◌∷◌ c s) version = ap (with_char c) (read-write s version)

abbrev serde : Serde ℕ
serde = record {
  to_vec = λ v. ok (v ∷ []);
  to_text = λ c. ok (write c.schema_id c.version);
  from_text = read;
}

reads : ReadsBack serde
reads c = (write c.schema_id c.version, refl, read-write c.schema_id c.version)

abbrev Shapes : Type 0
Shapes = InMemoryDataShapeRegistry ℕ

-- Three records, of which the last is of another tenant.
abbrev shapes : Shapes
shapes =
    (register serde (record (shape "b" "1") { tenant_id = 2 })
      (register serde (shape "b" "1")
        (register serde (shape "a" "2") (with_limits 10 (some 5))).1).1).1

register-Immutable_example :
    (get 1 1 "a" "2" (register serde (shape "a" "2") shapes).1).0 ≡ ok (some (shape "a" "2"))
unfolding register get lookup insert schema_key to_string
register-Immutable_example =
    register-Immutable serde (shape "a" "2") (shape "a" "2") shapes 1 1 "a" "2" refl

register-get_example :
    ((get 1 1 "c" "1" (register serde (shape "c" "1") shapes).1).0 ≡ ok (some (shape "c" "1")))
    × ((e : DataShapeRegistryError) × (register serde
            (shape "c" "1")
            (register serde (shape "c" "1") shapes).1
          ≡ (err e, (register serde (shape "c" "1") shapes).1)))
unfolding register lookup insert schema_key to_string
register-get_example = register-get serde (shape "c" "1") (shape "c" "1") shapes refl refl

collected-all_example : collected serde 1 1 1 shapes 3 none ≡ some (listed 1 1 shapes)
unfolding register listed lookup insert schema_key to_string sort_by
collected-all_example =
    collected-all serde 1 1 1 shapes reads refl (omega arith)
      ((λ e. (not_equal "a" "b").0 refl e.0, tt), (tt, tt)) 3 (omega arith)

-- Two identities with one key: the registry takes one for the other.
same_key : schema_key 1 1 "a/b" "c" ≡ schema_key 1 1 "a" "b/c"
unfolding schema_key to_string
same_key = refl
