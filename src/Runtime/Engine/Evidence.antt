-- ===== src/Runtime/Engine/Evidence.antt =====
-- crates/decision-gate-core/src/runtime/engine.rs: payload and evidence hashing, anchors, trust
-- lanes, and the evaluation of conditions and gates.
pub mod Trust
use Prim.Native.Nat.{Ordering}
use mathlib.Core.Bool
use decision_gate.Prelude.{
  ℕ, ◌*◌, ◌+◌, String, List, [], ◌∷◌, ◌++◌, map, Option, none, some, Bool, length, ltb,
  if◌then◌else◌, find, ◌==◌, string_eq,
}
use decision_gate.Prelude.Decimal
use decision_gate.Prelude.Decimal.{to_string}
use decision_gate.Prelude.Outcome.{Outcome, ok, err}
use decision_gate.Prelude.Action.{Action, pure, lift, ◌>>=◌}
use decision_gate.Prelude.Sorting.{sort_by}
use decision_gate.RetLogic.TriState.{TriState, LogicMode}
use decision_gate.Core.Hashing.{
  HashAlgorithm, HashDigest, HashError, canonicalization, size_limit_exceeded, Codec, hash_bytes,
  hash_canonical_json_with_limit, sha256,
}
use decision_gate.Core.Evidence.{
  TrustLane, verified, asserted, TrustRequirement, satisfies, stricter, EvidenceValue,
  EvidenceResult, EvidenceProviderError, EvidenceAnchor, AnchorRequirement, requirement_for,
}
use decision_gate.Core.Disclosure.{PacketPayload}
use decision_gate.Core.Spec.{ConditionSpec, GateSpec, StageSpec}
use decision_gate.Core.State.{
  EvidenceRecord, GateEvalRecord, GateEvaluation, RunState, TriggerEvent,
}
use decision_gate.Runtime.Json.{Json, View, null, bool, number, string, array, object}
use decision_gate.Runtime.Comparator.{evaluate_comparator}
use decision_gate.Runtime.Comparator.Text.{string_cmp}
use decision_gate.Runtime.Gate.{evaluate_gate}
use decision_gate.Runtime.Interfaces.{EvidenceContext, EvidenceError, provider}
use decision_gate.Runtime.Engine.Types.{
  ControlPlane, ControlPlaneConfig, ControlPlaneError, ConditionEvalOrder, spec_order,
  deterministic_shuffle, Document, json_value, evidence_too_large, payload_too_large, hash,
  payload_hash as payload_hash_error, get, trust_requirement_for_provider,
}
use decision_gate.Runtime.Engine.Helpers.{Fallible, condition_specs, evidence_for_gate}

abbrev pub max_evidence_value_bytes : ℕ
max_evidence_value_bytes = 1024 * 1024

abbrev pub max_payload_bytes : ℕ
max_payload_bytes = 2 * 1024 * 1024

-- The mapping of hash errors in `payload_hash` and `normalize_evidence_result`.
abbrev pub hashed : (ℕ → ℕ → ControlPlaneError) → Outcome HashError HashDigest → Fallible HashDigest
hashed too_large (ok digest) = ok digest
hashed too_large (err (size_limit_exceeded limit actual)) = err (too_large limit actual)
hashed too_large (err (canonicalization info)) = err (hash (canonicalization info))

abbrev or_default : Option TrustRequirement → TrustRequirement → TrustRequirement
or_default none d = d
or_default (some r) d = r

abbrev algorithm_beq : HashAlgorithm → HashAlgorithm → Bool
algorithm_beq sha256 sha256 = Bool.true

-- The `{:?}` of a lane.
abbrev lane_text : TrustLane → String
lane_text verified = "Verified"
lane_text asserted = "Asserted"

module _ {V : Type 0} where
  abbrev pub provider_error : String → String → EvidenceProviderError V
  provider_error code message = record { code = code; message = message; details = none }

  abbrev pub empty_result : TrustLane → EvidenceResult V
  empty_result lane = record {
    value = none;
    lane = lane;
    error = none;
    evidence_hash = none;
    evidence_ref = none;
    evidence_anchor = none;
    signature = none;
    content_type = none;
  }

  abbrev trust_error : TrustLane → TrustRequirement → EvidenceProviderError V
  trust_error lane requirement = provider_error "trust_lane" (
      Decimal.◌++◌ "evidence lane " (
        Decimal.◌++◌ (lane_text lane)
          (Decimal.◌++◌ " does not satisfy " (lane_text requirement.min_lane))))

  keep_error : Option (EvidenceProviderError V) → EvidenceProviderError V → EvidenceProviderError V
  keep_error none e = e
  keep_error (some old) e = old

  unfoldable pub apply_trust_requirement : EvidenceRecord V → TrustRequirement → EvidenceRecord V
  unfolding keep_error
  apply_trust_requirement r requirement =
      let result = r.result in
      if satisfies r.result.lane requirement then r else record r {
        status = TriState.unknown;
        result = record result {
          error = some (keep_error r.result.error (trust_error r.result.lane requirement));
        };
      }

  -- The map that `evaluate_stage_gates` and `build_condition_requirements` build.
  unfoldable pub build_condition_requirements :
      ControlPlaneConfig
      → List (ConditionSpec V)
      → List (String × TrustRequirement)
      → List (String × TrustRequirement)
  build_condition_requirements config [] entries = entries
  build_condition_requirements config (spec ∷ specs) entries =
      let base = trust_requirement_for_provider config spec.query.provider_id in
      build_condition_requirements config specs
        ((spec.condition_id, stricter base (or_default spec.trust base)) ∷ entries)

  unfoldable pub effective_requirement :
      TrustRequirement
      → List (String × TrustRequirement)
      → GateSpec
      → EvidenceRecord V
      → TrustRequirement
  effective_requirement default requirements gate r =
      stricter (or_default (get r.condition_id requirements) default)
        (stricter default (or_default gate.trust default))

  -- The evidence of one gate: selected, lowered to the trust that is required, and sorted.
  unfoldable pub adjusted_evidence :
      TrustRequirement
      → List (String × TrustRequirement)
      → List (EvidenceRecord V)
      → GateSpec
      → List (EvidenceRecord V)
  adjusted_evidence default requirements records gate =
      sort_by (λ left right. string_cmp left.condition_id right.condition_id)
        (map (λ r. apply_trust_requirement r (effective_requirement default requirements gate r))
          (evidence_for_gate records gate))

  -- The loop over the gates of a stage.
  unfoldable pub evaluate_gates :
      LogicMode
      → TrustRequirement
      → List (String × TrustRequirement)
      → List (EvidenceRecord V)
      → (trigger_id stage_id : String) → List GateSpec
      → List (GateEvalRecord V)
  evaluate_gates logic default requirements records trigger_id stage_id [] = []
  evaluate_gates logic default requirements records trigger_id stage_id (gate ∷ gates) =
      let evidence = adjusted_evidence default requirements records gate in
      record {
        trigger_id = trigger_id;
        stage_id = stage_id;
        evaluation = evaluate_gate logic gate evidence;
        evidence = evidence;
      }
      ∷ evaluate_gates logic default requirements records trigger_id stage_id gates

  -- The pairs that the loop pushes to `gate_outcomes`.
  unfoldable pub gate_outcomes : List (GateEvalRecord V) → List (String × TriState)
  gate_outcomes records = map (λ r. (r.evaluation.gate_id, r.evaluation.status)) records

module _ (J : Json) where
  open J use {Value, Number, view, from_str}

  field_error : String → Option (View Value Number) → Outcome String (Unit {0})
  field_error field (some (string _)) = ok tt
  field_error field (some (number _)) = ok tt
  field_error field (some (bool _)) =
      err (Decimal.◌++◌ "anchor field " (Decimal.◌++◌ field " must be string or number"))
  field_error field (some null) =
      err (Decimal.◌++◌ "anchor field " (Decimal.◌++◌ field " must be set"))
  field_error field (some (array _)) =
      err (Decimal.◌++◌ "anchor field " (Decimal.◌++◌ field " must be scalar"))
  field_error field (some (object _)) =
      err (Decimal.◌++◌ "anchor field " (Decimal.◌++◌ field " must be scalar"))
  field_error field none = err (Decimal.◌++◌ "anchor field " (Decimal.◌++◌ field " missing"))

  view_of : Option Value → Option (View Value Number)
  view_of none = none
  view_of (some v) = some (view v)

  -- The loop over the required fields.
  check_fields : List (String × Value) → List String → Outcome String (Unit {0})
  check_fields entries [] = ok tt
  check_fields entries (field ∷ fields) =
      let rest = check_fields entries fields in
      elim (field_error field (view_of (get field entries))) [
        | ok _ ↦ rest
        | err message ↦ err message
      ]

  check_view : View Value Number → List String → Outcome String (Unit {0})
  check_view (object entries) fields = check_fields entries fields
  check_view _ fields = err "anchor_value must be a JSON object"

  check_anchor : AnchorRequirement → Option EvidenceAnchor → Outcome String (Unit {0})
  check_anchor requirement none = err "missing evidence_anchor"
  check_anchor requirement (some anchor) =
      if anchor.anchor_type == requirement.anchor_type
      then elim (from_str anchor.anchor_value) [
        | none ↦ err "anchor_value must be canonical JSON"
        | some value ↦ check_view (view value) requirement.required_fields
      ]
      else err (
          Decimal.◌++◌ "anchor_type mismatch: expected "
            (Decimal.◌++◌ requirement.anchor_type (Decimal.◌++◌ " got " anchor.anchor_type)))

  unfoldable pub validate_anchor_requirement :
      AnchorRequirement → EvidenceResult Value → Outcome String (Unit {0})
  unfolding check_anchor check_view check_fields field_error view_of
  validate_anchor_requirement requirement result = check_anchor requirement result.evidence_anchor

  module _ {W : Type 0} (plane : ControlPlane J W) where
    open plane use {config, codec, spec}

    -- The payloads of packets and submissions.
    unfoldable pub payload_hash : PacketPayload Value → Fallible HashDigest
    payload_hash (PacketPayload.json value) = hashed payload_too_large (
        hash_canonical_json_with_limit codec config.hash_algorithm (json_value value)
          max_payload_bytes)
    payload_hash (PacketPayload.bytes bytes) =
        if ltb max_payload_bytes (length bytes)
        then err (payload_too_large max_payload_bytes (length bytes))
        else ok (hash_bytes codec config.hash_algorithm bytes)
    payload_hash (PacketPayload.external content_ref) =
        if algorithm_beq content_ref.content_hash.algorithm config.hash_algorithm
        then ok content_ref.content_hash
        else err (payload_hash_error "external payload hash algorithm mismatch")

    value_hash : EvidenceValue Value → Fallible HashDigest
    value_hash (EvidenceValue.json value) = hashed evidence_too_large (
        hash_canonical_json_with_limit codec config.hash_algorithm (json_value value)
          max_evidence_value_bytes)
    value_hash (EvidenceValue.bytes bytes) =
        if ltb max_evidence_value_bytes (length bytes)
        then err (evidence_too_large max_evidence_value_bytes (length bytes))
        else ok (hash_bytes codec config.hash_algorithm bytes)

    normalized_with : EvidenceResult Value → Fallible HashDigest → Fallible (EvidenceResult Value)
    normalized_with result (ok digest) = ok (record result { evidence_hash = some digest })
    normalized_with result (err e) = err e

    normalize_value :
        EvidenceResult Value → Option (EvidenceValue Value) → Fallible (EvidenceResult Value)
    normalize_value result none = ok result
    normalize_value result (some value) = normalized_with result (value_hash value)

    unfoldable pub normalize_evidence_result :
        EvidenceResult Value → Fallible (EvidenceResult Value)
    unfolding value_hash normalized_with normalize_value
    normalize_evidence_result result = normalize_value result result.value
