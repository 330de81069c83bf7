-- ===== src/Runtime/Engine/Trigger/Conditions.antt =====
-- `reorder_condition_specs` and `evaluate_conditions` of engine.rs: the queries to the evidence
-- providers, in order, and what is made of each answer.
use Prim.Native.Nat.{Ordering, ◌/◌, ◌%◌}
use Prim.Native.Char.{code}
use decision_gate.Prelude.{
  ℕ, ◌+◌, String, List, [], ◌∷◌, ◌++◌, map, Option, none, some, ltb, if◌then◌else◌,
}
use decision_gate.Prelude.Decimal
use decision_gate.Prelude.Decimal.{to_string}
use decision_gate.Prelude.Outcome.{Outcome, ok, err}
use decision_gate.Prelude.Action.{Action, pure, lift, attempt, ◌>>=◌}
use decision_gate.Prelude.Sorting.{sort_by}
use decision_gate.RetLogic.TriState.{TriState}
use decision_gate.Core.Hashing.{HashAlgorithm, Codec, hash_bytes}
use decision_gate.Core.Evidence.{
  verified, EvidenceResult, EvidenceProviderError, AnchorRequirement, requirement_for,
}
use decision_gate.Core.Spec.{ConditionSpec}
use decision_gate.Core.State.{EvidenceRecord}
use decision_gate.Runtime.Json.{Json}
use decision_gate.Runtime.Comparator.{evaluate_comparator}
use decision_gate.Runtime.Comparator.Text.{string_cmp}
use decision_gate.Runtime.Interfaces.{EvidenceContext, EvidenceError, provider}
use decision_gate.Runtime.Engine.Types.{
  ControlPlane, ControlPlaneError, ConditionEvalOrder, spec_order, deterministic_shuffle,
}
use decision_gate.Runtime.Engine.Helpers.{Fallible}
use decision_gate.Runtime.Engine.Evidence.{
  provider_error, empty_result, validate_anchor_requirement, normalize_evidence_result,
}

-- `as_bytes`: the UTF-8 encoding of a code point, and of a text.
utf8_char : ℕ → List ℕ
utf8_char c =
    if ltb c 0x80
    then c ∷ []
    else if ltb c 0x800
    then (0xC0 + c / 64) ∷ (0x80 + c % 64) ∷ []
    else if ltb c 0x10000
    then (0xE0 + c / 4096) ∷ (0x80 + c / 64 % 64) ∷ (0x80 + c % 64) ∷ []
    else (0xF0 + c / 262144) ∷ (0x80 + c / 4096 % 64) ∷ (0x80 + c / 64 % 64) ∷ (0x80 + c % 64) ∷ []

utf8 : String → List ℕ
unfolding utf8_char
utf8 String.[] = []
utf8 (String.◌∷◌ c s) = utf8_char (code c) ++ utf8 s

-- `sort_by` on the key and then on the condition.
pub by_key : {V : Type 0} → String × ConditionSpec V → String × ConditionSpec V → Ordering
by_key (k, a) (l, b) = elim (string_cmp k l) [
  | Ordering.lt ↦ Ordering.lt
  | Ordering.eq ↦ string_cmp a.condition_id b.condition_id
  | Ordering.gt ↦ Ordering.gt
]

module _ {D : Type 0} (codec : Codec D) where
  -- The key is the digest of the text `seed:id`.
  unfoldable pub condition_shuffle_key : ℕ → HashAlgorithm → String → String
  unfolding utf8
  condition_shuffle_key seed algorithm condition_id =
      (hash_bytes codec algorithm
        (utf8 (Decimal.◌++◌ (to_string seed) (Decimal.◌++◌ ":" condition_id)))).value

  unfoldable pub reorder_condition_specs :
      {V : Type 0}
      → List (ConditionSpec V)
      → ConditionEvalOrder
      → HashAlgorithm
      → List (ConditionSpec V)
  unfolding by_key
  reorder_condition_specs specs spec_order algorithm = specs
  reorder_condition_specs specs (deterministic_shuffle seed) algorithm =
      map (λ keyed. keyed.1)
        (sort_by by_key
          (map (λ spec. (condition_shuffle_key seed algorithm spec.condition_id, spec)) specs))

module _ (J : Json) {W : Type 0} (plane : ControlPlane J W) where
  open J use {Value}
  open plane use {config, evidence}

  -- `EvidenceError` is shown by its one format string.
  answered : Outcome EvidenceError (EvidenceResult Value) → EvidenceResult Value
  answered (ok result) = result
  answered (err (provider message)) =
      let blank = empty_result verified in
      record blank {
        error =
            some
              (provider_error "provider_error" (Decimal.◌++◌ "evidence provider error: " message));
      }

  anchor_outcome : Outcome String (Unit {0}) → EvidenceResult Value → EvidenceResult Value
  anchor_outcome (ok _) result = result
  anchor_outcome (err message) result =
      let blank = empty_result verified in
      record blank { error = some (provider_error "anchor_invalid" message) }

  anchored : Option AnchorRequirement → EvidenceResult Value → EvidenceResult Value
  unfolding anchor_outcome
  anchored none result = result
  anchored (some requirement) result =
      anchor_outcome (validate_anchor_requirement J requirement result) result

  -- The anchor check applies where there is no error yet.
  check_anchor :
      Option (EvidenceProviderError Value) → String → EvidenceResult Value → EvidenceResult Value
  unfolding anchored
  check_anchor (some e) provider_id result = result
  check_anchor none provider_id result =
      anchored (requirement_for config.anchor_policy provider_id) result

  -- A result with an error loses its value, hash and content type.
  redact : Option (EvidenceProviderError Value) → EvidenceResult Value → EvidenceResult Value
  redact none result = result
  redact (some e) result = record result {
    error = some e;
    value = none;
    evidence_hash = none;
    content_type = none;
  }

  -- The result after the anchor check and the redaction.
  unfoldable pub screened :
      String → Outcome EvidenceError (EvidenceResult Value) → EvidenceResult Value
  unfolding answered check_anchor redact
  screened provider_id answer =
      let result = answered answer in
      let checked = check_anchor result.error provider_id result in redact checked.error checked

  status_of :
      Option (EvidenceProviderError Value) → ConditionSpec Value → EvidenceResult Value → TriState
  status_of (some e) spec normalized = TriState.unknown
  status_of none spec normalized = evaluate_comparator J spec.comparator spec.expected normalized

  -- The record of one condition, from a result whose value is dropped if it has an error.
  unfoldable pub evidence_record :
      ConditionSpec Value → EvidenceResult Value → Fallible (EvidenceRecord Value)
  unfolding status_of
  evidence_record spec result = elim (normalize_evidence_result J plane result) [
    | ok normalized ↦ ok (record {
      condition_id = spec.condition_id;
      status = status_of result.error spec normalized;
      result = normalized;
    })
    | err e ↦ err e
  ]

  unfoldable pub evaluate_conditions :
      List (ConditionSpec Value)
      → EvidenceContext
      → Action ControlPlaneError W (List (EvidenceRecord Value))
  unfolding screened evidence_record
  evaluate_conditions [] context = pure []
  evaluate_conditions (spec ∷ specs) context = do
    answer ← attempt (evidence.query spec.query context)
    r ← lift (evidence_record spec (screened spec.query.provider_id answer))
    records ← evaluate_conditions specs context
    pure (r ∷ records)
