-- ===== src/Core/Evidence.antt =====
-- crates/decision-gate-core/src/core/evidence.rs
use decision_gate.Prelude.{
  ℕ, String, List, Option, none, some, Bool, leb, find, ◌==◌, string_eq, if◌then◌else◌,
}
use decision_gate.Core.Hashing.{HashDigest}

pub record EvidenceQuery (V : Type 0) : Type 0 where
  pub provider_id : String
  pub check_id : String
  pub params : Option V

pub data Comparator : Type 0 where
  equals not_equals greater_than greater_than_or_equal less_than less_than_or_equal : Comparator
  lex_greater_than lex_greater_than_or_equal lex_less_than lex_less_than_or_equal : Comparator
  contains in_set deep_equals deep_not_equals exists not_exists : Comparator

pub data TrustLane : Type 0 where
  verified asserted : TrustLane

pub record TrustRequirement : Type 0 where
  pub min_lane : TrustLane

abbrev pub rank : TrustLane → ℕ
rank asserted = 0
rank verified = 1

unfoldable pub satisfies : TrustLane → TrustRequirement → Bool
satisfies lane requirement = leb (rank requirement.min_lane) (rank lane)

unfoldable pub stricter : TrustRequirement → TrustRequirement → TrustRequirement
stricter a b = if leb (rank b.min_lane) (rank a.min_lane) then a else b

pub data EvidenceValue (V : Type 0) : Type 0 where
  json : V → EvidenceValue V
  bytes : List ℕ → EvidenceValue V

pub record EvidenceAnchor : Type 0 where
  pub anchor_type : String
  pub anchor_value : String

pub record EvidenceRef : Type 0 where
  pub uri : String

pub record EvidenceSignature : Type 0 where
  pub scheme : String
  pub key_id : String
  pub signature : List ℕ

pub record EvidenceProviderError (V : Type 0) : Type 0 where
  pub code : String
  pub message : String
  pub details : Option V

pub record EvidenceResult (V : Type 0) : Type 0 where
  pub value : Option (EvidenceValue V)
  pub lane : TrustLane
  pub error : Option (EvidenceProviderError V)
  pub evidence_hash : Option HashDigest
  pub evidence_ref : Option EvidenceRef
  pub evidence_anchor : Option EvidenceAnchor
  pub signature : Option EvidenceSignature
  pub content_type : Option String

pub record AnchorRequirement : Type 0 where
  pub anchor_type : String
  pub required_fields : List String

pub record ProviderAnchorPolicy : Type 0 where
  pub provider_id : String
  pub requirement : AnchorRequirement

pub record EvidenceAnchorPolicy : Type 0 where
  pub providers : List ProviderAnchorPolicy

unfoldable pub requirement_for : EvidenceAnchorPolicy → String → Option AnchorRequirement
requirement_for policy provider_id =
    elim (find (λ p. p.provider_id == provider_id) policy.providers) [
      | none ↦ none
      | some p ↦ some p.requirement
    ]

pub record ProviderMissingError : Type 0 where
  pub missing_providers : List String
  pub required_capabilities : List String
  pub blocked_by_policy : Bool
