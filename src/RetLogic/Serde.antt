-- ===== src/RetLogic/Serde.antt =====
-- The validator of crates/ret-logic/src/serde_support.rs (`RequirementValidator`), with its
-- configuration and its errors.
pub mod Accepted
use mathlib.Core.Bool
use decision_gate.Prelude.{ℕ, ◌+◌, Bool, true, false, ◌&&◌, String, ltb, nat_beq, if◌then◌else◌}
use decision_gate.Prelude.Outcome.{Outcome, ok, err, ◌>>=◌, ◌>>◌}
use decision_gate.RetLogic.Requirement.{
  Requirement, Requirements, and, or, not, require_group, condition, nil, cons, len,
}

pub data SerdeError : Type 0 where
  invalid_structure : String → SerdeError
  missing_field : String → SerdeError
  invalid_value : (field value expected : String) → SerdeError
  circular_reference : SerdeError
  too_deep : (max_depth actual_depth : ℕ) → SerdeError
  invalid_group : (min total : ℕ) → SerdeError

pub record SerdeConfig : Type 0 where
  pub max_depth : ℕ
  pub validate_on_deserialize : Bool
  pub allow_empty_logical : Bool

-- `SerdeConfig::default`
unfoldable pub default_config : SerdeConfig
default_config = record {
  max_depth = 32;
  validate_on_deserialize = true;
  allow_empty_logical = true;
}

abbrev pub Checked : Type 0
Checked = Outcome SerdeError Unit

-- `is_empty`
abbrev pub is_empty {ℓ} : {P : Type ℓ} → Requirements P → Bool
is_empty nil = true
is_empty (cons r rs) = false

abbrev pub too_deep_at : SerdeConfig → ℕ → Checked → Checked
too_deep_at config depth rest =
    if ltb config.max_depth depth then err (too_deep config.max_depth depth) else rest

module _ {ℓ} {P : Type ℓ} (config : SerdeConfig) where
  unfoldable mutual
    pub validate_depth : Requirement P → ℕ → Checked
    validate_depth (condition c) depth = too_deep_at config depth (ok tt)
    validate_depth (not r) depth = too_deep_at config depth (validate_depth r (depth + 1))
    validate_depth (and rs) depth = too_deep_at config depth (depth_all rs depth)
    validate_depth (or rs) depth = too_deep_at config depth (depth_all rs depth)
    validate_depth (require_group min rs) depth = too_deep_at config depth (depth_all rs depth)

    -- The loop over the children.
    pub depth_all : Requirements P → ℕ → Checked
    depth_all nil depth = ok tt
    depth_all (cons r rs) depth = validate_depth r (depth + 1) >> depth_all rs depth

  -- The test of an AND or an OR without children.
  abbrev pub empty_check : Requirements P → String → Checked → Checked
  empty_check rs text rest =
      if Bool.not config.allow_empty_logical && is_empty rs
      then err (invalid_structure text)
      else rest

  -- The tests of a group.
  abbrev pub group_check : ℕ → Requirements P → Checked → Checked
  group_check min rs rest =
      if ltb (len rs) min
      then err (invalid_group min (len rs))
      else if nat_beq min 0 && Bool.not (is_empty rs)
      then err (invalid_structure "RequireGroup with min=0 should be empty or use And instead")
      else rest

  unfoldable mutual
    pub validate_structure : Requirement P → Checked
    validate_structure (condition c) = ok tt
    validate_structure (not r) = validate_structure r
    validate_structure (and rs) =
        empty_check rs "Empty And requirement not allowed" (structure_all rs)
    validate_structure (or rs) =
        empty_check rs "Empty Or requirement not allowed" (structure_all rs)
    validate_structure (require_group min rs) = group_check min rs (structure_all rs)

    pub structure_all : Requirements P → Checked
    structure_all nil = ok tt
    structure_all (cons r rs) = validate_structure r >> structure_all rs

  -- `RequirementValidator::validate`
  unfoldable pub validate : Requirement P → Checked
  validate r = do validate_depth r 0; validate_structure r
