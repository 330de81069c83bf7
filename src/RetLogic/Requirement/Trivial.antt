-- ===== src/RetLogic/Requirement/Trivial.antt =====
-- The static analyses of crates/ret-logic/src/requirement.rs: `is_trivially_satisfied`,
-- `is_trivially_unsatisfiable`, `complexity`, and the checked groups of `RequirementGroup`.
pub mod Sound
use decision_gate.Prelude.{
  ℕ, suc, ◌+◌, ◌-◌, Bool, true, false, ◌&&◌, ◌||◌, List, length, leb, ltb, nat_beq, if◌then◌else◌,
}
use decision_gate.Prelude.Outcome.{Outcome, ok, err}
use decision_gate.RetLogic.Requirement.{
  Requirement, Requirements, and, or, not, require_group, condition, nil, cons, len, collect,
}

abbrev is_empty {ℓ} : {P : Type ℓ} → Requirements P → Bool
is_empty nil = true
is_empty (cons r rs) = false

module _ {ℓ} {P : Type ℓ} where
  unfoldable mutual
    pub is_trivially_satisfied : Requirement P → Bool
    is_trivially_satisfied (and rs) =
        let rest = all_satisfied rs in if is_empty rs then true else rest
    is_trivially_satisfied (or rs) = any_satisfied rs
    is_trivially_satisfied (not r) = is_trivially_unsatisfiable r
    is_trivially_satisfied (require_group min rs) =
        let count = satisfied_count rs in if nat_beq min 0 then true else leb min count
    is_trivially_satisfied (condition c) = false

    pub is_trivially_unsatisfiable : Requirement P → Bool
    is_trivially_unsatisfiable (or rs) =
        let rest = all_unsatisfiable rs in if is_empty rs then true else rest
    is_trivially_unsatisfiable (and rs) = any_unsatisfiable rs
    is_trivially_unsatisfiable (not r) = is_trivially_satisfied r
    is_trivially_unsatisfiable (require_group min rs) =
        let count = unsatisfiable_count rs in
        if ltb (len rs) min then true else ltb (len rs - count) min
    is_trivially_unsatisfiable (condition c) = false

    pub all_satisfied : Requirements P → Bool
    all_satisfied nil = true
    all_satisfied (cons r rs) = is_trivially_satisfied r && all_satisfied rs

    pub any_satisfied : Requirements P → Bool
    any_satisfied nil = false
    any_satisfied (cons r rs) = is_trivially_satisfied r || any_satisfied rs

    pub satisfied_count : Requirements P → ℕ
    satisfied_count nil = 0
    satisfied_count (cons r rs) = (if is_trivially_satisfied r then 1 else 0) + satisfied_count rs

    pub all_unsatisfiable : Requirements P → Bool
    all_unsatisfiable nil = true
    all_unsatisfiable (cons r rs) = is_trivially_unsatisfiable r && all_unsatisfiable rs

    pub any_unsatisfiable : Requirements P → Bool
    any_unsatisfiable nil = false
    any_unsatisfiable (cons r rs) = is_trivially_unsatisfiable r || any_unsatisfiable rs

    pub unsatisfiable_count : Requirements P → ℕ
    unsatisfiable_count nil = 0
    unsatisfiable_count (cons r rs) =
        (if is_trivially_unsatisfiable r then 1 else 0) + unsatisfiable_count rs

  unfoldable mutual
    pub complexity : Requirement P → ℕ
    complexity (condition c) = 1
    complexity (not r) = 1 + complexity r
    complexity (and rs) = 1 + sum_complexity rs
    complexity (or rs) = 1 + sum_complexity rs
    complexity (require_group min rs) = 1 + sum_complexity rs

    pub sum_complexity : Requirements P → ℕ
    sum_complexity nil = 0
    sum_complexity (cons r rs) = complexity r + sum_complexity rs

-- `struct RequirementGroup` and its constructors.
pub record RequirementGroup {ℓ} (P : Type ℓ) : Type ℓ where
  pub requirements : Requirements P
  pub min_required : ℕ

pub data RequirementGroupError : Type 0 where
  min_exceeds_count : (min_required available : ℕ) → RequirementGroupError

module _ {ℓ} {P : Type ℓ} where
  unfoldable pub new : List (Requirement P) → ℕ → Outcome RequirementGroupError (RequirementGroup P)
  new requirements min_required =
      if ltb (length requirements) min_required
      then err (min_exceeds_count min_required (length requirements))
      else ok (record { requirements = collect requirements; min_required = min_required })

  unfoldable pub all : List (Requirement P) → RequirementGroup P
  all requirements = record {
    requirements = collect requirements;
    min_required = length requirements;
  }

  unfoldable pub any : List (Requirement P) → Outcome RequirementGroupError (RequirementGroup P)
  unfolding new
  any requirements = new requirements 1
