-- ===== src/Core/Spec/Validate.antt =====
-- crates/decision-gate-core/src/core/spec.rs: `ScenarioSpec::validate` and its helpers.
pub mod Unique
pub mod Resolve
pub mod Valid
use Prim.Native.Char.{Char, code}
use mathlib.Core.Bool.{◌&&◌, ◌||◌}
use decision_gate.Prelude.{
  ℕ, ◌≤◌, String, List, [], ◌∷◌, ◌++◌, map, Option, none, some, Bool, true, false, any, contains,
  ◌==◌, string_eq, leb, nat_beq, if◌then◌else◌,
}
use decision_gate.Prelude.Outcome.{Outcome, ok, err, ◌>>=◌, ◌>>◌}
use decision_gate.RetLogic.Requirement.{
  Requirement, Requirements, and, or, not, require_group, condition, nil, cons,
}
use decision_gate.Core.Spec.{
  ScenarioSpec, StageSpec, GateSpec, PacketSpec, ConditionSpec, AdvanceTo, linear, fixed, branch,
  terminal, BranchRule, SpecError, missing_stages, duplicate_stage_id, duplicate_gate_id,
  duplicate_packet_id, duplicate_condition, missing_condition, invalid_evidence_query,
  missing_branch_target,
}

abbrev pub Checked : Type 0
Checked = Outcome SpecError (Unit {0})

-- `char::is_whitespace`: the code points with the property White_Space.
abbrev pub is_whitespace : ℕ → Bool
is_whitespace c =
    (leb 9 c && leb c 13)
    || nat_beq c 32
    || nat_beq c 133
    || nat_beq c 160
    || nat_beq c 5760
    || (leb 8192 c && leb c 8202)
    || nat_beq c 8232
    || nat_beq c 8233
    || nat_beq c 8239
    || nat_beq c 8287
    || nat_beq c 12288

-- `trim().is_empty()`
unfoldable pub is_blank : String → Bool
is_blank String.[] = true
is_blank (String.◌∷◌ c s) = is_whitespace (code c) && is_blank s

-- A loop that tests each element against those after it.
unfoldable pub test_later {ℓ} :
    {A : Type ℓ} → (A → String) → (String → SpecError) → List A → Checked
test_later id error [] = ok tt
test_later id error (x ∷ rest) =
    if any (λ other. id other == id x) rest then err (error (id x)) else test_later id error rest

-- The inner loop over the members of a stage, with what is seen so far.
unfoldable pub push_ids :
    (String → SpecError) → List String → List String → Outcome SpecError (List String)
push_ids error [] seen = ok seen
push_ids error (id ∷ ids) seen =
    if contains seen id then err (error id) else push_ids error ids (seen ++ id ∷ [])

-- The outer loop over the stages.
unfoldable pub push_each {ℓ} :
    {A : Type ℓ}
    → (String → SpecError)
    → (A → List String)
    → List A
    → List String
    → Outcome SpecError (List String)
push_each error ids_of [] seen = ok seen
push_each error ids_of (stage ∷ stages) seen = do
  seen ← push_ids error (ids_of stage) seen
  push_each error ids_of stages seen

-- `collect_conditions`, the copy of this file.
unfoldable mutual
  pub collect_conditions_inner : Requirement String → List String → List String
  collect_conditions_inner (condition c) out = if contains out c then out else out ++ c ∷ []
  collect_conditions_inner (not inner) out = collect_conditions_inner inner out
  collect_conditions_inner (and reqs) out = collect_reqs reqs out
  collect_conditions_inner (or reqs) out = collect_reqs reqs out
  collect_conditions_inner (require_group min reqs) out = collect_reqs reqs out

  pub collect_reqs : Requirements String → List String → List String
  collect_reqs nil out = out
  collect_reqs (cons req reqs) out = collect_reqs reqs (collect_conditions_inner req out)

unfoldable pub collect_conditions : Requirement String → List String
collect_conditions requirement = collect_conditions_inner requirement []

-- The loop over the required identifiers: each is among `ids`.
unfoldable pub each_known : (String → SpecError) → List String → List String → Checked
each_known error ids [] = ok tt
each_known error ids (x ∷ xs) = if contains ids x then each_known error ids xs else err (error x)

unfoldable pub resolve_gates : List String → List GateSpec → Checked
resolve_gates ids [] = ok tt
resolve_gates ids (gate ∷ gates) =
    each_known missing_condition ids (collect_conditions gate.requirement)
    >> resolve_gates ids gates

-- The targets of a stage in the order in which they are tested.
abbrev pub default_target : Option String → List String
default_target none = []
default_target (some stage_id) = stage_id ∷ []

abbrev pub targets : AdvanceTo → List String
targets linear = []
targets (fixed stage_id) = stage_id ∷ []
targets (branch branches default) =
    map (λ rule. rule.next_stage_id) branches ++ default_target default
targets terminal = []

module _ {V : Type 0} where
  unfoldable pub ensure_unique_stage_ids : List (StageSpec V) → Checked
  ensure_unique_stage_ids stages = test_later (λ stage. stage.stage_id) duplicate_stage_id stages

  unfoldable pub ensure_unique_gate_ids : List (StageSpec V) → Checked
  ensure_unique_gate_ids stages =
      push_each duplicate_gate_id (λ stage. map (λ gate. gate.gate_id) stage.gates) stages []
      >> ok tt

  unfoldable pub ensure_unique_packet_ids : List (StageSpec V) → Checked
  ensure_unique_packet_ids stages =
      push_each duplicate_packet_id (λ stage. map (λ packet. packet.packet_id) stage.entry_packets)
        stages []
      >> ok tt

  unfoldable pub ensure_unique_conditions : List (ConditionSpec V) → Checked
  ensure_unique_conditions conditions =
      test_later (λ c. c.condition_id) duplicate_condition conditions

  unfoldable pub ensure_condition_queries_well_formed : List (ConditionSpec V) → Checked
  ensure_condition_queries_well_formed [] = ok tt
  ensure_condition_queries_well_formed (c ∷ conditions) =
      if is_blank c.query.provider_id
      then err (invalid_evidence_query c.condition_id "provider_id is empty")
      else if is_blank c.query.check_id
      then err (invalid_evidence_query c.condition_id "check_id is empty")
      else ensure_condition_queries_well_formed conditions

  unfoldable pub ensure_gate_conditions_resolve : List (StageSpec V) → List String → Checked
  ensure_gate_conditions_resolve [] ids = ok tt
  ensure_gate_conditions_resolve (stage ∷ stages) ids =
      resolve_gates ids stage.gates >> ensure_gate_conditions_resolve stages ids

  unfoldable pub ensure_branch_targets_exist : List String → List (StageSpec V) → Checked
  ensure_branch_targets_exist ids [] = ok tt
  ensure_branch_targets_exist ids (stage ∷ stages) =
      each_known missing_branch_target ids (targets stage.advance_to)
      >> ensure_branch_targets_exist ids stages

  -- The identifiers that the two last checks look for.
  abbrev pub stage_ids : ScenarioSpec V → List String
  stage_ids spec = map (λ stage. stage.stage_id) spec.stages

  abbrev pub condition_ids : ScenarioSpec V → List String
  condition_ids spec = map (λ c. c.condition_id) spec.conditions

  abbrev has_stages : List (StageSpec V) → Checked
  has_stages [] = err missing_stages
  has_stages (_ ∷ _) = ok tt

  unfoldable pub validate : ScenarioSpec V → Checked
  validate spec =
      has_stages spec.stages
      >> (ensure_unique_stage_ids spec.stages
          >> (ensure_unique_gate_ids spec.stages
              >> (ensure_unique_packet_ids spec.stages
                  >> (ensure_unique_conditions spec.conditions
                      >> (ensure_condition_queries_well_formed spec.conditions
                          >> (ensure_gate_conditions_resolve spec.stages (condition_ids spec)
                              >> ensure_branch_targets_exist (stage_ids spec) spec.stages))))))
