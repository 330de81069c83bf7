-- ===== src/RetLogic/Serde/Accepted.antt =====
-- crates/ret-logic/src/serde_support.rs: the trees that the validator accepts.
use decision_gate.Prelude.{
  String, ℕ, suc, ◌+◌, ◌≤◌, ◌≡◌, ◌⊎◌, ◌↔◌, inl, inr, refl, Bool, true, Bool-cases, ltb, nat_beq,
  arith,
}
use decision_gate.Prelude.Outcome.{ok, sequel_iff}
use decision_gate.RetLogic.Requirement.{
  Requirement, Requirements, and, or, not, require_group, condition, nil, cons, len, max_eval_depth,
}
use decision_gate.RetLogic.Requirement.Shape.{height, height_all, holds}
use decision_gate.RetLogic.Requirement.Eval.{eval_with_depth}
use decision_gate.RetLogic.Requirement.Eval.Correct.{eval_with_depth-holds}
use decision_gate.RetLogic.Serde.{
  SerdeConfig, default_config, Checked, too_deep_at, validate_depth, depth_all, empty_check,
  group_check, validate_structure, structure_all, validate,
}

-- The check ends with `Ok(())`.
abbrev pub Passes : Checked → Type 0
Passes m = m ≡ ok tt

depth_test :
    (config : SerdeConfig) (depth : ℕ) (rest : Checked)
    → Passes (too_deep_at config depth rest) ↔ ((depth ≤ config.max_depth) × Passes rest)
depth_test config depth rest = elim (Bool-cases (ltb config.max_depth depth)) [
  | inl e ↦ rw e (λ h. cc, λ h. absurd (ground (arith, h.0)))
  | inr e ↦ rw e (λ h. (ground arith, h), λ h. h.1)
]

module _ {ℓ} {P : Type ℓ} (config : SerdeConfig) where
  -- An AND or an OR has a child, unless the configuration allows none.
  abbrev Filled : Requirements P → Type 0
  Filled rs = (config.allow_empty_logical ≡ true) ⊎ (1 ≤ len rs)

  -- A group asks for no more members than it has, and for one at least if it has any.
  abbrev Attainable : ℕ → Requirements P → Type 0
  Attainable min rs = (min ≤ len rs) × ((1 ≤ min) ⊎ (len rs ≡ 0))

  -- Every AND, OR and group of the tree is as the configuration wants it.
  abbrev mutual
    pub IsSound : Requirement P → Type 0
    IsSound (condition c) = Unit
    IsSound (not r) = IsSound r
    IsSound (and rs) = Filled rs × AllSound rs
    IsSound (or rs) = Filled rs × AllSound rs
    IsSound (require_group min rs) = Attainable min rs × AllSound rs

    pub AllSound : Requirements P → Type 0
    AllSound nil = Unit
    AllSound (cons r rs) = IsSound r × AllSound rs

  empty_test :
      (rs : Requirements P) (text : String) (rest : Checked)
      → Passes (empty_check config rs text rest) ↔ (Filled rs × Passes rest)
  empty_test nil text rest = elim (Bool-cases config.allow_empty_logical) [
    | inl e ↦ rw e (λ h. (inl refl, h), λ h. h.1)
    | inr e ↦ rw e (λ h. cc, λ h. elim h.0 [ inl f ↦ cc | inr l ↦ absurd (omega (arith, l)) ])
  ]
  empty_test (cons r rs) text rest = elim (Bool-cases config.allow_empty_logical) [
    | inl e ↦ rw e (λ h. (inl refl, h), λ h. h.1)
    | inr e ↦ rw e (λ h. (inr (omega arith), h), λ h. h.1)
  ]

  group_test :
      (min : ℕ) (rs : Requirements P) (rest : Checked)
      → Passes (group_check config min rs rest) ↔ (Attainable min rs × Passes rest)
  group_test min nil rest = elim (Bool-cases (ltb 0 min)) [
    | inl e ↦ rw e (λ h. cc, λ h. absurd (ground (arith, h.0)))
    | inr e ↦ ground arith
  ]
  group_test min (cons r rs) rest = elim (Bool-cases (ltb (suc (len rs)) min)) [
    | inl e ↦ rw e (λ h. cc, λ h. absurd (ground (arith, h.0.0)))
    | inr e ↦ elim (Bool-cases (nat_beq min 0)) [
      | inl z ↦
          rw (e, z)
            (
              λ h. cc,
              λ h. elim h.0.1 [
                | inl one ↦ absurd (ground (arith, one))
                | inr none_left ↦ absurd (omega (arith, none_left))
              ],
            )
      | inr z ↦ rw (e, z) (λ h. ((ground arith, inl (ground arith)), h), λ h. h.1)
    ]
  ]

  mutual
    unfolding height validate_depth

    depth_iff :
        (r : Requirement P) (depth : ℕ)
        → Passes (validate_depth config r depth) ↔ (depth + height r ≤ config.max_depth)
    depth_iff (condition c) depth =
        let test = depth_test config depth (ok tt) in
        (λ h. omega (arith, (test.0 h).0), λ h. test.1 ((omega (arith, h)), refl))
    depth_iff (not r) depth =
        let test = depth_test config depth (validate_depth config r (depth + 1)) in
        let below = depth_iff r (depth + 1) in
        (
          λ h. omega (arith, below.0 (test.0 h).1),
          λ h. test.1 ((omega (arith, h)), below.1 (omega (arith, h))),
        )
    depth_iff (and rs) depth = node_iff rs depth
    depth_iff (or rs) depth = node_iff rs depth
    depth_iff (require_group min rs) depth = node_iff rs depth

    node_iff :
        (rs : Requirements P) (depth : ℕ)
        → Passes (too_deep_at config depth (depth_all config rs depth))
          ↔ (depth + height_all rs ≤ config.max_depth)
    node_iff nil depth =
        let test = depth_test config depth (ok tt) in
        (λ h. omega (arith, (test.0 h).0), λ h. test.1 ((omega (arith, h)), refl))
    node_iff (cons r rs) depth =
        let test = depth_test config depth (depth_all config (cons r rs) depth) in
        let later = depth_test config depth (depth_all config rs depth) in
        let both = sequel_iff (validate_depth config r (depth + 1)) (depth_all config rs depth) in
        let first = depth_iff r (depth + 1) in
        let others = node_iff rs depth in
        (
          λ h.
              let (d, k) = test.0 h in
              let (a, b) = both.0 k in omega (arith, first.0 a, others.0 (later.1 (d, b))),
          λ h. test.1 (
            (omega (arith, h)),
            both.1 (first.1 (omega (arith, h)), (later.0 (others.1 (omega (arith, h)))).1),
          ),
        )

  mutual
    unfolding validate_structure

    structure_iff : (r : Requirement P) → Passes (validate_structure config r) ↔ IsSound r
    structure_iff (condition c) = (λ h. tt, λ h. refl)
    structure_iff (not r) = structure_iff r
    structure_iff (and rs) =
        let test = empty_test rs "Empty And requirement not allowed" (structure_all config rs) in
        let rest = all_iff rs in
        (λ h. ((test.0 h).0, rest.0 (test.0 h).1), λ h. test.1 (h.0, rest.1 h.1))
    structure_iff (or rs) =
        let test = empty_test rs "Empty Or requirement not allowed" (structure_all config rs) in
        let rest = all_iff rs in
        (λ h. ((test.0 h).0, rest.0 (test.0 h).1), λ h. test.1 (h.0, rest.1 h.1))
    structure_iff (require_group min rs) =
        let test = group_test min rs (structure_all config rs) in
        let rest = all_iff rs in
        (λ h. ((test.0 h).0, rest.0 (test.0 h).1), λ h. test.1 (h.0, rest.1 h.1))

    all_iff : (rs : Requirements P) → Passes (structure_all config rs) ↔ AllSound rs
    all_iff nil = (λ h. tt, λ h. refl)
    all_iff (cons r rs) =
        let both = sequel_iff (validate_structure config r) (structure_all config rs) in
        let first = structure_iff r in
        let rest = all_iff rs in
        (λ h. (first.0 (both.0 h).0, rest.0 (both.0 h).1), λ h. both.1 (first.1 h.0, rest.1 h.1))

  -- The validator accepts exactly the trees whose height is within the depth of its configuration and
  -- whose ANDs, ORs and groups are all as the configuration wants them: a group can be attained, and
  -- asks for a member if it has one.
  pub accepted_iff :
      (r : Requirement P) → validate config r ≡ ok tt ↔ ((height r ≤ config.max_depth) × IsSound r)
  unfolding validate
  accepted_iff r =
      let both = sequel_iff (validate_depth config r 0) (validate_structure config r) in
      let depth = depth_iff r 0 in
      let structure = structure_iff r in
      (
        λ h. ((omega (arith, depth.0 (both.0 h).0)), structure.0 (both.0 h).1),
        λ h. both.1 (depth.1 (omega (arith, h.0)), structure.1 h.1),
      )

-- A tree that the default validator accepts is evaluated to its end: the evaluator does not meet its
-- limit on depth, and answers with the tree's Boolean meaning.
pub validate-eval_with_depth {ℓ} :
    {P : Type ℓ} (leaf : P → Bool) (r : Requirement P)
    → validate default_config r ≡ ok tt
    → eval_with_depth leaf r 0 max_eval_depth ≡ ok (holds leaf r)
unfolding default_config
validate-eval_with_depth leaf r h =
    eval_with_depth-holds leaf max_eval_depth (omega arith) r 0
      (omega (arith, ((accepted_iff default_config r).0 h).0))
