-- ===== src/RetLogic/Requirement/Trivial/Sound.antt =====
-- crates/ret-logic/src/requirement.rs: the static analyses next to `eval_tristate`.
use decision_gate.Prelude.{ℕ, ◌+◌, ◌≤◌, ◌<◌, ◌≡◌, refl, ◌∙◌, ap, true, Bool-cases, inl, inr, arith}
use decision_gate.RetLogic.TriState.{
  TriState, kleene_and, kleene_or, kleene_logic, require_group as group_rule,
}
use decision_gate.RetLogic.Requirement.{
  Requirement, Requirements, and, or, not, require_group, condition, nil, cons, len, max_eval_depth,
}
use decision_gate.RetLogic.Requirement.Shape.{height}
use decision_gate.RetLogic.Requirement.Tri.{
  eval_tristate, noop_trace, count_satisfied, count_unknown,
}
use decision_gate.RetLogic.Requirement.Tri.Meaning.{
  value, value_and, value_or, value_group, eval_tristate_with_trace-value,
}
use decision_gate.RetLogic.Requirement.Trivial.{
  is_trivially_satisfied, is_trivially_unsatisfiable, all_satisfied, any_satisfied, satisfied_count,
  all_unsatisfiable, any_unsatisfiable, unsatisfiable_count,
}

group_true :
    (min s u total : ℕ)
    → min ≤ s
    → group_rule min (record { satisfied = s; unknown = u; total = total }) ≡ TriState.true
unfolding group_rule
group_true min s u total h = ground arith

group_false :
    (min s u total : ℕ)
    → s + u < min
    → group_rule min (record { satisfied = s; unknown = u; total = total }) ≡ TriState.false
unfolding group_rule
group_false min s u total h = ground arith

count_satisfied_ge : (v : TriState) (s : ℕ) → s ≤ count_satisfied v s
count_satisfied_ge v s = ground arith

count_sum_le : (v : TriState) (s u : ℕ) → count_satisfied v s + count_unknown v u ≤ s + u + 1
count_sum_le v s u = ground arith

module _ {ℓ} {P : Type ℓ} (leaf : P → TriState) where
  value_and_false :
      (rs : Requirements P) → value_and kleene_logic leaf rs TriState.false ≡ TriState.false
  unfolding value
  value_and_false nil = refl
  value_and_false (cons r rs) = value_and_false rs

  value_or_true :
      (rs : Requirements P) → value_or kleene_logic leaf rs TriState.true ≡ TriState.true
  unfolding value
  value_or_true nil = refl
  value_or_true (cons r rs) = value_or_true rs

  kleene_and_false : (a : TriState) → kleene_and a TriState.false ≡ TriState.false
  kleene_and_false a = ground arith

  kleene_or_true : (a : TriState) → kleene_or a TriState.true ≡ TriState.true
  kleene_or_true a = ground arith

  unsatisfiable_count-le : (rs : Requirements P) → unsatisfiable_count rs ≤ len rs
  unfolding is_trivially_satisfied
  unsatisfiable_count-le nil = omega arith
  unsatisfiable_count-le (cons r rs) = ground (arith, unsatisfiable_count-le rs)

  mutual
    unfolding value is_trivially_satisfied

    satisfied_lem :
        (r : Requirement P)
        → is_trivially_satisfied r ≡ true
        → value kleene_logic leaf r ≡ TriState.true
    satisfied_lem (and nil) h = refl
    satisfied_lem (and (cons r rs)) h = all_satisfied_lem (cons r rs) h
    satisfied_lem (or rs) h = any_satisfied_lem rs TriState.false h
    satisfied_lem (not r) h = rw (unsatisfiable_lem r h)
    satisfied_lem (require_group min rs) h = group_satisfied_lem rs min 0 0 (len rs) (ground arith)
    satisfied_lem (condition c) h = cc

    all_satisfied_lem :
        (rs : Requirements P)
        → all_satisfied rs ≡ true
        → value_and kleene_logic leaf rs TriState.true ≡ TriState.true
    all_satisfied_lem nil h = refl
    all_satisfied_lem (cons r rs) h = ground (arith, satisfied_lem r, all_satisfied_lem rs)

    any_satisfied_lem :
        (rs : Requirements P) (acc : TriState)
        → any_satisfied rs ≡ true
        → value_or kleene_logic leaf rs acc ≡ TriState.true
    any_satisfied_lem nil acc h = cc
    any_satisfied_lem (cons r rs) acc h = elim (Bool-cases (is_trivially_satisfied r)) [
      | inl now ↦ rw (satisfied_lem r now, kleene_or_true acc) (value_or_true rs)
      | inr later ↦ any_satisfied_lem rs (kleene_or acc (value kleene_logic leaf r)) (ground arith)
    ]

    group_satisfied_lem :
        (rs : Requirements P) (min s u total : ℕ)
        → min ≤ s + satisfied_count rs
        → value_group kleene_logic leaf rs min s u total ≡ TriState.true
    group_satisfied_lem nil min s u total h = group_true min s u total (omega arith)
    group_satisfied_lem (cons r rs) min s u total h = elim (Bool-cases (is_trivially_satisfied r)) [
      | inl now ↦
          rw (satisfied_lem r now) (group_satisfied_lem rs min (s + 1) u total (ground arith))
      | inr later ↦
          let v = value kleene_logic leaf r in
          group_satisfied_lem rs min (count_satisfied v s) (count_unknown v u) total
            (ground (arith, count_satisfied_ge v s))
    ]

    unsatisfiable_lem :
        (r : Requirement P)
        → is_trivially_unsatisfiable r ≡ true
        → value kleene_logic leaf r ≡ TriState.false
    unsatisfiable_lem (or nil) h = refl
    unsatisfiable_lem (or (cons r rs)) h = all_unsatisfiable_lem (cons r rs) h
    unsatisfiable_lem (and rs) h = any_unsatisfiable_lem rs TriState.true h
    unsatisfiable_lem (not r) h = rw (satisfied_lem r h)
    unsatisfiable_lem (require_group min rs) h =
        group_unsatisfiable_lem rs min 0 0 (len rs) (ground (arith, unsatisfiable_count-le rs))
    unsatisfiable_lem (condition c) h = cc

    all_unsatisfiable_lem :
        (rs : Requirements P)
        → all_unsatisfiable rs ≡ true
        → value_or kleene_logic leaf rs TriState.false ≡ TriState.false
    all_unsatisfiable_lem nil h = refl
    all_unsatisfiable_lem (cons r rs) h =
        ground (arith, unsatisfiable_lem r, all_unsatisfiable_lem rs)

    any_unsatisfiable_lem :
        (rs : Requirements P) (acc : TriState)
        → any_unsatisfiable rs ≡ true
        → value_and kleene_logic leaf rs acc ≡ TriState.false
    any_unsatisfiable_lem nil acc h = cc
    any_unsatisfiable_lem (cons r rs) acc h = elim (Bool-cases (is_trivially_unsatisfiable r)) [
      | inl now ↦ rw (unsatisfiable_lem r now, kleene_and_false acc) (value_and_false rs)
      | inr later ↦
          any_unsatisfiable_lem rs (kleene_and acc (value kleene_logic leaf r)) (ground arith)
    ]

    group_unsatisfiable_lem :
        (rs : Requirements P) (min s u total : ℕ)
        → s + u + len rs < min + unsatisfiable_count rs
        → value_group kleene_logic leaf rs min s u total ≡ TriState.false
    group_unsatisfiable_lem nil min s u total h = group_false min s u total (omega arith)
    group_unsatisfiable_lem (cons r rs) min s u total h =
        elim (Bool-cases (is_trivially_unsatisfiable r)) [
          | inl now ↦
              rw (unsatisfiable_lem r now) (group_unsatisfiable_lem rs min s u total (ground arith))
          | inr later ↦
              let v = value kleene_logic leaf r in
              group_unsatisfiable_lem rs min (count_satisfied v s) (count_unknown v u) total
                (ground (arith, count_sum_le v s u))
        ]

module _ {ℓ} {P : Type ℓ} (leaf : P → TriState) (r : Requirement P)
    (fits : height r ≤ max_eval_depth) where
  pub eval_tristate-value : eval_tristate kleene_logic leaf r ≡ value kleene_logic leaf r
  unfolding eval_tristate
  eval_tristate-value =
      ap (λ p. p.0) (eval_tristate_with_trace-value kleene_logic leaf noop_trace r tt fits)

-- Under Kleene's tables, within the depth limit and whatever is known of the conditions, a
-- requirement that the analysis calls trivially satisfied evaluates to true.
pub is_trivially_satisfied-eval {ℓ} :
    {P : Type ℓ} (leaf : P → TriState) (r : Requirement P)
    → height r ≤ max_eval_depth
    → is_trivially_satisfied r ≡ true
    → eval_tristate kleene_logic leaf r ≡ TriState.true
is_trivially_satisfied-eval leaf r fits h = eval_tristate-value leaf r fits ∙ satisfied_lem leaf r h

-- Under Kleene's tables, within the depth limit and whatever is known of the conditions, a
-- requirement that the analysis calls trivially unsatisfiable evaluates to false.
pub is_trivially_unsatisfiable-eval {ℓ} :
    {P : Type ℓ} (leaf : P → TriState) (r : Requirement P)
    → height r ≤ max_eval_depth
    → is_trivially_unsatisfiable r ≡ true
    → eval_tristate kleene_logic leaf r ≡ TriState.false
is_trivially_unsatisfiable-eval leaf r fits h =
    eval_tristate-value leaf r fits ∙ unsatisfiable_lem leaf r h
