-- ===== src/RetLogic/Requirement/Eval/Correct.antt =====
-- crates/ret-logic/src/requirement.rs: `eval` and `eval_with_depth` next to the Boolean meaning.
use decision_gate.Prelude.{
  ℕ, suc, ◌+◌, ◌-◌, ◌≤◌, ◌<◌, ◌≡◌, refl, Bool, arith, leb, if◌then◌else◌, usize_max, saturating_add,
}
use decision_gate.Prelude.Outcome.{ok}
use decision_gate.RetLogic.Requirement.{
  Requirement, Requirements, and, or, not, require_group, condition, nil, cons, len, max_eval_depth,
}
use decision_gate.RetLogic.Requirement.Shape.{
  height, holds, holding, all_hold, some_holds, height_all,
}
use decision_gate.RetLogic.Requirement.Eval.{eval, eval_with_depth, eval_all, eval_any, eval_group}

pred_len {ℓ} : {P : Type ℓ} (rs : Requirements P) → suc (len rs) - 1 ≡ len rs
pred_len rs = omega arith

module _ {ℓ} {P : Type ℓ} (leaf : P → Bool) (max_depth : ℕ) (small : max_depth < usize_max) where
  holding-le-len : (rs : Requirements P) → holding leaf rs ≤ len rs
  unfolding holding
  holding-le-len nil = omega arith
  holding-le-len (cons r rs) = ground (arith, holding-le-len rs)

  mutual
    unfolding height holds eval_with_depth

    eval_with_depth_lem :
        (r : Requirement P) (depth : ℕ)
        → depth + height r ≤ max_depth
        → eval_with_depth leaf r depth max_depth ≡ ok (holds leaf r)
    eval_with_depth_lem (condition c) depth h = ground arith
    eval_with_depth_lem (not r) depth h =
        ground (arith, eval_with_depth_lem r (saturating_add depth 1) (omega arith))
    eval_with_depth_lem (and rs) depth h = ground (arith, eval_all_lem rs depth h)
    eval_with_depth_lem (or rs) depth h = ground (arith, eval_any_lem rs depth h)
    eval_with_depth_lem (require_group min rs) depth h =
        ground (arith, eval_group_lem rs min 0 depth h)

    eval_all_lem :
        (rs : Requirements P) (depth : ℕ)
        → depth + height_all rs ≤ max_depth
        → eval_all leaf rs (saturating_add depth 1) max_depth ≡ ok (all_hold leaf rs)
    eval_all_lem nil depth h = refl
    eval_all_lem (cons r rs) depth h = ground (
      arith,
      eval_with_depth_lem r (saturating_add depth 1) (omega arith),
      eval_all_lem rs depth (omega arith),
    )

    eval_any_lem :
        (rs : Requirements P) (depth : ℕ)
        → depth + height_all rs ≤ max_depth
        → eval_any leaf rs (saturating_add depth 1) max_depth ≡ ok (some_holds leaf rs)
    eval_any_lem nil depth h = refl
    eval_any_lem (cons r rs) depth h = ground (
      arith,
      eval_with_depth_lem r (saturating_add depth 1) (omega arith),
      eval_any_lem rs depth (omega arith),
    )

    eval_group_lem :
        (rs : Requirements P) (min satisfied depth : ℕ)
        → depth + height_all rs ≤ max_depth
        → eval_group leaf rs min satisfied (len rs) (saturating_add depth 1) max_depth
          ≡ ok (leb min (satisfied + holding leaf rs))
    eval_group_lem nil min satisfied depth h = ground arith
    eval_group_lem (cons r rs) min satisfied depth h = ground (
      arith,
      pred_len rs,
      holding-le-len rs,
      eval_with_depth_lem r (saturating_add depth 1) (omega arith),
      eval_group_lem rs min (if holds leaf r then satisfied + 1 else satisfied) depth (omega arith),
    )

  -- Within the limit on depth the short-circuiting evaluator computes the meaning.
  pub eval_with_depth-holds :
      (r : Requirement P) (depth : ℕ)
      → depth + height r ≤ max_depth
      → eval_with_depth leaf r depth max_depth ≡ ok (holds leaf r)
  eval_with_depth-holds r depth h = eval_with_depth_lem r depth h

-- A tree of height at most `MAX_EVAL_DEPTH` evaluates to its Boolean meaning: short circuits and
-- the early exits of groups never change the answer.
pub eval-holds {ℓ} :
    {P : Type ℓ} (leaf : P → Bool) (r : Requirement P)
    → height r ≤ max_eval_depth
    → eval leaf r ≡ holds leaf r
unfolding eval
eval-holds leaf r h = rw (eval_with_depth-holds leaf max_eval_depth (omega arith) r 0 (omega arith))
