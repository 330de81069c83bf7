-- ===== src/RetLogic/Requirement/Eval.antt =====
-- The short-circuiting Boolean evaluator of crates/ret-logic/src/requirement.rs (`eval`,
-- `eval_with_depth`). `leaf` is `condition.eval_row(reader, row)` at the reader and row of the call,
-- which the recursion passes on unchanged. Each `for` loop is a function of the block.
pub mod Correct
use mathlib.Core.Bool
use decision_gate.Prelude.{
  ℕ, ◌+◌, ◌-◌, Bool, true, false, ltb, leb, if◌then◌else◌, saturating_add, usize_max,
}
use decision_gate.Prelude.Outcome.{Outcome, ok, err, ◌>>=◌}
use decision_gate.RetLogic.Requirement.{
  Requirement, Requirements, and, or, not, require_group, condition, nil, cons, len,
  EvalDepthExceeded, eval_depth_exceeded, max_eval_depth,
}

abbrev pub Answer : Type 0
Answer = Outcome EvalDepthExceeded Bool

-- `if depth > max_depth { return Err(EvalDepthExceeded) }`
abbrev pub within {ℓ} :
    {A : Type ℓ} → ℕ → ℕ → Outcome EvalDepthExceeded A → Outcome EvalDepthExceeded A
within depth max_depth rest = if ltb max_depth depth then err eval_depth_exceeded else rest

module _ {ℓ} {P : Type ℓ} (leaf : P → Bool) where
  unfoldable mutual
    pub eval_with_depth : Requirement P → ℕ → ℕ → Answer
    eval_with_depth (condition c) depth max_depth = within depth max_depth (ok (leaf c))
    eval_with_depth (not r) depth max_depth =
        within depth max_depth
          do b ← eval_with_depth r (saturating_add depth 1) max_depth; ok (Bool.not b)
    eval_with_depth (and rs) depth max_depth =
        within depth max_depth (eval_all rs (saturating_add depth 1) max_depth)
    eval_with_depth (or rs) depth max_depth =
        within depth max_depth (eval_any rs (saturating_add depth 1) max_depth)
    eval_with_depth (require_group min rs) depth max_depth =
        within depth max_depth (eval_group rs min 0 (len rs) (saturating_add depth 1) max_depth)

    -- AND: exit on the first failure.
    pub eval_all : Requirements P → ℕ → ℕ → Answer
    eval_all nil depth max_depth = ok true
    eval_all (cons r rs) depth max_depth = do
      b ← eval_with_depth r depth max_depth
      let rest = eval_all rs depth max_depth
      if b then rest else ok false

    -- OR: exit on the first success.
    pub eval_any : Requirements P → ℕ → ℕ → Answer
    eval_any nil depth max_depth = ok false
    eval_any (cons r rs) depth max_depth = do
      b ← eval_with_depth r depth max_depth
      let rest = eval_any rs depth max_depth
      if b then ok true else rest

    -- The group loop over `satisfied` and `remaining`, with its two early exits.
    pub eval_group : Requirements P → ℕ → ℕ → ℕ → ℕ → ℕ → Answer
    eval_group nil min satisfied remaining depth max_depth = ok (leb min satisfied)
    eval_group (cons r rs) min satisfied remaining depth max_depth = do
      b ← eval_with_depth r depth max_depth
      let now = if b then satisfied + 1 else satisfied
      let rest = eval_group rs min now (remaining - 1) depth max_depth
      let left = if ltb (now + (remaining - 1)) min then ok false else rest
      if Bool.◌&&◌ b (leb min now) then ok true else left

-- `unwrap_or(false)`
abbrev pub or_false : Answer → Bool
or_false (ok b) = b
or_false (err e) = false

unfoldable pub eval {ℓ} : {P : Type ℓ} → (P → Bool) → Requirement P → Bool
eval leaf r = or_false (eval_with_depth leaf r 0 max_eval_depth)
