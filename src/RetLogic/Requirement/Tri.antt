-- ===== src/RetLogic/Requirement/Tri.antt =====
-- The tri-state evaluator of crates/ret-logic/src/requirement.rs (`eval_tristate`,
-- `eval_tristate_with_trace`, `eval_tristate_with_depth`). `leaf` is
-- `condition.eval_row_tristate(reader, row)`; the trace hook works on a state of type `T`, which
-- keeps what was recorded before a depth error. Each `for` loop is a function of the block.
pub mod Meaning
pub mod Known
pub mod Monotone
use decision_gate.Prelude.{ℕ, suc, ◌+◌, ltb, if◌then◌else◌, saturating_add}
use decision_gate.Prelude.Outcome.{Outcome, ok, err}
use decision_gate.Prelude.Action.{Action, pure, raise, ◌>>=◌}
use decision_gate.RetLogic.TriState.{TriState, TriLogic, GroupCounts}
use decision_gate.RetLogic.Requirement.{
  Requirement, Requirements, and, or, not, require_group, condition, nil, cons, len,
  EvalDepthExceeded, eval_depth_exceeded, max_eval_depth,
}

-- `match result { True => satisfied += 1, Unknown => unknown += 1, False => {} }`
abbrev pub count_satisfied : TriState → ℕ → ℕ
count_satisfied TriState.true n = n + 1
count_satisfied _ n = n

abbrev pub count_unknown : TriState → ℕ → ℕ
count_unknown TriState.unknown n = n + 1
count_unknown _ n = n

-- `unwrap_or(TriState::Unknown)`
abbrev pub or_unknown : Outcome EvalDepthExceeded TriState → TriState
or_unknown (ok v) = v
or_unknown (err e) = TriState.unknown

module _ {ℓ κ} {P : Type ℓ} {T : Type κ} (logic : TriLogic) (leaf : P → TriState)
    (hook : P → TriState → T → T) where
  abbrev pub Eval : Type κ
  Eval = Action EvalDepthExceeded T TriState

  abbrev pub within : ℕ → ℕ → Eval → Eval
  within depth max_depth rest = if ltb max_depth depth then raise eval_depth_exceeded else rest

  abbrev pub evaluate_condition : P → Eval
  evaluate_condition c trace = (ok (leaf c), hook c (leaf c) trace)

  unfoldable mutual
    pub eval_tristate_with_depth : Requirement P → ℕ → ℕ → Eval
    eval_tristate_with_depth (condition c) depth max_depth =
        within depth max_depth (evaluate_condition c)
    eval_tristate_with_depth (not r) depth max_depth =
        within depth max_depth
          do v ← eval_tristate_with_depth r (saturating_add depth 1) max_depth; pure (logic.not v)
    eval_tristate_with_depth (and rs) depth max_depth =
        within depth max_depth (eval_and rs TriState.true (saturating_add depth 1) max_depth)
    eval_tristate_with_depth (or rs) depth max_depth =
        within depth max_depth (eval_or rs TriState.false (saturating_add depth 1) max_depth)
    eval_tristate_with_depth (require_group min rs) depth max_depth =
        within depth max_depth (eval_counts rs min 0 0 (len rs) (saturating_add depth 1) max_depth)

    pub eval_and : Requirements P → TriState → ℕ → ℕ → Eval
    eval_and nil acc depth max_depth = pure acc
    eval_and (cons r rs) acc depth max_depth = do
      v ← eval_tristate_with_depth r depth max_depth
      eval_and rs (logic.and acc v) depth max_depth

    pub eval_or : Requirements P → TriState → ℕ → ℕ → Eval
    eval_or nil acc depth max_depth = pure acc
    eval_or (cons r rs) acc depth max_depth = do
      v ← eval_tristate_with_depth r depth max_depth
      eval_or rs (logic.or acc v) depth max_depth

    pub eval_counts : Requirements P → ℕ → ℕ → ℕ → ℕ → ℕ → ℕ → Eval
    eval_counts nil min satisfied unknown total depth max_depth =
        pure (logic.group min (record { satisfied = satisfied; unknown = unknown; total = total }))
    eval_counts (cons r rs) min satisfied unknown total depth max_depth = do
      v ← eval_tristate_with_depth r depth max_depth
      eval_counts rs min (count_satisfied v satisfied) (count_unknown v unknown) total depth
          max_depth

  -- The value, and the trace after the evaluation.
  unfoldable pub eval_tristate_with_trace : Requirement P → T → TriState × T
  eval_tristate_with_trace r trace =
      let (v, trace') = eval_tristate_with_depth r 0 max_eval_depth trace in (or_unknown v, trace')

-- `NoopTrace`
abbrev pub noop_trace {ℓ} : {P : Type ℓ} → P → TriState → Unit {0} → Unit {0}
noop_trace c v trace = trace

unfoldable pub eval_tristate {ℓ} :
    {P : Type ℓ} → TriLogic → (P → TriState) → Requirement P → TriState
eval_tristate logic leaf r = (eval_tristate_with_trace logic leaf noop_trace r tt).0
