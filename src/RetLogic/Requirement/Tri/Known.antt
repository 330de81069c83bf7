-- ===== src/RetLogic/Requirement/Tri/Known.antt =====
-- crates/ret-logic/src/requirement.rs: `eval_tristate` next to `eval` on known conditions.
use mathlib.Core.Bool
use decision_gate.Prelude.{ℕ, ◌+◌, ◌≤◌, ◌≡◌, refl, sym, ◌∙◌, ap, Bool, arith, leb, if◌then◌else◌}
use decision_gate.RetLogic.TriState.{
  TriState, LogicMode, logic_of, from_bool, require_group as group_rule,
}
use decision_gate.RetLogic.Requirement.{
  Requirement, Requirements, and, or, not, require_group, condition, nil, cons, len, max_eval_depth,
}
use decision_gate.RetLogic.Requirement.Shape.{height, holds, all_hold, some_holds, holding}
use decision_gate.RetLogic.Requirement.Eval.{eval}
use decision_gate.RetLogic.Requirement.Eval.Correct.{eval-holds}
use decision_gate.RetLogic.Requirement.Tri.{eval_tristate, noop_trace}
use decision_gate.RetLogic.Requirement.Tri.Meaning.{
  value, value_and, value_or, value_group, eval_tristate_with_trace-value,
}

not_known : (m : LogicMode) (b : Bool) → (logic_of m).not (from_bool b) ≡ from_bool (Bool.not b)
not_known m b = ground arith

and_known :
    (m : LogicMode) (a b : Bool)
    → (logic_of m).and (from_bool a) (from_bool b) ≡ from_bool (Bool.◌&&◌ a b)
and_known m a b = ground arith

or_known :
    (m : LogicMode) (a b : Bool)
    → (logic_of m).or (from_bool a) (from_bool b) ≡ from_bool (Bool.◌||◌ a b)
or_known m a b = ground arith

group_known :
    (m : LogicMode) (min s total : ℕ)
    → (logic_of m).group min (record { satisfied = s; unknown = 0; total = total })
      ≡ from_bool (leb min s)
unfolding group_rule
group_known m min s total = ground arith

module _ {ℓ} {P : Type ℓ} (m : LogicMode) (leaf : P → Bool) where
  abbrev known : P → TriState
  known c = from_bool (leaf c)

  mutual
    unfolding value holds

    value-known : (r : Requirement P) → value (logic_of m) known r ≡ from_bool (holds leaf r)
    value-known (condition c) = refl
    value-known (not r) = rw (value-known r) (not_known m (holds leaf r))
    value-known (and rs) = value_and-known rs Bool.true
    value-known (or rs) = value_or-known rs Bool.false
    value-known (require_group min rs) = ground (arith, value_group-known rs min 0 (len rs))

    value_and-known :
        (rs : Requirements P) (acc : Bool)
        → value_and (logic_of m) known rs (from_bool acc)
          ≡ from_bool (Bool.◌&&◌ acc (all_hold leaf rs))
    value_and-known nil acc = ground arith
    value_and-known (cons r rs) acc =
        rw
          (
            value-known r,
            and_known m acc (holds leaf r),
            value_and-known rs (Bool.◌&&◌ acc (holds leaf r)),
          )
          (ground arith)

    value_or-known :
        (rs : Requirements P) (acc : Bool)
        → value_or (logic_of m) known rs (from_bool acc)
          ≡ from_bool (Bool.◌||◌ acc (some_holds leaf rs))
    value_or-known nil acc = ground arith
    value_or-known (cons r rs) acc =
        rw
          (
            value-known r,
            or_known m acc (holds leaf r),
            value_or-known rs (Bool.◌||◌ acc (holds leaf r)),
          )
          (ground arith)

    value_group-known :
        (rs : Requirements P) (min s total : ℕ)
        → value_group (logic_of m) known rs min s 0 total
          ≡ from_bool (leb min (s + holding leaf rs))
    value_group-known nil min s total = rw (group_known m min s total) (ground arith)
    value_group-known (cons r rs) min s total =
        ground
          (arith, value-known r, value_group-known rs min (if holds leaf r then s + 1 else s) total)

-- In either logic mode, for a tree within the depth limit: where every condition is known, the
-- tri-state verdict is the Boolean verdict of the short-circuiting evaluator.
pub eval_tristate-eval {ℓ} :
    {P : Type ℓ} (m : LogicMode) (leaf : P → Bool) (r : Requirement P)
    → height r ≤ max_eval_depth
    → eval_tristate (logic_of m) (λ c. from_bool (leaf c)) r ≡ from_bool (eval leaf r)
unfolding eval_tristate
eval_tristate-eval m leaf r h =
    ap (λ p. p.0) (eval_tristate_with_trace-value (logic_of m) (known m leaf) noop_trace r tt h)
    ∙ value-known m leaf r
    ∙ ap from_bool (sym (eval-holds leaf r h))
