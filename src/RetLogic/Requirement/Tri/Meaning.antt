-- ===== src/RetLogic/Requirement/Tri/Meaning.antt =====
-- crates/ret-logic/src/requirement.rs: the value of a tree under a logic's tables, next to the traced
-- evaluation `eval_tristate_with_depth` and its depth limit.
use native.Mathlib.Decide.{dec_lt}
use decision_gate.Prelude.{
  ℕ, suc, ◌+◌, ◌≤◌, ◌<◌, ◌≡◌, refl, Bool-cases, inl, inr, arith, ltb, ltb-ge, saturating_add,
  usize_max, List, [], ◌∷◌, ◌++◌,
}
use decision_gate.Prelude.Outcome.{ok, err}
use decision_gate.Prelude.Action.{◌>>=◌}
use decision_gate.RetLogic.TriState.{TriState, TriLogic}
use decision_gate.RetLogic.Requirement.{
  Requirement, Requirements, and, or, not, require_group, condition, nil, cons, len,
  eval_depth_exceeded, max_eval_depth,
}
use decision_gate.RetLogic.Requirement.Shape.{height, height_all, leaves, leaves_all}
use decision_gate.RetLogic.Requirement.Tri.{
  eval_tristate_with_depth, eval_and, eval_or, eval_counts, count_satisfied, count_unknown,
  eval_tristate, eval_tristate_with_trace, noop_trace,
}

module _ {ℓ} {P : Type ℓ} (logic : TriLogic) (leaf : P → TriState) where
  -- The value of a tree, with neither depth nor trace.
  unfoldable mutual
    pub value : Requirement P → TriState
    value (condition c) = leaf c
    value (not r) = logic.not (value r)
    value (and rs) = value_and rs TriState.true
    value (or rs) = value_or rs TriState.false
    value (require_group min rs) = value_group rs min 0 0 (len rs)

    pub value_and : Requirements P → TriState → TriState
    value_and nil acc = acc
    value_and (cons r rs) acc = value_and rs (logic.and acc (value r))

    pub value_or : Requirements P → TriState → TriState
    value_or nil acc = acc
    value_or (cons r rs) acc = value_or rs (logic.or acc (value r))

    pub value_group : Requirements P → ℕ → ℕ → ℕ → ℕ → TriState
    value_group nil min s u total =
        logic.group min (record { satisfied = s; unknown = u; total = total })
    value_group (cons r rs) min s u total =
        let v = value r in value_group rs min (count_satisfied v s) (count_unknown v u) total

module _ {ℓ κ} {P : Type ℓ} {T : Type κ} (leaf : P → TriState) (hook : P → TriState → T → T) where
  -- The trace after the conditions `cs` were evaluated in this order.
  abbrev pub record_all : List P → T → T
  record_all [] t = t
  record_all (c ∷ cs) t = record_all cs (hook c (leaf c) t)

  pub record_all-append :
      (xs ys : List P) (t : T) → record_all (xs ++ ys) t ≡ record_all ys (record_all xs t)
  record_all-append [] ys t = refl
  record_all-append (x ∷ xs) ys t = record_all-append xs ys (hook x (leaf x) t)

module _ {ℓ κ} {P : Type ℓ} {T : Type κ} (logic : TriLogic) (leaf : P → TriState)
    (hook : P → TriState → T → T) (max_depth : ℕ) (small : max_depth < usize_max) where
  mutual
    unfolding eval_tristate_with_depth value leaves height ◌>>=◌

    depth_lem :
        (r : Requirement P) (depth : ℕ) (t : T)
        → depth + height r ≤ max_depth
        → eval_tristate_with_depth logic leaf hook r depth max_depth t
          ≡ (ok (value logic leaf r), record_all leaf hook (leaves r) t)
    depth_lem (condition c) depth t h = ground arith
    depth_lem (not r) depth t h =
        ground (arith, depth_lem r (saturating_add depth 1) t (omega arith))
    depth_lem (and rs) depth t h = ground (arith, and_lem rs TriState.true depth t h)
    depth_lem (or rs) depth t h = ground (arith, or_lem rs TriState.false depth t h)
    depth_lem (require_group min rs) depth t h =
        ground (arith, counts_lem rs min 0 0 (len rs) depth t h)

    and_lem :
        (rs : Requirements P) (acc : TriState) (depth : ℕ) (t : T)
        → depth + height_all rs ≤ max_depth
        → eval_and logic leaf hook rs acc (saturating_add depth 1) max_depth t
          ≡ (ok (value_and logic leaf rs acc), record_all leaf hook (leaves_all rs) t)
    and_lem nil acc depth t h = refl
    and_lem (cons r rs) acc depth t h =
        rw
          (
            depth_lem r (saturating_add depth 1) t (omega arith),
            record_all-append leaf hook (leaves r) (leaves_all rs) t,
          )
          (and_lem rs (logic.and acc (value logic leaf r)) depth (record_all leaf hook (leaves r) t)
            (omega arith))

    or_lem :
        (rs : Requirements P) (acc : TriState) (depth : ℕ) (t : T)
        → depth + height_all rs ≤ max_depth
        → eval_or logic leaf hook rs acc (saturating_add depth 1) max_depth t
          ≡ (ok (value_or logic leaf rs acc), record_all leaf hook (leaves_all rs) t)
    or_lem nil acc depth t h = refl
    or_lem (cons r rs) acc depth t h =
        rw
          (
            depth_lem r (saturating_add depth 1) t (omega arith),
            record_all-append leaf hook (leaves r) (leaves_all rs) t,
          )
          (or_lem rs (logic.or acc (value logic leaf r)) depth (record_all leaf hook (leaves r) t)
            (omega arith))

    counts_lem :
        (rs : Requirements P) (min s u total depth : ℕ) (t : T)
        → depth + height_all rs ≤ max_depth
        → eval_counts logic leaf hook rs min s u total (saturating_add depth 1) max_depth t
          ≡ (ok (value_group logic leaf rs min s u total), record_all leaf hook (leaves_all rs) t)
    counts_lem nil min s u total depth t h = refl
    counts_lem (cons r rs) min s u total depth t h =
        rw
          (
            depth_lem r (saturating_add depth 1) t (omega arith),
            record_all-append leaf hook (leaves r) (leaves_all rs) t,
          )
          (counts_lem rs min (count_satisfied (value logic leaf r) s)
            (count_unknown (value logic leaf r) u) total depth (record_all leaf hook (leaves r) t)
            (omega arith))

  mutual
    unfolding eval_tristate_with_depth height ◌>>=◌

    too_deep :
        (r : Requirement P) (depth : ℕ) (t : T)
        → max_depth < depth + height r
        → (eval_tristate_with_depth logic leaf hook r depth max_depth t).0 ≡ err eval_depth_exceeded
    too_deep (condition c) depth t h = ground arith
    too_deep (not r) depth t h = elim (Bool-cases (ltb max_depth depth)) [
      | inl deep ↦ rw deep
      | inr fits ↦ rw fits (rw (too_deep r (saturating_add depth 1) t (ground arith)))
    ]
    too_deep (and rs) depth t h = elim (Bool-cases (ltb max_depth depth)) [
      | inl deep ↦ rw deep
      | inr fits ↦ rw fits (and_deep rs TriState.true depth t (ltb-ge _ _ fits) h)
    ]
    too_deep (or rs) depth t h = elim (Bool-cases (ltb max_depth depth)) [
      | inl deep ↦ rw deep
      | inr fits ↦ rw fits (or_deep rs TriState.false depth t (ltb-ge _ _ fits) h)
    ]
    too_deep (require_group min rs) depth t h = elim (Bool-cases (ltb max_depth depth)) [
      | inl deep ↦ rw deep
      | inr fits ↦ rw fits (counts_deep rs min 0 0 (len rs) depth t (ltb-ge _ _ fits) h)
    ]

    and_deep :
        (rs : Requirements P) (acc : TriState) (depth : ℕ) (t : T)
        → depth ≤ max_depth
        → max_depth < depth + height_all rs
        → (eval_and logic leaf hook rs acc (saturating_add depth 1) max_depth t).0
          ≡ err eval_depth_exceeded
    and_deep nil acc depth t d h = absurd (omega arith)
    and_deep (cons r rs) acc depth t d h = elim (dec_lt max_depth (depth + suc (height r))) [
      | yes deep ↦ rw (too_deep r (saturating_add depth 1) t (omega arith))
      | no fits ↦ rw (depth_lem r (saturating_add depth 1) t (omega arith)) (
          and_deep rs (logic.and acc (value logic leaf r)) depth (record_all leaf hook (leaves r) t)
            d (omega arith))
    ]

    or_deep :
        (rs : Requirements P) (acc : TriState) (depth : ℕ) (t : T)
        → depth ≤ max_depth
        → max_depth < depth + height_all rs
        → (eval_or logic leaf hook rs acc (saturating_add depth 1) max_depth t).0
          ≡ err eval_depth_exceeded
    or_deep nil acc depth t d h = absurd (omega arith)
    or_deep (cons r rs) acc depth t d h = elim (dec_lt max_depth (depth + suc (height r))) [
      | yes deep ↦ rw (too_deep r (saturating_add depth 1) t (omega arith))
      | no fits ↦ rw (depth_lem r (saturating_add depth 1) t (omega arith)) (
          or_deep rs (logic.or acc (value logic leaf r)) depth (record_all leaf hook (leaves r) t) d
            (omega arith))
    ]

    counts_deep :
        (rs : Requirements P) (min s u total depth : ℕ) (t : T)
        → depth ≤ max_depth
        → max_depth < depth + height_all rs
        → (eval_counts logic leaf hook rs min s u total (saturating_add depth 1) max_depth t).0
          ≡ err eval_depth_exceeded
    counts_deep nil min s u total depth t d h = absurd (omega arith)
    counts_deep (cons r rs) min s u total depth t d h =
        elim (dec_lt max_depth (depth + suc (height r))) [
          | yes deep ↦ rw (too_deep r (saturating_add depth 1) t (omega arith))
          | no fits ↦ rw (depth_lem r (saturating_add depth 1) t (omega arith)) (
              counts_deep rs min (count_satisfied (value logic leaf r) s)
                (count_unknown (value logic leaf r) u) total depth
                (record_all leaf hook (leaves r) t) d (omega arith))
        ]

  pub depth-value :
      (r : Requirement P) (depth : ℕ) (t : T)
      → depth + height r ≤ max_depth
      → eval_tristate_with_depth logic leaf hook r depth max_depth t
        ≡ (ok (value logic leaf r), record_all leaf hook (leaves r) t)
  depth-value r depth t h = depth_lem r depth t h

  pub depth-too_deep :
      (r : Requirement P) (depth : ℕ) (t : T)
      → max_depth < depth + height r
      → (eval_tristate_with_depth logic leaf hook r depth max_depth t).0 ≡ err eval_depth_exceeded
  depth-too_deep r depth t h = too_deep r depth t h

-- Up to the depth limit the traced evaluation returns the value of the tree under the logic's tables,
-- visits every condition once for each place in the tree, from left to right and with no short
-- circuit, and hands each with its value to the hook.
pub eval_tristate_with_trace-value {ℓ κ} :
    {P : Type ℓ} {T : Type κ} (logic : TriLogic) (leaf : P → TriState) (hook : P → TriState → T → T)
    (r : Requirement P) (t : T)
    → height r ≤ max_eval_depth
    → eval_tristate_with_trace logic leaf hook r t
      ≡ (value logic leaf r, record_all leaf hook (leaves r) t)
unfolding eval_tristate_with_trace
eval_tristate_with_trace-value logic leaf hook r t h =
    rw (depth-value logic leaf hook max_eval_depth (omega arith) r 0 t (omega arith))

-- Beyond the depth limit the verdict is unknown, whatever the conditions say.
pub eval_tristate-too_deep {ℓ} :
    {P : Type ℓ} (logic : TriLogic) (leaf : P → TriState) (r : Requirement P)
    → max_eval_depth < height r
    → eval_tristate logic leaf r ≡ TriState.unknown
unfolding eval_tristate eval_tristate_with_trace
eval_tristate-too_deep logic leaf r h =
    rw (depth-too_deep logic leaf noop_trace max_eval_depth (omega arith) r 0 tt (omega arith))
