-- ===== src/RetLogic/Requirement/Tri/Monotone.antt =====
-- crates/ret-logic/src/requirement.rs: two runs of `eval_tristate`, on evidence or in logics that the
-- information order compares.
use decision_gate.Prelude.{ℕ, ◌+◌, ◌≤◌, arith, saturating_add, Bool-cases, inl, inr, ltb}
use decision_gate.Prelude.Outcome.{Outcome, ok, err}
use decision_gate.Prelude.Action.{Action, proceed, ◌>>=◌}
use decision_gate.RetLogic.TriState.{
  TriState, TriLogic, LogicMode, logic_of, kleene_logic, bochvar_logic,
}
use decision_gate.RetLogic.TriState.Order.{◌⊑◌, ⊑_refl, Refines, Refines-refl, Refines-bochvar}
use decision_gate.RetLogic.Requirement.{
  Requirement, Requirements, and, or, not, require_group, condition, nil, cons, len,
  EvalDepthExceeded, max_eval_depth,
}
use decision_gate.RetLogic.Requirement.Tri.{
  eval_tristate_with_depth, eval_and, eval_or, eval_counts, count_satisfied, count_unknown,
  eval_tristate, eval_tristate_with_trace, or_unknown, noop_trace,
}

-- Two evaluations of which the second is at least as settled.
abbrev Below : Outcome EvalDepthExceeded TriState → Outcome EvalDepthExceeded TriState → Type 0
Below (ok a) (ok b) = a ⊑ b
Below (err e) (err e') = Unit
Below _ _ = ⊥

counts_step :
    (v w : TriState) (s u s' u' : ℕ)
    → v ⊑ w
    → s ≤ s'
    → s' + u' ≤ s + u
    → (count_satisfied v s ≤ count_satisfied w s')
      × (count_satisfied w s' + count_unknown w u' ≤ count_satisfied v s + count_unknown v u)
counts_step v w s u s' u' p q h = ground arith

abbrev Eval {κ} : Type κ → Type κ
Eval T = Action EvalDepthExceeded T TriState

proceed-Below {κ} :
    {T : Type κ} (r r' : Outcome EvalDepthExceeded TriState) (f g : TriState → Eval T) (t t' : T)
    → Below r r'
    → ((v w : TriState) (u u' : T) → v ⊑ w → Below (f v u).0 (g w u').0)
    → Below (proceed r f t).0 (proceed r' g t').0
proceed-Below (ok v) (ok w) f g t t' h k = k v w t t' h
proceed-Below (err e) (err e') f g t t' h k = tt
proceed-Below (ok v) (err e') f g t t' h k = absurd h
proceed-Below (err e) (ok w) f g t t' h k = absurd h

module _ {ℓ κ} {P : Type ℓ} {T : Type κ} {weak strong : TriLogic} (refines : Refines weak strong)
    (leaf leaf' : P → TriState) (below : (c : P) → leaf c ⊑ leaf' c) (hook : P → TriState → T → T)
    (max_depth : ℕ) where
  mutual
    unfolding eval_tristate_with_depth ◌>>=◌

    depth-Below :
        (r : Requirement P) (depth : ℕ) (t t' : T)
        → Below
            (eval_tristate_with_depth weak leaf hook r depth max_depth t).0
            (eval_tristate_with_depth strong leaf' hook r depth max_depth t').0
    depth-Below (condition c) depth t t' = ground (arith, below c)
    depth-Below (not r) depth t t' = elim (Bool-cases (ltb max_depth depth)) [
      | inl deep ↦ rw deep tt
      | inr fits ↦ rw fits (
          proceed-Below _ _ _ _ _ _ (depth-Below r (saturating_add depth 1) t t')
            (λ v w u u' h. refines.not_below v w h))
    ]
    depth-Below (and rs) depth t t' = ground (
      arith,
      and_Below rs TriState.true TriState.true (saturating_add depth 1) t t' (⊑_refl TriState.true),
    )
    depth-Below (or rs) depth t t' = ground (
      arith,
      or_Below rs TriState.false TriState.false (saturating_add depth 1) t t'
          (⊑_refl TriState.false),
    )
    depth-Below (require_group min rs) depth t t' = ground (
      arith,
      counts-Below rs min 0 0 0 0 (len rs) (saturating_add depth 1) t t' (omega arith)
          (omega arith),
    )

    and_Below :
        (rs : Requirements P) (a b : TriState) (depth : ℕ) (t t' : T)
        → a ⊑ b
        → Below
            (eval_and weak leaf hook rs a depth max_depth t).0
            (eval_and strong leaf' hook rs b depth max_depth t').0
    and_Below nil a b depth t t' h = h
    and_Below (cons r rs) a b depth t t' h =
        proceed-Below _ _ _ _ _ _ (depth-Below r depth t t') (λ v w u u' k.
          and_Below rs (weak.and a v) (strong.and b w) depth u u' (refines.and_below a v b w h k))

    or_Below :
        (rs : Requirements P) (a b : TriState) (depth : ℕ) (t t' : T)
        → a ⊑ b
        → Below
            (eval_or weak leaf hook rs a depth max_depth t).0
            (eval_or strong leaf' hook rs b depth max_depth t').0
    or_Below nil a b depth t t' h = h
    or_Below (cons r rs) a b depth t t' h =
        proceed-Below _ _ _ _ _ _ (depth-Below r depth t t') (λ v w u u' k.
          or_Below rs (weak.or a v) (strong.or b w) depth u u' (refines.or_below a v b w h k))

    counts-Below :
        (rs : Requirements P) (min s u s' u' total depth : ℕ) (t t' : T)
        → s ≤ s'
        → s' + u' ≤ s + u
        → Below
            (eval_counts weak leaf hook rs min s u total depth max_depth t).0
            (eval_counts strong leaf' hook rs min s' u' total depth max_depth t').0
    counts-Below nil min s u s' u' total depth t t' p q =
        refines.group_below min s u s' u' total p q
    counts-Below (cons r rs) min s u s' u' total depth t t' p q =
        proceed-Below _ _ _ _ _ _ (depth-Below r depth t t') (λ v w x x' k.
          counts-Below rs min (count_satisfied v s) (count_unknown v u) (count_satisfied w s')
            (count_unknown w u') total depth x x' (counts_step v w s u s' u' k p q).0
            (counts_step v w s u s' u' k p q).1)

or_unknown-⊑ :
    (r r' : Outcome EvalDepthExceeded TriState) → Below r r' → or_unknown r ⊑ or_unknown r'
or_unknown-⊑ (ok v) (ok w) h = h
or_unknown-⊑ (err e) (err e') h = tt
or_unknown-⊑ (ok v) (err e') h = absurd h
or_unknown-⊑ (err e) (ok w) h = absurd h

module _ {ℓ} {P : Type ℓ} where
  eval_tristate_below :
      {weak strong : TriLogic} (refines : Refines weak strong) (leaf leaf' : P → TriState)
      → ((c : P) → leaf c ⊑ leaf' c)
      → (r : Requirement P) → eval_tristate weak leaf r ⊑ eval_tristate strong leaf' r
  unfolding eval_tristate eval_tristate_with_trace
  eval_tristate_below refines leaf leaf' below r =
      or_unknown-⊑ _ _ (depth-Below refines leaf leaf' below noop_trace max_eval_depth r 0 tt tt)

  pub eval_tristate_with_trace-⊑ {κ} :
      {T : Type κ} (m : LogicMode) (leaf leaf' : P → TriState) (hook : P → TriState → T → T)
      (r : Requirement P) (t t' : T)
      → ((c : P) → leaf c ⊑ leaf' c)
      → (eval_tristate_with_trace (logic_of m) leaf hook r t).0
        ⊑ (eval_tristate_with_trace (logic_of m) leaf' hook r t').0
  unfolding eval_tristate_with_trace
  eval_tristate_with_trace-⊑ m leaf leaf' hook r t t' below =
      or_unknown-⊑ _ _ (depth-Below (Refines-refl m) leaf leaf' below hook max_eval_depth r 0 t t')

  -- In either logic mode, and for a tree of any shape and depth: if every condition keeps the value
  -- that it had settled, so does the requirement. Evidence that arrives later never retracts a
  -- verdict, and evidence that is withheld can only turn a verdict into unknown.
  pub eval_tristate-⊑ :
      (m : LogicMode) (leaf leaf' : P → TriState) (r : Requirement P)
      → ((c : P) → leaf c ⊑ leaf' c)
      → eval_tristate (logic_of m) leaf r ⊑ eval_tristate (logic_of m) leaf' r
  eval_tristate-⊑ m leaf leaf' r below = eval_tristate_below (Refines-refl m) leaf leaf' below r

  -- On the same evidence, what Bochvar's tables settle Kleene's tables settle alike.
  pub bochvar-⊑-kleene :
      (leaf : P → TriState) (r : Requirement P)
      → eval_tristate bochvar_logic leaf r ⊑ eval_tristate kleene_logic leaf r
  bochvar-⊑-kleene leaf r = eval_tristate_below Refines-bochvar leaf leaf (λ c. ⊑_refl (leaf c)) r
