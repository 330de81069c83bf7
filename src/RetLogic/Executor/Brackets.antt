-- ===== src/RetLogic/Executor/Brackets.antt =====
-- crates/ret-logic/src/executor.rs: plans whose group operations do not match.
use decision_gate.Prelude.{
  ℕ, ◌+◌, ◌≡◌, refl, List, [], ◌∷◌, length, Bool, true, false, Option, some, none, leb, suc, ap,
  if◌then◌else◌,
}
use decision_gate.Prelude.Outcome.{Outcome}
use decision_gate.RetLogic.Plan.{
  OpCode, and_start, and_end, or_start, or_end, Operation, Constant, Plan,
}
use decision_gate.RetLogic.Executor.{
  CombineMode, identity, Frame, Stack, step_opcode, execute, finish, push, pop_onto, initial,
  combined, update, dispatch, step, eval_row, inverted, max_plan_stack_depth,
}

abbrev opens : CombineMode → List CombineMode → (List CombineMode → Bool) → Bool
opens mode open_groups rest =
    if leb max_plan_stack_depth (length open_groups + 1) then false else rest (mode ∷ open_groups)

abbrev shuts : CombineMode → List CombineMode → (List CombineMode → Bool) → Bool
shuts mode [] rest = false
shuts CombineMode.and (CombineMode.and ∷ open_groups) rest = rest open_groups
shuts CombineMode.or (CombineMode.or ∷ open_groups) rest = rest open_groups
shuts _ (_ ∷ _) rest = false

abbrev tracks : OpCode → List CombineMode → (List CombineMode → Bool) → Bool
tracks and_start open_groups rest = opens CombineMode.and open_groups rest
tracks and_end open_groups rest = shuts CombineMode.and open_groups rest
tracks or_start open_groups rest = opens CombineMode.or open_groups rest
tracks or_end open_groups rest = shuts CombineMode.or open_groups rest
tracks _ open_groups rest = rest open_groups

-- Every end matches the innermost open group, every group is closed, and fewer than 64 are open at
-- once.
unfoldable pub matched : List Operation → List CombineMode → Bool
matched [] [] = true
matched [] (_ ∷ _) = false
matched (op ∷ ops) open_groups = tracks op.opcode open_groups (matched ops)

-- The modes of the open groups, without the frame that the executor starts with.
modes_above : CombineMode → List Frame → List CombineMode
modes_above mode [] = []
modes_above mode (parent ∷ below) = mode ∷ modes_above parent.mode below

length-modes_above :
    (mode : CombineMode) (below : List Frame) → length (modes_above mode below) ≡ length below
unfolding modes_above
length-modes_above mode [] = refl
length-modes_above mode (parent ∷ below) = ap suc (length-modes_above parent.mode below)

module _ {Reader E : Type 0}
    (table : ℕ → Option (Reader → ℕ → Operation → List Constant → Outcome E Bool)) (reader : Reader)
    (row : ℕ) (constants : List Constant) where
  abbrev goes : (Stack → Bool) → Option Stack → Bool
  goes go none = false
  goes go (some s) = go s

  module _ (rest : List CombineMode → Bool) (go : Stack → Bool)
      (f : (s : Stack) → go s ≡ true → rest (modes_above s.top.mode s.below) ≡ true) where
    push_if :
        (full : Bool) (m : CombineMode) (s : Stack)
        → goes go (
            if full
            then none
            else some
                (record { top = record { mode = m; value = identity m }; below = s.top ∷ s.below }))
          ≡ true
        → (if full then false else rest (m ∷ modes_above s.top.mode s.below)) ≡ true
    unfolding modes_above
    push_if true m s h = h
    push_if false m s h =
        f (record { top = record { mode = m; value = identity m }; below = s.top ∷ s.below }) h

    push_lem :
        (m : CombineMode) (s : Stack)
        → goes go (push table m s) ≡ true
        → opens m (modes_above s.top.mode s.below) rest ≡ true
    push_lem m s h =
        rw (length-modes_above s.top.mode s.below)
          (push_if (leb max_plan_stack_depth (length s.below + 1)) m s h)

    pop_lem :
        (m held : CombineMode) (value : Bool) (below : List Frame)
        → goes go (pop_onto table m (record { mode = held; value = value }) below) ≡ true
        → shuts m (modes_above held below) rest ≡ true
    unfolding modes_above
    pop_lem m held value [] h = h
    pop_lem CombineMode.and CombineMode.and value (parent ∷ below) h =
        f (record { top = combined table parent value; below = below }) h
    pop_lem CombineMode.and CombineMode.or value (parent ∷ below) h = h
    pop_lem CombineMode.or CombineMode.and value (parent ∷ below) h = h
    pop_lem CombineMode.or CombineMode.or value (parent ∷ below) h =
        f (record { top = combined table parent value; below = below }) h

    tracks_lem :
        (c : OpCode) (op : Operation) (s : Stack)
        → goes go (step_opcode table reader row constants c op s) ≡ true
        → tracks c (modes_above s.top.mode s.below) rest ≡ true
    unfolding step_opcode inverted
    tracks_lem and_start op s h = push_lem CombineMode.and s h
    tracks_lem and_end op s h = pop_lem CombineMode.and s.top.mode s.top.value s.below h
    tracks_lem or_start op s h = push_lem CombineMode.or s h
    tracks_lem or_end op s h = pop_lem CombineMode.or s.top.mode s.top.value s.below h
    tracks_lem OpCode.not op s h =
        f (update table reader row constants (inverted table reader row constants) s) h
    tracks_lem _ op s h =
        f
          (update table reader row constants
            (λ frame. combined table frame (dispatch table reader row constants op)) s)
          h

  ends_lem :
      (mode : CombineMode) (value : Bool) (below : List Frame)
      → finish (some (record { top = record { mode = mode; value = value }; below = below })) ≡ true
      → matched [] (modes_above mode below) ≡ true
  unfolding finish matched modes_above
  ends_lem mode value [] h = refl
  ends_lem mode value (parent ∷ below) h = h

  goes_lem :
      (k : Stack → Option Stack) (o : Option Stack)
      → finish (elim o [ none ↦ none | some s ↦ k s ]) ≡ true
      → goes (λ s. finish (k s)) o ≡ true
  unfolding finish
  goes_lem k none h = h
  goes_lem k (some s) h = h

  execute_lem :
      (ops : List Operation) (s : Stack)
      → finish (execute table reader row constants ops s) ≡ true
      → matched ops (modes_above s.top.mode s.below) ≡ true
  unfolding execute matched step
  execute_lem [] s h = ends_lem s.top.mode s.top.value s.below h
  execute_lem (op ∷ ops) s h =
      tracks_lem (matched ops) (λ s'. finish (execute table reader row constants ops s'))
        (execute_lem ops) op.opcode op s
        (goes_lem (execute table reader row constants ops)
          (step_opcode table reader row constants op.opcode op s) h)

-- A plan is true on a row only when its group operations match: every end has the mode of the
-- innermost open group, every group is closed, and fewer than 64 are open at once. Every other plan
-- is false, whatever its handlers say.
pub eval_row-matched :
    {Reader E : Type 0}
    (table : ℕ → Option (Reader → ℕ → Operation → List Constant → Outcome E Bool)) (plan : Plan)
    (reader : Reader) (row : ℕ)
    → eval_row table plan reader row ≡ true
    → matched plan.operations [] ≡ true
unfolding eval_row modes_above
eval_row-matched table plan reader row h =
    execute_lem table reader row plan.constants plan.operations initial h
