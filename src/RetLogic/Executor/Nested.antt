-- ===== src/RetLogic/Executor/Nested.antt =====
-- crates/ret-logic/src/executor.rs: plans that are written as nested groups, next to what the groups
-- mean.
use mathlib.Core.Bool
use mathlib.Core.List.{append_assoc, append-nil}
use Prim.Native.Nat.{max}
use decision_gate.Prelude.{
  ℕ, suc, ◌+◌, ◌<◌, ◌≡◌, refl, sym, ◌∙◌, ap, List, [], ◌∷◌, ◌++◌, length, Option, Bool, true, false,
  some, none, arith, ◌&&◌,
}
use decision_gate.Prelude.Outcome.{Outcome}
use decision_gate.RetLogic.Plan.{
  OpCode, and_start, and_end, or_start, or_end, not, Operation, Constant, Plan,
}
use decision_gate.RetLogic.Executor.{
  CombineMode, identity, combine, Frame, Stack, dispatch, step_opcode, execute, initial, finish,
  eval_row, inverted,
}

-- `invert` is the NOT operation, which turns what its group has so far.
mutual
  pub data Item : Type 0 where
    check : Operation → Item
    invert : Item
    group : CombineMode → Items → Item

  pub data Items : Type 0 where
    no_items : Items
    item : Item → Items → Items

abbrev pub start_of : CombineMode → OpCode
start_of CombineMode.and = and_start
start_of CombineMode.or = or_start

abbrev pub end_of : CombineMode → OpCode
end_of CombineMode.and = and_end
end_of CombineMode.or = or_end

-- `PlanBuilder::and_start` and its like: no operands.
abbrev pub mark : OpCode → Operation
mark opcode = record { opcode = opcode; operand_a = 0; operand_b = 0; operand_c = 0 }

abbrev pub is_check : OpCode → Bool
is_check and_start = false
is_check and_end = false
is_check or_start = false
is_check or_end = false
is_check not = false
is_check _ = true

unfoldable mutual
  pub emit_item : Item → List Operation
  emit_item (check op) = op ∷ []
  emit_item invert = mark not ∷ []
  emit_item (group mode items) = mark (start_of mode) ∷ (emit items ++ mark (end_of mode) ∷ [])

  pub emit : Items → List Operation
  emit no_items = []
  emit (item i items) = emit_item i ++ emit items

-- Every check is an operation of the domain.
unfoldable mutual
  pub coded_item : Item → Bool
  coded_item (check op) = is_check op.opcode
  coded_item invert = true
  coded_item (group mode items) = coded items

  pub coded : Items → Bool
  coded no_items = true
  coded (item i items) = coded_item i && coded items

-- How many groups are open at once.
unfoldable mutual
  pub nesting_item : Item → ℕ
  nesting_item (check op) = 0
  nesting_item invert = 0
  nesting_item (group mode items) = suc (nesting items)

  pub nesting : Items → ℕ
  nesting no_items = 0
  nesting (item i items) = max (nesting_item i) (nesting items)

module _ (value_of : Operation → Bool) where
  -- The value of a group from what it has so far.
  unfoldable mutual
    pub value_item : CombineMode → Bool → Item → Bool
    value_item mode v (check op) = combine mode v (value_of op)
    value_item mode v invert = Bool.not v
    value_item mode v (group m items) = combine mode v (value m (identity m) items)

    pub value : CombineMode → Bool → Items → Bool
    value mode v no_items = v
    value mode v (item i items) = value mode (value_item mode v i) items

module _ {Reader E : Type 0}
    (table : ℕ → Option (Reader → ℕ → Operation → List Constant → Outcome E Bool)) (reader : Reader)
    (row : ℕ) (constants : List Constant) where
  abbrev at : CombineMode → Bool → List Frame → Stack
  at mode v below = record { top = record { mode = mode; value = v }; below = below }

  abbrev verdict : Operation → Bool
  verdict = dispatch table reader row constants

  check_step :
      (c : OpCode) (op : Operation) (mode : CombineMode) (v : Bool) (below : List Frame)
      → is_check c ≡ true
      → step_opcode table reader row constants c op (at mode v below)
        ≡ some (at mode (combine mode v (verdict op)) below)
  unfolding step_opcode combine
  check_step c op mode v below h = ground arith

  open_step :
      (m mode : CombineMode) (v : Bool) (below : List Frame)
      → length below + 1 < 64
      → step_opcode table reader row constants (start_of m) (mark (start_of m)) (at mode v below)
        ≡ some (at m (identity m) (record { mode = mode; value = v } ∷ below))
  unfolding step_opcode
  open_step CombineMode.and mode v below h = ground arith
  open_step CombineMode.or mode v below h = ground arith

  close_step :
      (m mode : CombineMode) (v w : Bool) (below : List Frame)
      → step_opcode table reader row constants
          (end_of m)
          (mark (end_of m))
          (at m w (record { mode = mode; value = v } ∷ below))
        ≡ some (at mode (combine mode v w) below)
  unfolding step_opcode combine
  close_step CombineMode.and mode v w below = refl
  close_step CombineMode.or mode v w below = refl

  not_step :
      (mode : CombineMode) (v : Bool) (below : List Frame)
      → step_opcode table reader row constants not (mark not) (at mode v below)
        ≡ some (at mode (Bool.not v) below)
  unfolding step_opcode inverted
  not_step mode v below = refl

  abbrev run : List Operation → Stack → Option Stack
  run = execute table reader row constants

  execute_step :
      (op : Operation) (ops : List Operation) (s : Stack) {s' : Stack}
      → step_opcode table reader row constants op.opcode op s ≡ some s'
      → run (op ∷ ops) s ≡ run ops s'
  unfolding execute
  execute_step op ops s h =
      ap (λ r. elim r [ none ↦ none | some s' ↦ execute table reader row constants ops s' ]) h

  both_lem : {a b : Bool} → a && b ≡ true → (a ≡ true) × (b ≡ true)
  both_lem h = ground arith

  mutual
    unfolding emit coded nesting value

    run_item :
        (i : Item) (rest : List Operation) (mode : CombineMode) (v : Bool) (below : List Frame)
        → coded_item i ≡ true
        → length below + nesting_item i < 64
        → run (emit_item i ++ rest) (at mode v below)
          ≡ run rest (at mode (value_item verdict mode v i) below)
    run_item (check op) rest mode v below c n =
        execute_step op rest (at mode v below) (check_step op.opcode op mode v below c)
    run_item invert rest mode v below c n =
        execute_step (mark not) rest (at mode v below) (not_step mode v below)
    run_item (group m items) rest mode v below c n =
        execute_step (mark (start_of m)) ((emit items ++ mark (end_of m) ∷ []) ++ rest)
          (at mode v below) (open_step m mode v below (omega arith))
        ∙ ap (λ ops. run ops (at m (identity m) (record { mode = mode; value = v } ∷ below)))
            (append_assoc (emit items) (mark (end_of m) ∷ []) rest)
        ∙ run_items items (mark (end_of m) ∷ rest) m (identity m)
            (record { mode = mode; value = v } ∷ below) c (omega arith)
        ∙ execute_step (mark (end_of m)) rest
            (at m (value verdict m (identity m) items) (record { mode = mode; value = v } ∷ below))
            (close_step m mode v (value verdict m (identity m) items) below)

    run_items :
        (items : Items) (rest : List Operation) (mode : CombineMode) (v : Bool) (below : List Frame)
        → coded items ≡ true
        → length below + nesting items < 64
        → run (emit items ++ rest) (at mode v below)
          ≡ run rest (at mode (value verdict mode v items) below)
    run_items no_items rest mode v below c n = refl
    run_items (item i items) rest mode v below c n =
        ap (λ ops. run ops (at mode v below)) (append_assoc (emit_item i) (emit items) rest)
        ∙ run_item i (emit items ++ rest) mode v below (both_lem c).0 (omega arith)
        ∙ run_items items rest mode (value_item verdict mode v i) below (both_lem c).1 (omega arith)

-- A plan whose operations are nested groups of checks, fewer than 64 of them open at once, is true on
-- a row exactly when the groups are: every group combines what it holds by its own connective, from
-- that connective's identity, `NOT` turns what its group has so far, and a check has its handler's
-- verdict, false when the handler fails or is missing.
pub eval_row-emit :
    {Reader E : Type 0}
    (table : ℕ → Option (Reader → ℕ → Operation → List Constant → Outcome E Bool)) (plan : Plan)
    (reader : Reader) (row : ℕ) (items : Items)
    → plan.operations ≡ emit items
    → coded items ≡ true
    → nesting items < 64
    → eval_row table plan reader row
      ≡ value (dispatch table reader row plan.constants) CombineMode.and true items
unfolding eval_row finish
eval_row-emit table plan reader row items e c n =
    ap (λ ops. finish (execute table reader row plan.constants ops initial))
      (e ∙ sym (append-nil (emit items)))
    ∙ ap finish
        (run_items table reader row plan.constants items [] CombineMode.and true [] c (omega arith))
