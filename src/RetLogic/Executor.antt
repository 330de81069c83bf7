-- ===== src/RetLogic/Executor.antt =====
-- crates/ret-logic/src/executor.rs: the stack machine that runs a compiled plan on one row.
pub mod Nested
pub mod Brackets
use mathlib.Core.Bool
use mathlib.Core.Bool.{◌&&◌, ◌||◌}
use decision_gate.Prelude.{
  ℕ, suc, ◌+◌, List, [], ◌∷◌, length, Bool, true, false, Option, none, some, leb, nat_beq,
  if◌then◌else◌,
}
use decision_gate.Prelude.Outcome.{Outcome, ok, err}
use decision_gate.RetLogic.Plan.{
  OpCode, and_start, and_end, or_start, or_end, not, as_u8, Operation, Constant, Plan,
}

pub data CombineMode : Type 0 where
  and or : CombineMode

unfoldable pub identity : CombineMode → Bool
identity CombineMode.and = true
identity CombineMode.or = false

unfoldable pub combine : CombineMode → Bool → Bool → Bool
combine CombineMode.and lhs rhs = lhs && rhs
combine CombineMode.or lhs rhs = lhs || rhs

abbrev pub max_plan_stack_depth : ℕ
max_plan_stack_depth = 64

pub record Frame : Type 0 where
  pub mode : CombineMode
  pub value : Bool

-- The two arrays up to the stack pointer: the frame that it points at, and those below, which are as
-- many as its value.
pub record Stack : Type 0 where
  pub top : Frame
  pub below : List Frame

abbrev mode_beq : CombineMode → CombineMode → Bool
mode_beq CombineMode.and CombineMode.and = true
mode_beq CombineMode.or CombineMode.or = true
mode_beq _ _ = false

abbrev pub initial : Stack
initial = record { top = record { mode = CombineMode.and; value = true }; below = [] }

finish : Option Stack → Bool
finish none = false
finish (some s) = elim s.below [ [] ↦ s.top.value | _ ∷ _ ↦ false ]

-- `ok b` is a handler's verdict on a row.
module _ {Reader E : Type 0}
    (table : ℕ → Option (Reader → ℕ → Operation → List Constant → Outcome E Bool)) where
  -- `match eval_fn(..)`: an error counts as false.
  abbrev or_false : Outcome E Bool → Bool
  or_false (ok b) = b
  or_false (err e) = false

  -- The value of an operation of the domain; without a handler it is false.
  unfoldable pub dispatch : Reader → ℕ → List Constant → Operation → Bool
  dispatch reader row constants op = elim (table (as_u8 op.opcode)) [
    | none ↦ false
    | some handler ↦ or_false (handler reader row op constants)
  ]

  abbrev push : CombineMode → Stack → Option Stack
  push mode s =
      if leb max_plan_stack_depth (length s.below + 1)
      then none
      else some
          (record { top = record { mode = mode; value = identity mode }; below = s.top ∷ s.below })

  abbrev combined : Frame → Bool → Frame
  combined frame b = record { mode = frame.mode; value = combine frame.mode frame.value b }

  abbrev pop_onto : CombineMode → Frame → List Frame → Option Stack
  pop_onto mode top [] = none
  pop_onto mode top (parent ∷ below) =
      if mode_beq top.mode mode
      then some (record { top = combined parent top.value; below = below })
      else none

  module _ (reader : Reader) (row : ℕ) (constants : List Constant) where
    abbrev update : (Frame → Frame) → Stack → Stack
    update f s = record { top = f s.top; below = s.below }

    inverted : Frame → Frame
    inverted frame = record { mode = frame.mode; value = Bool.not frame.value }

    -- One round of the loop; `none` is `return false`.
    step_opcode : OpCode → Operation → Stack → Option Stack
    unfolding inverted identity combine
    step_opcode and_start op s = push CombineMode.and s
    step_opcode and_end op s = pop_onto CombineMode.and s.top s.below
    step_opcode or_start op s = push CombineMode.or s
    step_opcode or_end op s = pop_onto CombineMode.or s.top s.below
    step_opcode not op s = some (update inverted s)
    step_opcode _ op s = some (update (λ f. combined f (dispatch reader row constants op)) s)

    unfoldable pub step : Operation → Stack → Option Stack
    unfolding step_opcode
    step op s = step_opcode op.opcode op s

    -- The loop over the operations.
    unfoldable pub execute : List Operation → Stack → Option Stack
    unfolding step
    execute [] s = some s
    execute (op ∷ ops) s = elim (step op s) [ none ↦ none | some s' ↦ execute ops s' ]

  unfoldable pub eval_row : Plan → Reader → ℕ → Bool
  unfolding execute finish
  eval_row plan reader row = finish (execute reader row plan.constants plan.operations initial)
