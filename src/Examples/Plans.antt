-- ===== src/Examples/Plans.antt =====
-- Compiled plans at concrete inputs.
use decision_gate.Prelude.{
  ℕ, ◌<◌, nat_beq, if◌then◌else◌, ◌≡◌, refl, List, [], ◌∷◌, Bool, true, false, Option, some, none,
  arith,
}
use decision_gate.Prelude.Outcome.{Outcome, ok, err}
use decision_gate.RetLogic.Plan.{
  as_u8, int_gte, int_eq, in_range, Operation, Constant, Plan, flags, uint, string, constant,
  add_constant,
}
use decision_gate.Prelude.{length}
use decision_gate.RetLogic.Plan.Pool.{add_constant-constant}
use decision_gate.RetLogic.Executor.{CombineMode, dispatch, eval_row}
use decision_gate.RetLogic.Executor.Nested.{
  Items, check, invert, group, item, no_items, emit, coded, nesting, value, eval_row-emit,
}
use decision_gate.RetLogic.Executor.Brackets.{matched, eval_row-matched}

-- The reader is a number, which the first operand must equal; `in_region` has no handler and
-- `in_range` fails.
abbrev table : ℕ → Option (ℕ → ℕ → Operation → List Constant → Outcome ℕ Bool)
table code =
    if nat_beq code 13
    then some (λ reader row op constants. ok (nat_beq reader op.operand_a))
    else if nat_beq code 15
    then some (λ reader row op constants. ok (nat_beq row op.operand_a))
    else if nat_beq code 30
    then some (λ reader row op constants. err 7)
    else none

abbrev reads : ℕ → Operation
reads n = record { opcode = int_gte; operand_a = n; operand_b = 0; operand_c = 0 }

abbrev in_row : ℕ → Operation
in_row n = record { opcode = int_eq; operand_a = n; operand_b = 0; operand_c = 0 }

abbrev failing : Operation
failing = record { opcode = in_range; operand_a = 0; operand_b = 0; operand_c = 0 }

-- `reads 5 AND (reads 9 OR in_row 2 OR failing)`, then a negated group.
abbrev items : Items
items = item (check (reads 5)) (
    item
      (group CombineMode.or
        (item (check (reads 9)) (item (check (in_row 2)) (item (check failing) no_items))))
      (item (group CombineMode.and (item (check failing) (item invert no_items))) no_items))

abbrev plan : Plan
unfolding emit
plan = record { required_columns = []; operations = emit items; constants = [] }

eval_row-emit_example :
    eval_row table plan 5 2 ≡ value (dispatch table 5 2 []) CombineMode.and true items
unfolding plan
eval_row-emit_example =
    eval_row-emit table plan 5 2 items (unfold emit plan in refl) (unfold coded in refl)
      (unfold nesting in omega arith)

holds : eval_row table plan 5 2 ≡ true
unfolding eval_row plan dispatch as_u8
holds = refl

-- Another row: the second group is false.
fails : eval_row table plan 5 3 ≡ false
unfolding eval_row plan dispatch as_u8
fails = refl

eval_row-matched_example : matched plan.operations [] ≡ true
eval_row-matched_example = eval_row-matched table plan 5 2 holds

abbrev pooled : Plan
pooled = record { required_columns = []; operations = []; constants = flags 6 ∷ uint 4 ∷ [] }

abbrev grown : Plan
grown = record {
  required_columns = [];
  operations = [];
  constants = flags 6 ∷ uint 4 ∷ string "x" ∷ [];
}

add_constant-constant_example :
    (2 ≡ length pooled.constants)
    × (2 < 65536)
    × (constant grown 1 ≡ (if nat_beq 1 2 then some (string "x") else constant pooled 1))
add_constant-constant_example =
    add_constant-constant pooled grown (string "x") 2 1 (unfold add_constant in refl)
