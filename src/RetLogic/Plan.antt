-- ===== src/RetLogic/Plan.antt =====
-- crates/ret-logic/src/plan.rs: compiled plans. `Reader` and the rows belong to the domain; floats
-- are kept as their bit patterns.
pub mod Pool
use decision_gate.Prelude.{
  ℕ, suc, ◌+◌, ◌^◌, String, List, [], ◌∷◌, ◌++◌, length, get_elem?, contains, Bool, true, false,
  Option, none, some, leb, if◌then◌else◌, nat_eq,
}
use decision_gate.Prelude.Outcome.{Outcome, ok, err}
use decision_gate.Prelude.Int.{ℤ}

-- `ColumnKey` and `ConstantIndex` wrap a `u16`.
abbrev pub ColumnKey : Type 0
ColumnKey = ℕ

abbrev pub ConstantIndex : Type 0
ConstantIndex = ℕ

pub data OpCode : Type 0 where
  and_start and_end or_start or_end not : OpCode
  float_gte float_lte float_eq int_gte int_lte int_eq : OpCode
  has_all_flags has_any_flags has_none_flags : OpCode
  in_range in_region : OpCode
  domain_start : OpCode

unfoldable pub as_u8 : OpCode → ℕ
as_u8 and_start = 0
as_u8 and_end = 1
as_u8 or_start = 2
as_u8 or_end = 3
as_u8 not = 4
as_u8 float_gte = 10
as_u8 float_lte = 11
as_u8 float_eq = 12
as_u8 int_gte = 13
as_u8 int_lte = 14
as_u8 int_eq = 15
as_u8 has_all_flags = 20
as_u8 has_any_flags = 21
as_u8 has_none_flags = 22
as_u8 in_range = 30
as_u8 in_region = 31
as_u8 domain_start = 100

unfoldable pub is_logical_group : OpCode → Bool
is_logical_group and_start = true
is_logical_group and_end = true
is_logical_group or_start = true
is_logical_group or_end = true
is_logical_group _ = false

unfoldable pub is_comparison : OpCode → Bool
is_comparison float_gte = true
is_comparison float_lte = true
is_comparison float_eq = true
is_comparison int_gte = true
is_comparison int_lte = true
is_comparison int_eq = true
is_comparison _ = false

pub record Operation : Type 0 where
  pub opcode : OpCode
  pub operand_a : ℕ
  pub operand_b : ℕ
  pub operand_c : ℕ

pub data Constant : Type 0 where
  float : (bits : ℕ) → Constant
  int : ℤ → Constant
  uint : ℕ → Constant
  string : String → Constant
  flags : ℕ → Constant
  custom : List ℕ → Constant

unfoldable pub as_float : Constant → Option ℕ
as_float (float bits) = some bits
as_float _ = none

unfoldable pub as_int : Constant → Option ℤ
as_int (int i) = some i
as_int _ = none

unfoldable pub as_uint : Constant → Option ℕ
as_uint (uint u) = some u
as_uint _ = none

unfoldable pub as_flags : Constant → Option ℕ
as_flags (flags f) = some f
as_flags (uint u) = some u
as_flags _ = none

unfoldable pub as_string : Constant → Option String
as_string (string s) = some s
as_string _ = none

pub record Plan : Type 0 where
  pub required_columns : List ColumnKey
  pub operations : List Operation
  pub constants : List Constant

pub data PlanError : Type 0 where
  constant_pool_overflow : (max_constants attempted : ℕ) → PlanError

abbrev pub max_constants : ℕ
max_constants = 65536

-- `Plan::new`
abbrev pub empty_plan : Plan
empty_plan = record { required_columns = []; operations = []; constants = [] }

unfoldable pub constant : Plan → ConstantIndex → Option Constant
constant plan index = get_elem? plan.constants index

unfoldable pub add_column : Plan → ColumnKey → Plan
add_column plan column =
    if contains plan.required_columns column
    then plan
    else record plan { required_columns = plan.required_columns ++ column ∷ [] }

unfoldable pub add_operation : Plan → Operation → Plan
add_operation plan op = record plan { operations = plan.operations ++ op ∷ [] }

-- The check after the push: `u16::try_from` of an index below the limit.
index_of : Plan → ℕ → Outcome PlanError (ConstantIndex × Plan)
index_of plan index =
    if leb (2 ^ 16) index
    then err (constant_pool_overflow max_constants (index + 1))
    else ok (index, plan)

unfoldable pub add_constant : Plan → Constant → Outcome PlanError (ConstantIndex × Plan)
unfolding index_of
add_constant plan c =
    if leb max_constants (length plan.constants)
    then err (constant_pool_overflow max_constants (length plan.constants + 1))
    else index_of (record plan { constants = plan.constants ++ c ∷ [] }) (length plan.constants)

-- `PlanBuilder` keeps a plan, and each of its methods is one of the above. This is `add_op`.
unfoldable pub add_op : Plan → OpCode → (a b c : ℕ) → Plan
unfolding add_operation
add_op plan opcode a b c =
    add_operation plan (record { opcode = opcode; operand_a = a; operand_b = b; operand_c = c })
