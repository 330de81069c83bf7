-- ===== src/RetLogic/TriState.antt =====
-- crates/ret-logic/src/tristate.rs: tri-state values, the two logic tables and group semantics.
pub mod Order
use decision_gate.Prelude.{ℕ, ◌+◌, ◌-◌, Bool, ltb, leb, if◌then◌else◌, nat_beq}

pub data TriState : Type 0 where
  true false unknown : TriState

abbrev pub is_true : TriState → Bool
is_true TriState.true = Bool.true
is_true _ = Bool.false

abbrev pub is_false : TriState → Bool
is_false TriState.false = Bool.true
is_false _ = Bool.false

abbrev pub is_unknown : TriState → Bool
is_unknown TriState.unknown = Bool.true
is_unknown _ = Bool.false

-- `impl From<bool> for TriState`
abbrev pub from_bool : Bool → TriState
from_bool Bool.true = TriState.true
from_bool Bool.false = TriState.false

pub record GroupCounts : Type 0 where
  pub satisfied : ℕ
  pub unknown : ℕ
  pub total : ℕ

-- `saturating_sub` is the truncated subtraction of ℕ.
unfoldable pub failed : GroupCounts → ℕ
failed c = c.total - (c.satisfied + c.unknown)

-- The default `require_group` of the trait.
unfoldable pub require_group : ℕ → GroupCounts → TriState
require_group min_required c =
    if nat_beq min_required 0
    then TriState.true
    else if leb min_required c.satisfied
    then TriState.true
    else if ltb (c.satisfied + c.unknown) min_required
    then TriState.false
    else TriState.unknown

-- The trait `TriLogic`.
pub record TriLogic : Type 0 where
  pub and : TriState → TriState → TriState
  pub or : TriState → TriState → TriState
  pub not : TriState → TriState
  pub group : ℕ → GroupCounts → TriState

abbrev pub tri_not : TriState → TriState
tri_not TriState.true = TriState.false
tri_not TriState.false = TriState.true
tri_not TriState.unknown = TriState.unknown

abbrev pub kleene_and : TriState → TriState → TriState
kleene_and TriState.false _ = TriState.false
kleene_and _ TriState.false = TriState.false
kleene_and TriState.true TriState.true = TriState.true
kleene_and _ _ = TriState.unknown

abbrev pub kleene_or : TriState → TriState → TriState
kleene_or TriState.true _ = TriState.true
kleene_or _ TriState.true = TriState.true
kleene_or TriState.false TriState.false = TriState.false
kleene_or _ _ = TriState.unknown

-- `impl TriLogic for KleeneLogic`
abbrev pub kleene_logic : TriLogic
kleene_logic = record { and = kleene_and; or = kleene_or; not = tri_not; group = require_group }

abbrev pub bochvar_and : TriState → TriState → TriState
bochvar_and TriState.unknown _ = TriState.unknown
bochvar_and _ TriState.unknown = TriState.unknown
bochvar_and TriState.false _ = TriState.false
bochvar_and _ TriState.false = TriState.false
bochvar_and _ _ = TriState.true

abbrev pub bochvar_or : TriState → TriState → TriState
bochvar_or TriState.unknown _ = TriState.unknown
bochvar_or _ TriState.unknown = TriState.unknown
bochvar_or TriState.true _ = TriState.true
bochvar_or _ TriState.true = TriState.true
bochvar_or _ _ = TriState.false

-- `impl TriLogic for BochvarLogic`
abbrev pub bochvar_logic : TriLogic
bochvar_logic = record { and = bochvar_and; or = bochvar_or; not = tri_not; group = require_group }

pub data LogicMode : Type 0 where
  kleene bochvar : LogicMode

-- `impl TriLogic for LogicMode`: each operation dispatches on the mode; groups use one rule.
abbrev pub logic_of : LogicMode → TriLogic
logic_of kleene = kleene_logic
logic_of bochvar = bochvar_logic
