-- ===== src/RetLogic/Requirement.antt =====
-- crates/ret-logic/src/requirement.rs: requirement trees and their constructors. The evaluators are
-- in the modules below. `SmallVec<[Box<Self>; n]>` is the list type `Requirements` of the block.
pub mod Shape
pub mod Eval
pub mod Tri
pub mod Block
pub mod Trivial
use decision_gate.Prelude.{
  ℕ, zero, suc, ◌+◌, List, [], ◌∷◌, Bool, true, false, ltb, if◌then◌else◌, length,
}
use decision_gate.Prelude.Outcome.{Outcome, ok, err}

mutual
  pub data Requirement {ℓ} (P : Type ℓ) : Type ℓ where
    and : Requirements P → Requirement P
    or : Requirements P → Requirement P
    not : Requirement P → Requirement P
    require_group : ℕ → Requirements P → Requirement P
    condition : P → Requirement P

  pub data Requirements {ℓ} (P : Type ℓ) : Type ℓ where
    nil : Requirements P
    cons : Requirement P → Requirements P → Requirements P

pub data EvalDepthExceeded : Type 0 where
  eval_depth_exceeded : EvalDepthExceeded

abbrev pub max_eval_depth : ℕ
max_eval_depth = 32

module _ {ℓ} {P : Type ℓ} where
  -- `reqs.len()`
  abbrev pub len : Requirements P → ℕ
  len nil = 0
  len (cons r rs) = suc (len rs)

  -- `requirements.into_iter().map(Box::new).collect()`
  abbrev pub collect : List (Requirement P) → Requirements P
  collect [] = nil
  collect (r ∷ rs) = cons r (collect rs)

  -- `impl Default for Requirement`
  abbrev pub default : Requirement P
  default = and nil
