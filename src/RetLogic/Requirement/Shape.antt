-- ===== src/RetLogic/Requirement/Shape.antt =====
-- What a requirement tree means, apart from how it is evaluated: its height, its leaves in order,
-- and its truth value under a total valuation of the conditions.
use mathlib.Core.Bool
use Prim.Native.Nat.{max}
use decision_gate.Prelude.{ℕ, suc, ◌+◌, List, [], ◌∷◌, ◌++◌, Bool, true, false, leb, if◌then◌else◌}
use decision_gate.RetLogic.Requirement.{
  Requirement, Requirements, and, or, not, require_group, condition, nil, cons,
}

module _ {ℓ} {P : Type ℓ} where
  -- The number of levels below the root.
  unfoldable mutual
    pub height : Requirement P → ℕ
    height (condition c) = 0
    height (not r) = suc (height r)
    height (and rs) = height_all rs
    height (or rs) = height_all rs
    height (require_group min rs) = height_all rs

    -- The height of a node over these children.
    pub height_all : Requirements P → ℕ
    height_all nil = 0
    height_all (cons r rs) = max (suc (height r)) (height_all rs)

  unfoldable mutual
    pub leaves : Requirement P → List P
    leaves (condition c) = c ∷ []
    leaves (not r) = leaves r
    leaves (and rs) = leaves_all rs
    leaves (or rs) = leaves_all rs
    leaves (require_group min rs) = leaves_all rs

    pub leaves_all : Requirements P → List P
    leaves_all nil = []
    leaves_all (cons r rs) = leaves r ++ leaves_all rs

module _ {ℓ} {P : Type ℓ} (leaf : P → Bool) where
  -- The Boolean meaning: all, any, the complement, at least `min`.
  unfoldable mutual
    pub holds : Requirement P → Bool
    holds (condition c) = leaf c
    holds (not r) = Bool.not (holds r)
    holds (and rs) = all_hold rs
    holds (or rs) = some_holds rs
    holds (require_group min rs) = leb min (holding rs)

    pub all_hold : Requirements P → Bool
    all_hold nil = true
    all_hold (cons r rs) = Bool.◌&&◌ (holds r) (all_hold rs)

    pub some_holds : Requirements P → Bool
    some_holds nil = false
    some_holds (cons r rs) = Bool.◌||◌ (holds r) (some_holds rs)

    -- How many members hold.
    pub holding : Requirements P → ℕ
    holding nil = 0
    holding (cons r rs) = (if holds r then 1 else 0) + holding rs
