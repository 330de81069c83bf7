-- ===== src/RetLogic/TriState/Order.antt =====
-- The information order on tri-state values: `unknown` lies below every value.
use decision_gate.Prelude.{ℕ, ◌+◌, ◌≤◌, ◌≡◌, refl, arith}
use decision_gate.RetLogic.TriState.{
  TriState, TriLogic, LogicMode, kleene, bochvar, logic_of, require_group, kleene_logic,
  bochvar_logic,
}

infix 50 ◌⊑◌
-- `s ⊑ t`: what `s` has settled, `t` has settled alike.
abbrev pub ◌⊑◌ : TriState → TriState → Type 0
TriState.true ⊑ t = t ≡ TriState.true
TriState.false ⊑ t = t ≡ TriState.false
TriState.unknown ⊑ t = Unit

pub ⊑_refl : (s : TriState) → s ⊑ s
⊑_refl s = ground arith

pub and-⊑ :
    (m : LogicMode) (a b c d : TriState)
    → a ⊑ c
    → b ⊑ d
    → (logic_of m).and a b ⊑ (logic_of m).and c d
and-⊑ kleene a b c d p q = ground arith
and-⊑ bochvar a b c d p q = ground arith

pub or-⊑ :
    (m : LogicMode) (a b c d : TriState) → a ⊑ c → b ⊑ d → (logic_of m).or a b ⊑ (logic_of m).or c d
or-⊑ kleene a b c d p q = ground arith
or-⊑ bochvar a b c d p q = ground arith

pub not-⊑ : (m : LogicMode) (a c : TriState) → a ⊑ c → (logic_of m).not a ⊑ (logic_of m).not c
not-⊑ kleene a c p = ground arith
not-⊑ bochvar a c p = ground arith

-- More members satisfied, and fewer that may still be, settle no group otherwise.
pub require_group-⊑ :
    (min : ℕ) (s u t s' u' t' : ℕ)
    → s ≤ s'
    → s' + u' ≤ s + u
    → require_group min (record { satisfied = s; unknown = u; total = t })
      ⊑ require_group min (record { satisfied = s'; unknown = u'; total = t' })
unfolding require_group
require_group-⊑ min s u t s' u' t' p q = ground arith

-- `weak` settles only what `strong` settles, and alike, operation by operation.
pub record Refines (weak strong : TriLogic) : Type 0 where
  pub and_below : (a b c d : TriState) → a ⊑ c → b ⊑ d → weak.and a b ⊑ strong.and c d
  pub or_below : (a b c d : TriState) → a ⊑ c → b ⊑ d → weak.or a b ⊑ strong.or c d
  pub not_below : (a c : TriState) → a ⊑ c → weak.not a ⊑ strong.not c
  pub group_below :
      (min s u s' u' t : ℕ)
      → s ≤ s'
      → s' + u' ≤ s + u
      → weak.group min (record { satisfied = s; unknown = u; total = t })
        ⊑ strong.group min (record { satisfied = s'; unknown = u'; total = t })

group_of : (m : LogicMode) → (logic_of m).group ≡ require_group
group_of kleene = refl
group_of bochvar = refl

pub Refines-refl : (m : LogicMode) → Refines (logic_of m) (logic_of m)
Refines-refl m = record {
  and_below = and-⊑ m;
  or_below = or-⊑ m;
  not_below = not-⊑ m;
  group_below = λ min s u s' u' t p q. rw (group_of m) (require_group-⊑ min s u t s' u' t p q);
}

-- Bochvar's tables settle no more than Kleene's.
pub Refines-bochvar : Refines bochvar_logic kleene_logic
Refines-bochvar = record {
  and_below = λ a b c d p q. ground arith;
  or_below = λ a b c d p q. ground arith;
  not_below = λ a c p. ground arith;
  group_below = λ min s u s' u' t p q. require_group-⊑ min s u t s' u' t p q;
}
