-- ===== src/RetLogic/Plan/Pool.antt =====
-- crates/ret-logic/src/plan.rs: the constant pool of a plan.
use decision_gate.Prelude.{
  ℕ, zero, suc, ◌^◌, ◌<◌, nat_beq, ◌≡◌, refl, sym, ◌∙◌, ap, List, [], ◌∷◌, ◌++◌, length, get_elem?,
  Bool, true, false, some, arith, leb, if◌then◌else◌,
}
use decision_gate.Prelude.Outcome.{Outcome, ok, err, ok-injective}
use decision_gate.RetLogic.Plan.{
  Constant, ConstantIndex, Plan, max_constants, constant, add_constant, index_of,
}

passed_check :
    {E A : Type 0} (b : Bool) (e : E) (x : Outcome E A) (a : A)
    → (if b then err e else x) ≡ ok a
    → (b ≡ false) × (x ≡ ok a)
passed_check true e x a h = cc
passed_check false e x a h = (refl, h)

below_limit : (n i : ℕ) → leb max_constants n ≡ false → n ≡ i → i < 65536
below_limit n i room e = ground arith

extended_lem :
    {A : Type 0} (xs : List A) (x : A) (j : ℕ)
    → get_elem? (xs ++ x ∷ []) j ≡ (if nat_beq j (length xs) then some x else get_elem? xs j)
extended_lem [] x zero = refl
extended_lem [] x (suc j) = ground arith
extended_lem (y ∷ xs) x zero = ground arith
extended_lem (y ∷ xs) x (suc j) = ground (arith, extended_lem xs x j)

-- A constant that the pool takes, the first as well, gets the index after those in use, which fits in 16
-- bits; every index reads afterwards what it read before, but for the new one, which reads the constant.
pub add_constant-constant :
    (plan plan' : Plan) (c : Constant) (i j : ConstantIndex)
    → add_constant plan c ≡ ok (i, plan')
    → (i ≡ length plan.constants)
      × (i < 65536)
      × (constant plan' j ≡ (if nat_beq j i then some c else constant plan j))
unfolding add_constant index_of constant
add_constant-constant plan plan' c i j h =
    let n = length plan.constants in
    let grown = record plan { constants = plan.constants ++ c ∷ [] } in
    let (room, h') = passed_check (leb max_constants n) _ (index_of grown n) (i, plan') h in
    let (fits, h'') = passed_check (leb (2 ^ 16) n) _ (ok (n, grown)) (i, plan') h' in
    let e = ok-injective (n, grown) (i, plan') h'' in
    let index = ap (λ p. p.0) e in
    (
      sym index,
      below_limit n i room index,
      ap (λ p. get_elem? p.1.constants j) (sym e)
          ∙ extended_lem plan.constants c j
          ∙ ap (λ k. if nat_beq j k then some c else get_elem? plan.constants j) index,
    )
