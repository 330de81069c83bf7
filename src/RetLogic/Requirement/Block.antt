-- ===== src/RetLogic/Requirement/Block.antt =====
-- The batch evaluator of crates/ret-logic/src/requirement.rs (`eval_block`) over up to 64 rows, and the
-- default batch kernel of crates/ret-logic/src/traits.rs. A `Mask64` is the function from the places of
-- the 64 bits to them; the places from 64 on stand for nothing and are not read.
pub mod Correct
use mathlib.Core.Bool
use Prim.Native.Nat.{min}
use decision_gate.Prelude.{
  ℕ, zero, suc, ◌+◌, Bool, true, false, ◌&&◌, ◌||◌, ltb, leb, nat_beq, if◌then◌else◌,
  saturating_add,
}
use decision_gate.Prelude.Outcome.{Outcome, ok, err, ◌>>=◌}
use decision_gate.RetLogic.Requirement.{
  Requirement, Requirements, and, or, not, require_group, condition, nil, cons, len,
  EvalDepthExceeded, max_eval_depth,
}
use decision_gate.RetLogic.Requirement.Eval.{within}

abbrev pub Mask64 : Type 0
Mask64 = ℕ → Bool

-- A test of every place below a bound.
unfoldable pub all_below : ℕ → (ℕ → Bool) → Bool
all_below zero p = true
all_below (suc k) p = p k && all_below k p

abbrev pub zero_mask : Mask64
zero_mask i = false

-- `(1u64 << n) - 1`, and `Mask64::MAX` for 64.
abbrev pub valid_mask : ℕ → Mask64
valid_mask n i = ltb i n

abbrev pub mask_and : Mask64 → Mask64 → Mask64
mask_and a b i = a i && b i

abbrev pub mask_or : Mask64 → Mask64 → Mask64
mask_or a b i = a i || b i

abbrev pub mask_not : Mask64 → Mask64
mask_not a i = Bool.not (a i)

abbrev bit_beq : Bool → Bool → Bool
bit_beq true b = b
bit_beq false b = Bool.not b

-- `mask == 0` and `mask == valid_mask`
abbrev pub is_zero : Mask64 → Bool
is_zero a = all_below 64 (λ i. Bool.not (a i))

abbrev pub mask_beq : Mask64 → Mask64 → Bool
mask_beq a b = all_below 64 (λ i. bit_beq (a i) (b i))

-- The loop of the default kernel: bit `i` is the row `start + i`, for the first 64 rows of the count.
abbrev pub default_block : (ℕ → Bool) → ℕ → ℕ → Mask64
default_block eval_row start count i = ltb i (min count 64) && eval_row (start + i)

-- The counters of a group: `u8`, which stop at 255.
abbrev pub count_bits : ℕ → Mask64 → (ℕ → ℕ) → ℕ → ℕ
count_bits n mask counts i = if ltb i n && mask i then min (counts i + 1) 255 else counts i

abbrev pub Masked : Type 0
Masked = Outcome EvalDepthExceeded Mask64

-- The branches of a group, over its three loops.
abbrev pub group_of : (required members n : ℕ) → Masked → Masked → Masked → Masked
group_of required members n anyone everyone counted =
    if nat_beq required 0
    then ok (valid_mask n)
    else if ltb members required
    then ok zero_mask
    else if nat_beq required 1
    then anyone
    else if nat_beq required members
    then (everyone >>= λ mask. ok (mask_and mask (valid_mask n)))
    else counted

-- `leaf c n` is `condition.eval_block(reader, start, n)`.
module _ {ℓ} {P : Type ℓ} (leaf : P → ℕ → Mask64) where
  -- The two tests before the match.
  abbrev pub guarded : ℕ → ℕ → ℕ → Masked → Masked
  guarded count depth max_depth body =
      within depth max_depth (if nat_beq (min count 64) 0 then ok zero_mask else body)

  unfoldable mutual
    pub eval_block_with_depth : Requirement P → ℕ → ℕ → ℕ → Masked
    eval_block_with_depth (condition c) count depth max_depth =
        guarded count depth max_depth
          (ok (mask_and (leaf c (min count 64)) (valid_mask (min count 64))))
    eval_block_with_depth (not r) count depth max_depth = guarded count depth max_depth do
      mask ← eval_block_with_depth r (min count 64) (saturating_add depth 1) max_depth
      ok (mask_and (mask_not mask) (valid_mask (min count 64)))
    eval_block_with_depth (and rs) count depth max_depth =
        guarded count depth max_depth (
          block_and rs (min count 64) (saturating_add depth 1) max_depth
            (valid_mask (min count 64)))
    eval_block_with_depth (or rs) count depth max_depth =
        guarded count depth max_depth
          (block_or rs (min count 64) (saturating_add depth 1) max_depth zero_mask)
    eval_block_with_depth (require_group required rs) count depth max_depth =
        guarded count depth max_depth (
          group_of required (len rs) (min count 64)
            (block_or rs (min count 64) (saturating_add depth 1) max_depth zero_mask)
            (block_and rs (min count 64) (saturating_add depth 1) max_depth
              (valid_mask (min count 64)))
            (block_counts rs required (min count 64) (saturating_add depth 1) max_depth (λ i. 0)))

    -- The loop of an AND, which stops at the mask 0.
    pub block_and : Requirements P → ℕ → ℕ → ℕ → Mask64 → Masked
    block_and nil n depth max_depth mask = ok mask
    block_and (cons r rs) n depth max_depth mask = do
      bits ← eval_block_with_depth r n depth max_depth
      let rest = block_and rs n depth max_depth (mask_and mask bits)
      if is_zero (mask_and mask bits) then ok zero_mask else rest

    -- The loop of an OR, which stops when every valid bit is set.
    pub block_or : Requirements P → ℕ → ℕ → ℕ → Mask64 → Masked
    block_or nil n depth max_depth mask = ok (mask_and mask (valid_mask n))
    block_or (cons r rs) n depth max_depth mask = do
      bits ← eval_block_with_depth r n depth max_depth
      let rest = block_or rs n depth max_depth (mask_or mask bits)
      if mask_beq (mask_or mask bits) (valid_mask n) then ok (valid_mask n) else rest

    -- The loop that counts, and the mask of the rows with enough.
    pub block_counts : Requirements P → ℕ → ℕ → ℕ → ℕ → (ℕ → ℕ) → Masked
    block_counts nil required n depth max_depth counts =
        ok (mask_and (λ i. ltb i n && leb required (counts i)) (valid_mask n))
    block_counts (cons r rs) required n depth max_depth counts = do
      bits ← eval_block_with_depth r n depth max_depth
      block_counts rs required n depth max_depth
          (count_bits n (mask_and bits (valid_mask n)) counts)

-- `unwrap_or(0)`
abbrev pub or_zero : Masked → Mask64
or_zero (ok mask) = mask
or_zero (err e) = zero_mask

unfoldable pub eval_block {ℓ} : {P : Type ℓ} → (P → ℕ → Mask64) → Requirement P → ℕ → Mask64
eval_block leaf r count = or_zero (eval_block_with_depth leaf r count 0 max_eval_depth)
