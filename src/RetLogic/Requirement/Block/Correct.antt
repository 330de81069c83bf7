-- ===== src/RetLogic/Requirement/Block/Correct.antt =====
-- crates/ret-logic/src/requirement.rs: every bit of `eval_block` next to `eval` on its row.
use mathlib.Core.Bool
use mathlib.Core.Path.{subst}
use Prim.Native.Nat.{min}
use decision_gate.Prelude.{
  ℕ, zero, suc, ◌+◌, ◌≤◌, ◌<◌, ◌≡◌, ◌≢◌, ◌⊎◌, refl, Bool, true, false, ◌&&◌, ◌||◌, Bool-cases, inl,
  inr, ltb, leb, nat_beq, if◌then◌else◌, saturating_add, usize_max, arith,
}
use decision_gate.Prelude.Outcome.{ok}
use decision_gate.RetLogic.Requirement.{
  Requirement, Requirements, and, or, not, require_group, condition, nil, cons, len, max_eval_depth,
}
use decision_gate.RetLogic.Requirement.Shape.{
  height, holds, holding, all_hold, some_holds, height_all,
}
use decision_gate.RetLogic.Requirement.Eval.{eval}
use decision_gate.RetLogic.Requirement.Eval.Correct.{eval-holds}
use decision_gate.RetLogic.Requirement.Block.{
  Mask64, all_below, zero_mask, valid_mask, mask_and, mask_or, mask_not, bit_beq, is_zero, mask_beq,
  count_bits, Masked, guarded, group_of, eval_block_with_depth, block_and, block_or, block_counts,
  eval_block,
}

-- Every minimum of a group fits in a `u8`.
abbrev mutual
  pub IsU8 {ℓ} : {P : Type ℓ} → Requirement P → Type 0
  IsU8 (condition c) = Unit
  IsU8 (not r) = IsU8 r
  IsU8 (and rs) = AllU8 rs
  IsU8 (or rs) = AllU8 rs
  IsU8 (require_group required rs) = (required ≤ 255) × AllU8 rs

  pub AllU8 {ℓ} : {P : Type ℓ} → Requirements P → Type 0
  AllU8 nil = Unit
  AllU8 (cons r rs) = IsU8 r × AllU8 rs

-- The mask of the first `n` rows with `f`.
abbrev pub Bits : Mask64 → ℕ → (ℕ → Bool) → Type 0
Bits m n f = (i : ℕ) → m i ≡ (ltb i n && f i)

nat_cases : (i k : ℕ) → (i ≡ k) ⊎ (i ≢ k)
nat_cases i k = elim (Bool-cases (nat_beq i k)) [
  | inl e ↦ inl (ground arith)
  | inr e ↦ inr (ground arith)
]

both_true : (a b : Bool) → (a && b) ≡ true → (a ≡ true) × (b ≡ true)
both_true true b h = (refl, h)
both_true false b h = cc

all_below-at : (k : ℕ) (p : ℕ → Bool) → all_below k p ≡ true → (i : ℕ) → i < k → p i ≡ true
unfolding all_below
all_below-at zero p h i l = absurd (omega arith)
all_below-at (suc k) p h i l = elim (nat_cases i k) [
  | inl e ↦ rw e (both_true (p k) (all_below k p) h).0
  | inr n ↦ all_below-at k p (both_true (p k) (all_below k p) h).1 i (omega (arith, l, n))
]

-- The early exits: the mask 0 has no row, and the valid mask has all.
zero-Bits :
    (m : Mask64) (n : ℕ) (f : ℕ → Bool)
    → n ≤ 64
    → Bits m n f
    → is_zero m ≡ true
    → (i : ℕ) → (ltb i n && f i) ≡ false
zero-Bits m n f small b z i = ground (arith, b i, all_below-at 64 (λ i. Bool.not (m i)) z i)

full-Bits :
    (m : Mask64) (n : ℕ) (f : ℕ → Bool)
    → n ≤ 64
    → Bits m n f
    → mask_beq m (valid_mask n) ≡ true
    → (i : ℕ) → (ltb i n && f i) ≡ ltb i n
full-Bits m n f small b z i =
    ground (arith, b i, all_below-at 64 (λ i. bit_beq (m i) (valid_mask n i)) z i)

and-Bits :
    (n : ℕ) (a b : Mask64) (f g : ℕ → Bool)
    → Bits a n f
    → Bits b n g
    → Bits (mask_and a b) n (λ i. f i && g i)
and-Bits n a b f g h k i = ground (arith, h i, k i)

or-Bits :
    (n : ℕ) (a b : Mask64) (f g : ℕ → Bool)
    → Bits a n f
    → Bits b n g
    → Bits (mask_or a b) n (λ i. f i || g i)
or-Bits n a b f g h k i = ground (arith, h i, k i)

module _ {ℓ} {P : Type ℓ} (leaf : P → ℕ → Mask64) (row : P → ℕ → Bool)
    (batch : (c : P) (n i : ℕ) → i < min n 64 → leaf c n i ≡ row c i) (max_depth : ℕ)
    (small : max_depth < usize_max) where
  -- The computation gives the mask of these rows.
  abbrev Gives : Masked → ℕ → (ℕ → Bool) → Type 0
  Gives m n f = (mask : Mask64) × (m ≡ ok mask) × Bits mask n f

  abbrev meaning : Requirement P → ℕ → Bool
  meaning r i = holds (λ c. row c i) r

  and_exit :
      (n : ℕ) (mask bits : Mask64) (f g h : ℕ → Bool) (rest : Masked)
      → n ≤ 64
      → Bits mask n f
      → Bits bits n g
      → Gives rest n (λ i. (f i && g i) && h i)
      → Gives
          (if is_zero (mask_and mask bits) then ok zero_mask else rest)
          n
          (λ i. f i && (g i && h i))
  and_exit n mask bits f g h rest s a b (m, e, k) =
      elim (Bool-cases (is_zero (mask_and mask bits))) [
        | inl z ↦ rw z (
          zero_mask,
          refl,
          λ i. ground (
            arith,
            zero-Bits (mask_and mask bits) n (λ i. f i && g i) s (and-Bits n mask bits f g a b) z i,
          ),
        )
        | inr z ↦ rw z (m, e, λ i. ground (arith, k i))
      ]

  or_exit :
      (n : ℕ) (mask bits : Mask64) (f g h : ℕ → Bool) (rest : Masked)
      → n ≤ 64
      → Bits mask n f
      → Bits bits n g
      → Gives rest n (λ i. (f i || g i) || h i)
      → Gives
          (if mask_beq (mask_or mask bits) (valid_mask n) then ok (valid_mask n) else rest)
          n
          (λ i. f i || (g i || h i))
  or_exit n mask bits f g h rest s a b (m, e, k) =
      elim (Bool-cases (mask_beq (mask_or mask bits) (valid_mask n))) [
        | inl z ↦ rw z (
          valid_mask n,
          refl,
          λ i. ground (
            arith,
            full-Bits (mask_or mask bits) n (λ i. f i || g i) s (or-Bits n mask bits f g a b) z i,
          ),
        )
        | inr z ↦ rw z (m, e, λ i. ground (arith, k i))
      ]

  -- The tests before the match: no rows give the mask 0.
  within_bits :
      (count depth : ℕ) (body : Masked) (f : ℕ → Bool)
      → depth ≤ max_depth
      → Gives body (min count 64) f
      → Gives (guarded leaf count depth max_depth body) (min count 64) f
  within_bits count depth body f d (m, e, k) = elim (Bool-cases (nat_beq (min count 64) 0)) [
    | inl none_left ↦ (zero_mask, ground arith, λ i. ground (arith, k i))
    | inr some_left ↦ (m, ground arith, k)
  ]

  leaf_bit : (c : P) (n i : ℕ) → n ≤ 64 → (leaf c n i && ltb i n) ≡ (ltb i n && row c i)
  leaf_bit c n i s = elim (Bool-cases (ltb i n)) [
    | inl l ↦ ground (arith, batch c n i (ground arith))
    | inr l ↦ ground arith
  ]

  same_rows : (n : ℕ) (m : Mask64) (f : ℕ → Bool) → n ≤ 64 → Bits m (min n 64) f → Bits m n f
  same_rows n m f s k = subst (λ j. Bits m j f) (omega arith) k

  holding-le-len : (rs : Requirements P) (i : ℕ) → holding (λ c. row c i) rs ≤ len rs
  unfolding holding
  holding-le-len nil i = omega arith
  holding-le-len (cons r rs) i = ground (arith, holding-le-len rs i)

  some_holding :
      (rs : Requirements P) (i : ℕ)
      → some_holds (λ c. row c i) rs ≡ leb 1 (holding (λ c. row c i) rs)
  unfolding holds
  some_holding nil i = refl
  some_holding (cons r rs) i = ground (arith, some_holding rs i)

  all_holding :
      (rs : Requirements P) (i : ℕ)
      → all_hold (λ c. row c i) rs ≡ leb (len rs) (holding (λ c. row c i) rs)
  unfolding holds
  all_holding nil i = refl
  all_holding (cons r rs) i = ground (arith, all_holding rs i, holding-le-len rs i)

  -- Each branch of a group gives the rows with enough members that hold.
  group_bits :
      (rs : Requirements P) (required n : ℕ) (anyone everyone counted : Masked)
      → Gives anyone n (λ i. false || some_holds (λ c. row c i) rs)
      → Gives everyone n (λ i. true && all_hold (λ c. row c i) rs)
      → Gives counted n (λ i. leb required (0 + holding (λ c. row c i) rs))
      → Gives
          (group_of required (len rs) n anyone everyone counted)
          n
          (λ i. leb required (holding (λ c. row c i) rs))
  group_bits rs required n anyone everyone counted (a, ea, ka) (b, eb, kb) (c, ec, kc) =
      elim (Bool-cases (nat_beq required 0)) [
        | inl zero_required ↦ rw zero_required (valid_mask n, refl, λ i. ground arith)
        | inr z ↦ elim (Bool-cases (ltb (len rs) required)) [
          | inl many ↦ rw (z, many) (zero_mask, refl, λ i. ground (arith, holding-le-len rs i))
          | inr fits ↦ elim (Bool-cases (nat_beq required 1)) [
            | inl one ↦ rw (z, fits, one) (a, ea, λ i. ground (arith, ka i, some_holding rs i))
            | inr o ↦ elim (Bool-cases (nat_beq required (len rs))) [
              | inl whole ↦
                  rw (z, fits, o, whole)
                    (
                      mask_and b (valid_mask n),
                      rw eb refl,
                      λ i. ground (arith, kb i, all_holding rs i),
                    )
              | inr part ↦ rw (z, fits, o, part) (c, ec, λ i. ground (arith, kc i))
            ]
          ]
        ]
      ]

  mutual
    unfolding height holds eval_block_with_depth

    block_lem :
        (r : Requirement P) (count depth : ℕ)
        → IsU8 r
        → depth + height r ≤ max_depth
        → Gives (eval_block_with_depth leaf r count depth max_depth) (min count 64) (meaning r)
    block_lem (condition c) count depth u h =
        within_bits count depth _ (meaning (condition c)) (omega arith) (
          mask_and (leaf c (min count 64)) (valid_mask (min count 64)),
          refl,
          λ i. leaf_bit c (min count 64) i (omega arith),
        )
    block_lem (not r) count depth u h =
        let (m, e, k) = block_lem r (min count 64) (saturating_add depth 1) u (omega arith) in
        within_bits count depth _ (meaning (not r)) (omega arith)
          (mask_and (mask_not m) (valid_mask (min count 64)), rw e refl, λ i. ground (arith, k i))
    block_lem (and rs) count depth u h =
        within_bits count depth _ (meaning (and rs)) (omega arith) (
          and_lem rs (min count 64) depth (valid_mask (min count 64)) (λ i. true) u h (omega arith)
            (λ i. ground arith))
    block_lem (or rs) count depth u h = within_bits count depth _ (meaning (or rs)) (omega arith) (
        or_lem rs (min count 64) depth zero_mask (λ i. false) u h (omega arith) (λ i. ground arith))
    block_lem (require_group required rs) count depth u h =
        within_bits count depth _ (meaning (require_group required rs)) (omega arith) (
          group_bits rs required (min count 64)
            (block_or leaf rs (min count 64) (saturating_add depth 1) max_depth zero_mask)
            (block_and leaf rs (min count 64) (saturating_add depth 1) max_depth
              (valid_mask (min count 64)))
            (block_counts leaf rs required (min count 64) (saturating_add depth 1) max_depth
              (λ i. 0))
            (or_lem rs (min count 64) depth zero_mask (λ i. false) u.1 h (omega arith)
              (λ i. ground arith))
            (and_lem rs (min count 64) depth (valid_mask (min count 64)) (λ i. true) u.1 h
              (omega arith) (λ i. ground arith))
            (counts_lem rs required (min count 64) depth (λ i. 0) u.0 u.1 h (omega arith)))

    and_lem :
        (rs : Requirements P) (n depth : ℕ) (mask : Mask64) (f : ℕ → Bool)
        → AllU8 rs
        → depth + height_all rs ≤ max_depth
        → n ≤ 64
        → Bits mask n f
        → Gives
            (block_and leaf rs n (saturating_add depth 1) max_depth mask)
            n
            (λ i. f i && all_hold (λ c. row c i) rs)
    and_lem nil n depth mask f u h s b = (mask, refl, λ i. ground (arith, b i))
    and_lem (cons r rs) n depth mask f u h s b =
        let (bits, e, k) = block_lem r n (saturating_add depth 1) u.0 (omega arith) in
        let k' = same_rows n bits (meaning r) s k in
        rw e (
          and_exit n mask bits f (meaning r) (λ i. all_hold (λ c. row c i) rs) _ s b k'
            (and_lem rs n depth (mask_and mask bits) (λ i. f i && meaning r i) u.1 (omega arith) s
              (and-Bits n mask bits f (meaning r) b k')))

    or_lem :
        (rs : Requirements P) (n depth : ℕ) (mask : Mask64) (f : ℕ → Bool)
        → AllU8 rs
        → depth + height_all rs ≤ max_depth
        → n ≤ 64
        → Bits mask n f
        → Gives
            (block_or leaf rs n (saturating_add depth 1) max_depth mask)
            n
            (λ i. f i || some_holds (λ c. row c i) rs)
    or_lem nil n depth mask f u h s b =
        (mask_and mask (valid_mask n), refl, λ i. ground (arith, b i))
    or_lem (cons r rs) n depth mask f u h s b =
        let (bits, e, k) = block_lem r n (saturating_add depth 1) u.0 (omega arith) in
        let k' = same_rows n bits (meaning r) s k in
        rw e (
          or_exit n mask bits f (meaning r) (λ i. some_holds (λ c. row c i) rs) _ s b k'
            (or_lem rs n depth (mask_or mask bits) (λ i. f i || meaning r i) u.1 (omega arith) s
              (or-Bits n mask bits f (meaning r) b k')))

    counts_lem :
        (rs : Requirements P) (required n depth : ℕ) (counts : ℕ → ℕ)
        → required ≤ 255
        → AllU8 rs
        → depth + height_all rs ≤ max_depth
        → n ≤ 64
        → Gives
            (block_counts leaf rs required n (saturating_add depth 1) max_depth counts)
            n
            (λ i. leb required (counts i + holding (λ c. row c i) rs))
    counts_lem nil required n depth counts v u h s =
        (mask_and (λ i. ltb i n && leb required (counts i)) (valid_mask n), refl, λ i. ground arith)
    counts_lem (cons r rs) required n depth counts v u h s =
        let (bits, e, k) = block_lem r n (saturating_add depth 1) u.0 (omega arith) in
        let k' = same_rows n bits (meaning r) s k in
        let (m, e', l) =
          counts_lem rs required n depth (count_bits n (mask_and bits (valid_mask n)) counts) v u.1
            (omega arith) s in
        (m, rw e e', λ i. ground (arith, k' i, l i))

  pub block_bits :
      (r : Requirement P) (count depth : ℕ)
      → IsU8 r
      → depth + height r ≤ max_depth
      → Gives (eval_block_with_depth leaf r count depth max_depth) (min count 64) (meaning r)
  block_bits r count depth u h = block_lem r count depth u h

-- Within the limit on depth, `eval_block` sets the bit of a row of the block, and no other, exactly
-- where `eval` is true on that row: early exits on masks, the branches of groups and the counters that
-- stop at 255 never change it. The leaves' batch kernels must agree with their rows, and the minimum
-- of a group is a `u8`.
pub eval_block-eval {ℓ} :
    {P : Type ℓ} (leaf : P → ℕ → Mask64) (row : P → ℕ → Bool) (r : Requirement P)
    (count start i : ℕ)
    → ((c : P) (n j : ℕ) → j < min n 64 → leaf c n j ≡ row c (start + j))
    → height r ≤ max_eval_depth
    → IsU8 r
    → eval_block leaf r count i ≡ (ltb i (min count 64) && eval (λ c. row c (start + i)) r)
unfolding eval_block
eval_block-eval leaf row r count start i batch h u =
    let (m, e, k) =
      block_bits leaf (λ c j. row c (start + j)) batch max_eval_depth (omega arith) r count 0 u
        (omega arith) in
    rw (e, eval-holds (λ c. row c (start + i)) r h) (k i)
