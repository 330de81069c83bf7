-- ===== src/RetLogic/Dsl/Total.antt =====
-- crates/ret-logic/src/dsl.rs: the lexer comes to an end.
use mathlib.Core.Path.{subst}
use decision_gate.Prelude.{
  ℕ, zero, suc, ◌+◌, ◌≤◌, ◌<◌, ◌≡◌, ◌⊎◌, inl, inr, refl, Bool, true, false, List, [], ◌∷◌, ◌++◌,
  length, drop, Option, some, arith, if◌then◌else◌, nat_beq,
}
use decision_gate.Prelude.Outcome.{ok, err}
use decision_gate.RetLogic.Dsl.{
  Text, DslError, SpannedToken, Token, eof, spanned, taken, Round, blank, emit, stop, width,
  emitted, round, next_is, finished, or_stop, lex_from, Lexed, lex, is_blank, is_digit, starts_word,
  is_word,
}

-- Each position is past the one before, and the last is below the bound.
abbrev pub Rising : ℕ → List SpannedToken → ℕ → Type 0
Rising low [] high = low ≤ high
Rising low (t ∷ tokens) high = (low ≤ t.position) × Rising (suc t.position) tokens high

Rising-end :
    (low : ℕ) (tokens : List SpannedToken) (mid high : ℕ) (t : Token)
    → Rising low tokens mid
    → mid < high
    → Rising low (tokens ++ spanned t mid ∷ []) high
Rising-end low [] mid high t h l = (h, l)
Rising-end low (s ∷ tokens) mid high t h l =
    (h.0, Rising-end (suc s.position) tokens mid high t h.1 l)

Rising-mono :
    (low : ℕ) (tokens : List SpannedToken) (mid high : ℕ)
    → Rising low tokens mid
    → mid ≤ high
    → Rising low (tokens ++ []) high
Rising-mono low [] mid high h l = omega (arith, h, l)
Rising-mono low (s ∷ tokens) mid high h l =
    (h.0, Rising-mono (suc s.position) tokens mid high h.1 l)

taken_le : (p : ℕ → Bool) (bytes : Text) → length (taken p bytes) ≤ length bytes
unfolding taken
taken_le p [] = omega arith
taken_le p (b ∷ bytes) = ground (arith, taken_le p bytes)

next_le : (b : ℕ) (bytes : Text) → next_is b bytes ≡ true → 1 ≤ length bytes
next_le b [] h = cc
next_le b (c ∷ bytes) h = omega arith

length-drop : (n : ℕ) (bytes : Text) → n ≤ length bytes → length (drop n bytes) + n ≡ length bytes
length-drop zero bytes h = omega arith
length-drop (suc n) [] h = omega arith
length-drop (suc n) (b ∷ bytes) h = omega (arith, length-drop n bytes (omega arith))

-- A round passes a byte at least, and none past the end.
abbrev Fits : Round → ℕ → Type 0
Fits r n = (1 ≤ width r) × (width r ≤ suc n)

either-Fits :
    (b : Bool) (r s : Round) (n : ℕ)
    → (b ≡ true → Fits r n)
    → (b ≡ false → Fits s n)
    → Fits (if b then r else s) n
either-Fits true r s n f g = f refl
either-Fits false r s n f g = g refl

round-Fits : (b : ℕ) (bytes : Text) (offset : ℕ) → Fits (round b bytes offset) (length bytes)
unfolding round
round-Fits b bytes offset =
    let one : (1 ≤ 1) × (1 ≤ suc (length bytes)) = ((omega arith), (omega arith)) in
    either-Fits (is_blank b) _ _ _ (λ e. one)
      (λ e.
        either-Fits (nat_beq b 40) _ _ _ (λ e. one)
          (λ e.
            either-Fits (nat_beq b 41) _ _ _ (λ e. one)
              (λ e.
                either-Fits (nat_beq b 44) _ _ _ (λ e. one)
                  (λ e.
                    either-Fits (nat_beq b 33) _ _ _ (λ e. one)
                      (λ e.
                        either-Fits (nat_beq b 38) _ _ _
                          (λ e.
                            either-Fits (next_is 38 bytes) _ _ _
                              (λ n. ((omega arith), (omega (arith, next_le 38 bytes n))))
                              (λ n. one))
                          (λ e.
                            either-Fits (nat_beq b 124) _ _ _
                              (λ e.
                                either-Fits (next_is 124 bytes) _ _ _
                                  (λ n. ((omega arith), (omega (arith, next_le 124 bytes n))))
                                  (λ n. one))
                              (λ e.
                                either-Fits (is_digit b) _ _ _
                                  (λ e. ((omega arith), (omega (arith, taken_le is_digit bytes))))
                                  (λ e.
                                    either-Fits (starts_word b) _ _ _
                                      (λ e.
                                        ((omega arith), (omega (arith, taken_le is_word bytes))))
                                      (λ e. one)))))))))

-- An error, or tokens at rising positions below the end and the marker of the end behind them.
abbrev pub IsLexed : Option Lexed → ℕ → Type 0
IsLexed out end =
    ((e : DslError) × (out ≡ some (err e)))
    ⊎ ((tokens : List SpannedToken) × (out ≡ some (ok (tokens ++ spanned eof end ∷ [])))
        × (1 ≤ length tokens)
        × Rising 0 tokens end)

finished_lem :
    (tokens : List SpannedToken) (offset : ℕ)
    → Rising 0 tokens offset
    → IsLexed (some (finished tokens offset)) offset
finished_lem [] offset h = inl (DslError.empty_input, refl)
finished_lem (t ∷ tokens) offset h = inr (t ∷ tokens, refl, omega arith, h)

emitted-Rising :
    (r : Round) (tokens : List SpannedToken) (offset n : ℕ)
    → Fits r n
    → Rising 0 tokens offset
    → Rising 0 (tokens ++ emitted r offset) (offset + width r)
emitted-Rising blank tokens offset n f h = Rising-mono 0 tokens offset (offset + 1) h (omega arith)
emitted-Rising (emit t k) tokens offset n f h =
    Rising-end 0 tokens offset (offset + k) t h (omega (arith, f.0))
emitted-Rising (stop e) tokens offset n f h =
    Rising-mono 0 tokens offset (offset + 1) h (omega arith)

or_stop_lem :
    (r : Round) (rest : Option Lexed) (end : ℕ) → IsLexed rest end → IsLexed (or_stop r rest) end
or_stop_lem blank rest end h = h
or_stop_lem (emit t k) rest end h = h
or_stop_lem (stop e) rest end h = inl (e, refl)

lex_from_lem :
    (fuel : ℕ) (bytes : Text) (offset end : ℕ) (tokens : List SpannedToken)
    → length bytes < fuel
    → offset + length bytes ≡ end
    → Rising 0 tokens offset
    → IsLexed (lex_from fuel bytes offset tokens) end
unfolding lex_from
lex_from_lem zero bytes offset end tokens l e h = absurd (omega (arith, l))
lex_from_lem (suc fuel) [] offset end tokens l e h =
    subst (λ k. IsLexed (some (finished tokens offset)) k) (omega (arith, e))
      (finished_lem tokens offset h)
lex_from_lem (suc fuel) (b ∷ bytes) offset end tokens l e h =
    let f = round-Fits b bytes offset in
    let d = length-drop (width (round b bytes offset)) (b ∷ bytes) f.1 in
    or_stop_lem (round b bytes offset) _ end (
      lex_from_lem fuel (drop (width (round b bytes offset)) (b ∷ bytes))
        (offset + width (round b bytes offset)) end _ (omega (arith, d, f.0, l))
        (omega (arith, d, e)) (emitted-Rising (round b bytes offset) tokens offset _ f h))

-- The lexer comes to an end on every input: with an error, or with one token at least and the marker
-- of the end of the input behind them, at rising positions within the input.
pub lex-IsLexed : (input : Text) → IsLexed (lex input) (length input)
unfolding lex
lex-IsLexed input =
    lex_from_lem (suc (length input)) input 0 (length input) [] (omega arith) (omega arith)
      (omega arith)
