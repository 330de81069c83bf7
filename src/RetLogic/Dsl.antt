-- ===== src/RetLogic/Dsl.antt =====
-- The lexer of crates/ret-logic/src/dsl.rs (`Lexer::lex`) with its tokens and errors. The input is the list of its
-- bytes, and a text is the list of its characters' codes.
pub mod Total
use mathlib.Core.Bool
use decision_gate.Prelude.{
  ℕ, zero, suc, ◌+◌, Bool, true, false, ◌&&◌, ◌||◌, leb, nat_beq, if◌then◌else◌, List, [], ◌∷◌,
  ◌++◌, drop, length, String, Option, none, some,
}
use decision_gate.Prelude.Outcome.{Outcome, ok, err}

abbrev pub Text : Type 0
Text = List ℕ

pub data DslError : Type 0 where
  empty_input : DslError
  input_too_large : (max_bytes actual_bytes : ℕ) → DslError
  nesting_too_deep : (max_depth actual_depth position : ℕ) → DslError
  unexpected_token : (expected : String) (found : Text) (position : ℕ) → DslError
  unknown_condition : (name : Text) (position : ℕ) → DslError
  unknown_function : (name : Text) (position : ℕ) → DslError
  invalid_number : (raw : Text) (position : ℕ) → DslError
  validation : String → DslError
  trailing_input : (position : ℕ) → DslError

pub data Token : Type 0 where
  ident : Text → Token
  number : Text → Token
  and : Token
  or : Token
  not : Token
  l_paren : Token
  r_paren : Token
  comma : Token
  eof : Token

pub record SpannedToken : Type 0 where
  pub token : Token
  pub position : ℕ

abbrev pub spanned : Token → ℕ → SpannedToken
spanned t at = record { token = t; position = at }

abbrev between : ℕ → ℕ → ℕ → Bool
between low high b = leb low b && leb b high

-- The classes of bytes: blank, `0` to `9`, a letter or `_`, and a letter, a digit or `_`.
abbrev pub is_blank : ℕ → Bool
is_blank b = nat_beq b 32 || (nat_beq b 9 || (nat_beq b 10 || nat_beq b 13))

abbrev pub is_digit : ℕ → Bool
is_digit b = between 48 57 b

abbrev pub starts_word : ℕ → Bool
starts_word b = between 97 122 b || (between 65 90 b || nat_beq b 95)

abbrev pub is_word : ℕ → Bool
is_word b = starts_word b || is_digit b

-- `consume_while`: the bytes that are passed.
unfoldable pub taken : (ℕ → Bool) → Text → Text
taken p [] = []
taken p (b ∷ bs) = let rest = taken p bs in if p b then b ∷ rest else []

abbrev pub text_beq : Text → Text → Bool
text_beq [] [] = true
text_beq [] (b ∷ bs) = false
text_beq (a ∷ others) [] = false
text_beq (a ∷ others) (b ∷ bs) = nat_beq a b && text_beq others bs

abbrev pub and_word : Text
and_word = 97 ∷ 110 ∷ 100 ∷ []

abbrev pub or_word : Text
or_word = 111 ∷ 114 ∷ []

abbrev pub not_word : Text
not_word = 110 ∷ 111 ∷ 116 ∷ []

unfoldable pub keyword_or_ident : Text → Token
keyword_or_ident slice =
    if text_beq slice and_word
    then Token.and
    else if text_beq slice or_word
    then Token.or
    else if text_beq slice not_word
    then Token.not
    else ident slice

-- One round of the loop: it passes bytes and adds at most one token, or fails.
pub data Round : Type 0 where
  blank : Round
  emit : Token → ℕ → Round
  stop : DslError → Round

abbrev pub width : Round → ℕ
width blank = 1
width (emit t n) = n
width (stop e) = 1

abbrev pub emitted : Round → ℕ → List SpannedToken
emitted blank offset = []
emitted (emit t n) offset = spanned t offset ∷ []
emitted (stop e) offset = []

-- `peek_char(bytes) == Some(b)`
abbrev pub next_is : ℕ → Text → Bool
next_is b [] = false
next_is b (c ∷ bs) = nat_beq c b

unfoldable pub round : ℕ → Text → ℕ → Round
round ch rest offset =
    if is_blank ch
    then blank
    else if nat_beq ch 40
    then emit l_paren 1
    else if nat_beq ch 41
    then emit r_paren 1
    else if nat_beq ch 44
    then emit comma 1
    else if nat_beq ch 33
    then emit Token.not 1
    else if nat_beq ch 38
    then (if next_is 38 rest
        then emit Token.and 2
        else stop (unexpected_token "&&" (38 ∷ []) offset))
    else if nat_beq ch 124
    then (if next_is 124 rest
        then emit Token.or 2
        else stop (unexpected_token "||" (124 ∷ []) offset))
    else if is_digit ch
    then emit (number (ch ∷ taken is_digit rest)) (suc (length (taken is_digit rest)))
    else if starts_word ch
    then emit (keyword_or_ident (ch ∷ taken is_word rest)) (suc (length (taken is_word rest)))
    else stop (unexpected_token "identifier, number, or operator" (ch ∷ []) offset)

abbrev pub finished : List SpannedToken → ℕ → Outcome DslError (List SpannedToken)
finished [] offset = err empty_input
finished (t ∷ tokens) offset = ok ((t ∷ tokens) ++ spanned eof offset ∷ [])

abbrev pub Lexed : Type 0
Lexed = Outcome DslError (List SpannedToken)

-- An error ends the loop.
abbrev pub or_stop : Round → Option Lexed → Option Lexed
or_stop (stop e) rest = some (err e)
or_stop blank rest = rest
or_stop (emit t n) rest = rest

-- The loop of `lex` on fuel, over the bytes that are left.
unfoldable pub lex_from : ℕ → Text → ℕ → List SpannedToken → Option Lexed
lex_from zero bytes offset tokens = none
lex_from (suc fuel) [] offset tokens = some (finished tokens offset)
lex_from (suc fuel) (b ∷ bytes) offset tokens =
    let r = round b bytes offset in
    or_stop r
      (lex_from fuel (drop (width r) (b ∷ bytes)) (offset + width r) (tokens ++ emitted r offset))

unfoldable pub lex : Text → Option Lexed
lex input = lex_from (suc (length input)) input 0 []
