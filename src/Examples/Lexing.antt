-- ===== src/Examples/Lexing.antt =====
-- The lexer of crates/ret-logic/src/dsl.rs on a concrete input.
use decision_gate.Prelude.{◌≡◌, refl, [], ◌∷◌, length, some}
use decision_gate.Prelude.Outcome.{ok}
use decision_gate.RetLogic.Dsl.{
  Text, Token, ident, number, l_paren, eof, spanned, taken, keyword_or_ident, round, lex_from, lex,
}
use decision_gate.RetLogic.Dsl.Total.{IsLexed, lex-IsLexed}

-- `a && !or1 not(7`
abbrev sample : Text
sample = 97 ∷ 32 ∷ 38 ∷ 38 ∷ 32 ∷ 33 ∷ 111 ∷ 114 ∷ 49 ∷ 32 ∷ 110 ∷ 111 ∷ 116 ∷ 40 ∷ 55 ∷ []

sample-lex :
    lex sample
    ≡ some (
        ok (
          spanned (ident (97 ∷ [])) 0
          ∷ spanned Token.and 2
          ∷ spanned Token.not 5
          ∷ spanned (ident (111 ∷ 114 ∷ 49 ∷ [])) 6
          ∷ spanned Token.not 10
          ∷ spanned l_paren 13
          ∷ spanned (number (55 ∷ [])) 14
          ∷ spanned eof 15
          ∷ []))
unfolding lex lex_from round taken keyword_or_ident
sample-lex = refl

lex-IsLexed_example : IsLexed (lex sample) (length sample)
lex-IsLexed_example = lex-IsLexed sample
