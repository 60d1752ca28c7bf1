-- ===== src/Query/Lexer/Tests.antt =====
-- The lexer at concrete sources.
use infralens.Prelude.{
  ℕ, ◌≡◌, refl, false, some, List, [], ◌∷◌, Bytes, Result, ok, err, codes, arith,
}
use infralens.Query.Errors.{QueryError}
use infralens.Query.Lexer
use infralens.Query.Lexer.{
  Token, select', from', ident, eof, lt_eq, gt_eq, not_eq, eq, star, str_lit, tokenise, lex_string,
}
use infralens.Query.Lexer.Strings.{lex_string-escaped}
use infralens.Query.Lexer.Total.{Ended, tokenise_total}

abbrev no_float : Bytes → Result ℕ Bytes
no_float text = err (codes "no float")

operators :
    tokenise no_float (codes "<= >= != <> =")
    ≡ some (ok (lt_eq ∷ gt_eq ∷ not_eq ∷ not_eq ∷ eq ∷ eof ∷ []))
unfolding tokenise Lexer.tokenise_loop Lexer.skip_whitespace_and_comments Lexer.next_token
    Lexer.single
operators = refl

simple_select :
    tokenise no_float (codes "Select * -- all\n FROM logs")
    ≡ some (ok (select' ∷ star ∷ from' ∷ ident (codes "logs") ∷ eof ∷ []))
unfolding tokenise Lexer.tokenise_loop Lexer.skip_whitespace_and_comments Lexer.next_token
    Lexer.single Lexer.lex_ident_or_keyword Lexer.span Lexer.keywords
simple_select = refl

tokenise_total_example :
    (r : Result (List Token) QueryError) × (tokenise no_float (codes "SELECT 'it''s'") ≡ some r)
    × Ended r
tokenise_total_example = tokenise_total no_float (codes "SELECT 'it''s'")

lex_string-escaped_example :
    lex_string false (codes "it''s' FROM") ≡ ok (codes "it's", codes " FROM")
lex_string-escaped_example =
    lex_string-escaped (codes "it's") (codes " FROM")
      (
        (λ e. omega (arith, e), omega arith),
        (
          (λ e. omega (arith, e), omega arith),
          ((λ e. omega (arith, e), omega arith), ((λ e. omega (arith, e), omega arith), tt)),
        ),
      )
      (λ e. omega (arith, e))
