-- ===== src/Query/Parser/Tests.antt =====
-- The parser at concrete tokens.
use infralens.Prelude.{◌≡◌, [], ◌∷◌, Bytes, arith, pos}
use infralens.Query.Ast.{int, literal}
use infralens.Query.Lexer.{Token}
use infralens.Query.Parser.{done, parse_expr, parse_addition}
use infralens.Query.Parser.Chains.{differences, from_left, number, parse_addition-differences}

abbrev no_text : Token → Bytes
no_text t = []

parse_addition-differences_example :
    parse_addition no_text 3
      (parse_expr no_text 2)
      (number (pos 9) (differences (pos 4 ∷ pos 3 ∷ [])))
    ≡ done (from_left (literal (int (pos 9))) (pos 4 ∷ pos 3 ∷ [])) (differences [])
parse_addition-differences_example =
    parse_addition-differences no_text (parse_expr no_text 2) 2 (pos 9) (pos 4 ∷ pos 3 ∷ [])
      (omega arith)
