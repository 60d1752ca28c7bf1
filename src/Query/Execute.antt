-- ===== src/Query/Execute.antt =====
-- crates/infralens-query/src/lib.rs: from the text of a query to its batches. `none` means that the
-- parser's fuel ran out; the lexer gives at least one token.
pub mod Joined
mod Tests
use infralens.Prelude.{ℕ, Option, none, some, List, [], ◌∷◌, Bytes, ℤ, Result, ok, err}
use infralens.Query.Ast.{Statement}
use infralens.Query.Catalog.{Catalog}
use infralens.Query.Errors.{QueryError}
use infralens.Query.Executor.Tree.{Executor, execute_plan}
use infralens.Query.Lexer.{Token, tokenise}
use infralens.Query.Optimizer.{optimize}
use infralens.Query.Parser.{Parser, Parsed, parse_statement}
use infralens.Query.Planner.{plan_statement, to_physical}

-- What a query finds: the operators' surroundings, the catalog, the clock in nanoseconds, the reader of
-- floats and the text of a token.
pub record Session (Row : Type 0) : Type 0 where
  pub executor : Executor Row
  pub catalog : Catalog
  pub clock : ℤ
  pub parse_f64 : Bytes → Result {0, 0} ℕ Bytes
  pub debug : Token → Bytes

abbrev pub parser_of : List Token → Option Parser
parser_of [] = none
parser_of (t ∷ ts) = some (record { current = t; rest = ts })

module _ {Row : Type 0} (session : Session Row) where
  abbrev pub Answer : Type 0
  Answer = Option (Result {0, 0} (List (List Row)) QueryError)

  unfoldable pub execute_statement : Statement → Result {0, 0} (List (List Row)) QueryError
  execute_statement statement = execute_plan session.executor (
      to_physical session.catalog
        (optimize session.clock session.catalog (plan_statement statement)))

  abbrev pub with_statement : Parsed Statement → Answer
  with_statement none = none
  with_statement (some (err e)) = some (err e)
  with_statement (some (ok (statement, p))) = some (execute_statement statement)

  abbrev pub with_parser : ℕ → Option Parser → Answer
  with_parser fuel none = none
  with_parser fuel (some p) = with_statement (parse_statement session.debug fuel p)

  abbrev pub with_tokens : ℕ → Option (Result {0, 0} (List Token) QueryError) → Answer
  with_tokens fuel none = none
  with_tokens fuel (some (err e)) = some (err e)
  with_tokens fuel (some (ok tokens)) = with_parser fuel (parser_of tokens)

  unfoldable pub execute : ℕ → Bytes → Answer
  execute fuel sql = with_tokens fuel (tokenise session.parse_f64 sql)
