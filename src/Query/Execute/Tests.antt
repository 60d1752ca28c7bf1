-- ===== src/Query/Execute/Tests.antt =====
-- Queries at concrete inputs: rows are numbers.
use infralens.Prelude.{ℕ, ◌≡◌, refl, none, some, [], ◌∷◌, map, codes, ok, err, ltb, pos}
use infralens.Query.Ast.{Expr, TableRef, JoinKind, JoinClause, SelectStatement, Statement}
use infralens.Query.Catalog
use infralens.Query.Execute.{Session, execute_statement}
use infralens.Query.Execute.Joined.{refused, execute_statement-joins}

abbrev session : Session ℕ
session = record {
  executor = record {
    files = λ signal batch_size parts. [];
    mask = λ predicate rows. ok (map (λ r. some (ltb r 5)) rows);
    aggregated = λ keys aggregates child. ok [];
    columns = λ rows. [];
    lexsort = λ columns rows. ok rows;
  };
  catalog = Catalog.new;
  clock = pos 0;
  parse_f64 = λ text. err text;
  debug = λ t. [];
}

abbrev logs : TableRef
logs = record { name = codes "logs"; alias = none }

abbrev with_traces : JoinClause
with_traces = record {
  kind = JoinKind.inner;
  table = record { name = codes "traces"; alias = none };
  condition = Expr.column none (codes "id");
}

abbrev joined : SelectStatement
joined = record {
  projections = [];
  from = logs;
  joins = with_traces ∷ [];
  filter = some (Expr.column none (codes "ok"));
  group_by = [];
  having = none;
  order_by = [];
  limit = some 5;
  offset = none;
}

execute_statement-joins_example : execute_statement session (Statement.select joined) ≡ refused
execute_statement-joins_example = execute_statement-joins session joined with_traces [] refl
