-- ===== src/Query/Planner.antt =====
-- crates/infralens-query/src/planner.rs: from a statement to a logical and a physical plan. Row counts
-- do not add up to 2^64.
pub mod Stages
pub mod Having
use infralens.Prelude.{
  ℕ, ◌+◌, ◌-◌, ◌^◌, Bool, true, false, ◌&&◌, Option, none, some, List, [], ◌∷◌, ◌++◌, map, Bytes,
  Result, ok, err, codes, any, list_eq, leb, if◌then◌else◌, get_or_else,
}
use infralens.Storage.ZoneMap.{u64_max}
use infralens.Query.Ast.{
  Expr, Exprs, nil, cons, column, function, Projection, all_columns, expression, OrderByItem,
  SelectStatement, Statement, select, TableRef, JoinClause,
}
use infralens.Query.Catalog.{Catalog, TableDesc, get_table}
use infralens.Query.Errors.{QueryError}
use infralens.Query.Optimizer.{choose_join_strategy, estimated_rows}
use infralens.Query.Plan.{
  ScanOp, LogicalPlan, JoinStrategy, AggExpr, PhysicalPlan, scan, filter, project, aggregate, sort,
  limit, join,
}

abbrev pub lower : ℕ → ℕ
lower c = if leb 65 c && leb c 90 then c + 32 else c

-- `str::to_ascii_lowercase`
unfoldable pub to_ascii_lowercase : Bytes → Bytes
to_ascii_lowercase text = map lower text

unfoldable pub agg_fns : List Bytes
agg_fns = codes "count" ∷ codes "sum" ∷ codes "avg" ∷ codes "min" ∷ codes "max" ∷ []

abbrev pub first : Exprs → Option Expr
first nil = none
first (cons e es) = some e

abbrev pub aggregate_of : Bytes → Exprs → Option Bytes → List AggExpr → List AggExpr
aggregate_of name args alias rest =
    let lname = to_ascii_lowercase name in
    if any (list_eq lname) agg_fns
    then record { func = lname; arg = first args; alias = get_or_else alias name } ∷ rest
    else rest

-- The aggregates; the plain columns of the pair are never used.
unfoldable pub extract_aggregates : List Projection → List AggExpr
extract_aggregates [] = []
extract_aggregates (expression (function name args) alias ∷ rest) =
    aggregate_of name args alias (extract_aggregates rest)
extract_aggregates (_ ∷ rest) = extract_aggregates rest

abbrev pub base_scan : Bytes → Option ℕ → LogicalPlan
base_scan table n = scan (record {
  table = table;
  predicate = none;
  projection = none;
  partition_filter = [];
  limit = n;
})

unfoldable pub add_joins : List JoinClause → LogicalPlan → LogicalPlan
add_joins [] plan = plan
add_joins (j ∷ js) plan = add_joins js (join j.kind plan (base_scan j.table.name none) j.condition)

-- WHERE, and HAVING.
abbrev pub add_filter : Option Expr → LogicalPlan → LogicalPlan
add_filter none plan = plan
add_filter (some predicate) plan = filter predicate plan

abbrev pub add_aggregate : List Expr → List AggExpr → LogicalPlan → LogicalPlan
add_aggregate [] [] plan = plan
add_aggregate keys aggregates plan = aggregate keys aggregates plan

abbrev pub column_names : List Projection → List Bytes
column_names [] = []
column_names (expression (column table name) alias ∷ rest) =
    get_or_else alias name ∷ column_names rest
column_names (expression e (some alias) ∷ rest) = alias ∷ column_names rest
column_names (_ ∷ rest) = column_names rest

abbrev pub add_project : List Bytes → LogicalPlan → LogicalPlan
add_project [] plan = plan
add_project (c ∷ cs) plan = project (c ∷ cs) plan

abbrev pub sort_keys : List OrderByItem → List (Expr × Bool)
sort_keys items = map (λ o. (o.expr, o.asc)) items

abbrev pub add_sort : List OrderByItem → LogicalPlan → LogicalPlan
add_sort [] plan = plan
add_sort (o ∷ os) plan = sort (sort_keys (o ∷ os)) plan

abbrev pub add_limit : Option ℕ → Option ℕ → LogicalPlan → LogicalPlan
add_limit none offset plan = plan
add_limit (some n) offset plan = limit n (get_or_else offset 0) plan

unfoldable pub plan_select : SelectStatement → LogicalPlan
plan_select sel =
    let joined = add_joins sel.joins (base_scan sel.from.name sel.limit) in
    let filtered = add_filter sel.filter joined in
    let grouped = add_aggregate sel.group_by (extract_aggregates sel.projections) filtered in
    let having = add_filter sel.having grouped in
    let projected = add_project (column_names sel.projections) having in
    let sorted = add_sort sel.order_by projected in add_limit sel.limit sel.offset sorted

unfoldable pub plan_statement : Statement → LogicalPlan
plan_statement (select sel) = plan_select sel

unfoldable pub extract_scan_table : LogicalPlan → Option Bytes
extract_scan_table (scan s) = some s.table
extract_scan_table (filter predicate input) = extract_scan_table input
extract_scan_table (project columns input) = extract_scan_table input
extract_scan_table _ = none

abbrev pub rows_or_max : Result TableDesc QueryError → ℕ
rows_or_max (ok desc) = estimated_rows desc
rows_or_max (err e) = u64_max

abbrev pub rows_of : Catalog → Option Bytes → ℕ
rows_of catalog none = u64_max
rows_of catalog (some table) = rows_or_max (get_table table catalog)

unfoldable pub pick_join_strategy : Catalog → LogicalPlan → Option JoinStrategy
pick_join_strategy catalog (join kind left right condition) = some (
    choose_join_strategy (rows_of catalog (extract_scan_table left))
      (rows_of catalog (extract_scan_table right)))
pick_join_strategy catalog _ = none

unfoldable pub to_physical : Catalog → LogicalPlan → PhysicalPlan
to_physical catalog logical = record {
  logical = logical;
  join_strategy = pick_join_strategy catalog logical;
  batch_size = 8192;
}
