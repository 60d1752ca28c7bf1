-- ===== src/Query/Planner/Having.antt =====
-- A statement with WHERE and HAVING that groups nothing.
use infralens.Prelude.{ℕ, ◌≡◌, refl, ap, Option, none, some, List, [], ◌∷◌, Bytes, get_or_else}
use infralens.Query.Ast.{Expr, Projection, OrderByItem, SelectStatement, TableRef}
use infralens.Query.Optimizer.{predicate_pushdown}
use infralens.Query.Plan.{LogicalPlan}
use infralens.Query.Planner.{
  extract_aggregates, base_scan, add_joins, add_project, column_names, sort_keys, add_sort,
  add_limit, plan_select,
}

-- The statement, by its parts.
abbrev pub ungrouped :
    List Projection
    → TableRef
    → Option Expr
    → Option Expr
    → List OrderByItem
    → Option ℕ
    → Option ℕ
    → SelectStatement
ungrouped projections table condition having order_by n offset = record {
  projections = projections;
  from = table;
  joins = [];
  filter = condition;
  group_by = [];
  having = having;
  order_by = order_by;
  limit = n;
  offset = offset;
}

-- What stands above two plans that are pushed down alike does not tell them apart.
module _ (p q : LogicalPlan) (same : predicate_pushdown p ≡ predicate_pushdown q) where
  same-add_project :
      (columns : List Bytes)
      → predicate_pushdown (add_project columns p) ≡ predicate_pushdown (add_project columns q)
  unfolding predicate_pushdown
  same-add_project [] = same
  same-add_project (c ∷ cs) = ap (LogicalPlan.project (c ∷ cs)) same

  same-add_sort :
      (items : List OrderByItem)
      → predicate_pushdown (add_sort items p) ≡ predicate_pushdown (add_sort items q)
  unfolding predicate_pushdown
  same-add_sort [] = same
  same-add_sort (o ∷ os) = ap (LogicalPlan.sort (sort_keys (o ∷ os))) same

  same-add_limit :
      (n offset : Option ℕ)
      → predicate_pushdown (add_limit n offset p) ≡ predicate_pushdown (add_limit n offset q)
  unfolding predicate_pushdown
  same-add_limit none offset = same
  same-add_limit (some n) offset = ap (LogicalPlan.limit n (get_or_else offset 0)) same

-- Where a statement without joins, grouping and aggregates has both WHERE and HAVING, its plan
-- after pushing predicates down is that of the statement without WHERE.
pub having-replaces-where :
    (projections : List Projection) (table : TableRef) (condition having : Expr)
    (order_by : List OrderByItem) (n offset : Option ℕ)
    → extract_aggregates projections ≡ []
    → predicate_pushdown
        (plan_select (ungrouped projections table (some condition) (some having) order_by n offset))
      ≡ predicate_pushdown
          (plan_select (ungrouped projections table none (some having) order_by n offset))
unfolding plan_select add_joins predicate_pushdown
having-replaces-where projections table condition having order_by n offset plain =
    let scanned = base_scan table.name n in
    let p = LogicalPlan.filter having (LogicalPlan.filter condition scanned) in
    let q = LogicalPlan.filter having scanned in
    let names = column_names projections in
    let p' = add_project names p in
    let q' = add_project names q in
    rw plain (
      same-add_limit (add_sort order_by p') (add_sort order_by q')
        (same-add_sort p' q' (same-add_project p q refl names) order_by) n offset)
