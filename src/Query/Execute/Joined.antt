-- ===== src/Query/Execute/Joined.antt =====
-- A statement with a JOIN is planned and optimised, and then refused.
use infralens.Prelude.{
  ℕ, ◌≡◌, refl, ◌∙◌, ap, Bool, true, false, Option, none, some, List, [], ◌∷◌, Bytes, codes, Result,
  err, ℤ, arith,
}
use infralens.Query.Ast.{Expr, SelectStatement, Statement, JoinClause, OrderByItem}
use infralens.Query.Catalog.{Catalog}
use infralens.Query.Errors.{QueryError}
use infralens.Query.Execute.{Session, execute_statement}
use infralens.Query.Executor.Tree.{Executor, build_logical, build, execute_plan}
use infralens.Query.Optimizer.{
  transform_plan, fold_constants, push_predicate, predicate_pushdown, push_projection,
  projection_pushdown, partition_prune, optimize,
}
use infralens.Query.Plan.{AggExpr, LogicalPlan, scan, filter, project, aggregate, sort, limit, join}
use infralens.Query.Planner.{
  base_scan, column_names, extract_aggregates, add_joins, add_filter, add_aggregate, add_project,
  add_sort, add_limit, plan_select, plan_statement, to_physical,
}

-- Whether the operators of a plan, from the outermost inwards, come to a join.
abbrev pub reaches_join : LogicalPlan → Bool
reaches_join (scan s) = false
reaches_join (filter predicate input) = reaches_join input
reaches_join (project columns input) = reaches_join input
reaches_join (aggregate keys aggregates input) = reaches_join input
reaches_join (sort keys input) = reaches_join input
reaches_join (limit n offset input) = reaches_join input
reaches_join (join kind left right condition) = true

transform_plan_lem :
    (f : Expr → Expr) (plan : LogicalPlan)
    → reaches_join (transform_plan f plan) ≡ reaches_join plan
unfolding transform_plan
transform_plan_lem f (scan s) = refl
transform_plan_lem f (filter predicate input) = transform_plan_lem f input
transform_plan_lem f (project columns input) = transform_plan_lem f input
transform_plan_lem f (aggregate keys aggregates input) = transform_plan_lem f input
transform_plan_lem f (sort keys input) = transform_plan_lem f input
transform_plan_lem f (limit n offset input) = transform_plan_lem f input
transform_plan_lem f (join kind left right condition) = refl

push_predicate_lem :
    (predicate : Expr) (plan : LogicalPlan)
    → reaches_join (push_predicate predicate plan) ≡ reaches_join plan
push_predicate_lem predicate (scan s) = refl
push_predicate_lem predicate plan = refl

predicate_pushdown_lem :
    (plan : LogicalPlan) → reaches_join (predicate_pushdown plan) ≡ reaches_join plan
unfolding predicate_pushdown
predicate_pushdown_lem (scan s) = refl
predicate_pushdown_lem (filter predicate input) =
    push_predicate_lem predicate (predicate_pushdown input) ∙ predicate_pushdown_lem input
predicate_pushdown_lem (project columns input) = predicate_pushdown_lem input
predicate_pushdown_lem (aggregate keys aggregates input) = predicate_pushdown_lem input
predicate_pushdown_lem (sort keys input) = predicate_pushdown_lem input
predicate_pushdown_lem (limit n offset input) = predicate_pushdown_lem input
predicate_pushdown_lem (join kind left right condition) = refl

push_projection_lem :
    (columns : List Bytes) (plan : LogicalPlan)
    → reaches_join (push_projection columns plan) ≡ reaches_join plan
push_projection_lem columns (scan s) = refl
push_projection_lem columns plan = refl

projection_pushdown_lem :
    (plan : LogicalPlan) → reaches_join (projection_pushdown plan) ≡ reaches_join plan
unfolding projection_pushdown
projection_pushdown_lem (scan s) = refl
projection_pushdown_lem (filter predicate input) = projection_pushdown_lem input
projection_pushdown_lem (project columns input) =
    push_projection_lem columns (projection_pushdown input) ∙ projection_pushdown_lem input
projection_pushdown_lem (aggregate keys aggregates input) = projection_pushdown_lem input
projection_pushdown_lem (sort keys input) = projection_pushdown_lem input
projection_pushdown_lem (limit n offset input) = projection_pushdown_lem input
projection_pushdown_lem (join kind left right condition) = refl

partition_prune_lem :
    (catalog : Catalog) (plan : LogicalPlan)
    → reaches_join (partition_prune catalog plan) ≡ reaches_join plan
unfolding partition_prune
partition_prune_lem catalog (scan s) = refl
partition_prune_lem catalog (filter predicate input) = partition_prune_lem catalog input
partition_prune_lem catalog (project columns input) = partition_prune_lem catalog input
partition_prune_lem catalog (aggregate keys aggregates input) = partition_prune_lem catalog input
partition_prune_lem catalog (sort keys input) = partition_prune_lem catalog input
partition_prune_lem catalog (limit n offset input) = partition_prune_lem catalog input
partition_prune_lem catalog (join kind left right condition) = refl

optimize_lem :
    (clock : ℤ) (catalog : Catalog) (plan : LogicalPlan)
    → reaches_join (optimize clock catalog plan) ≡ reaches_join plan
unfolding optimize fold_constants
optimize_lem clock catalog plan =
    partition_prune_lem catalog _
    ∙ projection_pushdown_lem _
    ∙ predicate_pushdown_lem _
    ∙ transform_plan_lem _ plan

-- What has a join keeps one.
add_joins_more :
    (js : List JoinClause) (plan : LogicalPlan)
    → reaches_join plan ≡ true
    → reaches_join (add_joins js plan) ≡ true
unfolding add_joins
add_joins_more [] plan h = h
add_joins_more (j ∷ js) plan h = add_joins_more js _ refl

add_joins_lem :
    (j : JoinClause) (js : List JoinClause) (plan : LogicalPlan)
    → reaches_join (add_joins (j ∷ js) plan) ≡ true
unfolding add_joins
add_joins_lem j js plan =
    add_joins_more js (join j.kind plan (base_scan j.table.name none) j.condition) refl

add_filter_lem :
    (o : Option Expr) (plan : LogicalPlan) → reaches_join (add_filter o plan) ≡ reaches_join plan
add_filter_lem none plan = refl
add_filter_lem (some predicate) plan = refl

add_aggregate_lem :
    (keys : List Expr) (aggs : List AggExpr) (plan : LogicalPlan)
    → reaches_join (add_aggregate keys aggs plan) ≡ reaches_join plan
add_aggregate_lem [] [] plan = refl
add_aggregate_lem [] (agg ∷ aggs) plan = refl
add_aggregate_lem (key ∷ keys) aggs plan = refl

add_project_lem :
    (columns : List Bytes) (plan : LogicalPlan)
    → reaches_join (add_project columns plan) ≡ reaches_join plan
add_project_lem [] plan = refl
add_project_lem (c ∷ cs) plan = refl

add_sort_lem :
    (items : List OrderByItem) (plan : LogicalPlan)
    → reaches_join (add_sort items plan) ≡ reaches_join plan
add_sort_lem [] plan = refl
add_sort_lem (o ∷ os) plan = refl

add_limit_lem :
    (n offset : Option ℕ) (plan : LogicalPlan)
    → reaches_join (add_limit n offset plan) ≡ reaches_join plan
add_limit_lem none offset plan = refl
add_limit_lem (some n) offset plan = refl

-- The stages of a statement with a join.
plan_select_lem :
    (sel : SelectStatement) (j : JoinClause) (js : List JoinClause)
    → sel.joins ≡ j ∷ js
    → reaches_join (plan_select sel) ≡ true
unfolding plan_select
plan_select_lem sel j js h =
    add_limit_lem sel.limit sel.offset _
    ∙ add_sort_lem sel.order_by _
    ∙ add_project_lem (column_names sel.projections) _
    ∙ add_filter_lem sel.having _
    ∙ add_aggregate_lem sel.group_by (extract_aggregates sel.projections) _
    ∙ add_filter_lem sel.filter _
    ∙ ap (λ l. reaches_join (add_joins l (base_scan sel.from.name sel.limit))) h
    ∙ add_joins_lem j js (base_scan sel.from.name sel.limit)

module _ {Row : Type 0} where
  abbrev pub refused : Result {0, 0} (List (List Row)) QueryError
  refused = err (
      QueryError.execution (
        codes "cross-table JOIN requires distributed executor (Phase 3 local scope: single-table)"))

  build_logical_lem :
      (env : Executor Row) (batch_size : ℕ) (plan : LogicalPlan)
      → reaches_join plan ≡ true
      → build_logical env batch_size plan
        ≡ err (
            QueryError.execution (
              codes
                "cross-table JOIN requires distributed executor (Phase 3 local scope: single-table)"))
  unfolding build_logical
  build_logical_lem env batch_size (scan s) h = absurd (ground (arith, h))
  build_logical_lem env batch_size (filter predicate input) h =
      rw (build_logical_lem env batch_size input h) refl
  build_logical_lem env batch_size (project columns input) h =
      build_logical_lem env batch_size input h
  build_logical_lem env batch_size (aggregate keys aggregates input) h =
      rw (build_logical_lem env batch_size input h) refl
  build_logical_lem env batch_size (sort keys input) h =
      rw (build_logical_lem env batch_size input h) refl
  build_logical_lem env batch_size (limit n offset input) h =
      rw (build_logical_lem env batch_size input h) refl
  build_logical_lem env batch_size (join kind left right condition) h = refl

  -- Every statement with a JOIN, whatever its other clauses, the catalog and the data, is refused
  -- with the execution error that a JOIN requires the distributed executor, once it is planned and
  -- optimised.
  pub execute_statement-joins :
      (session : Session Row) (sel : SelectStatement) (j : JoinClause) (js : List JoinClause)
      → sel.joins ≡ j ∷ js
      → execute_statement session (Statement.select sel) ≡ refused
  unfolding execute_statement execute_plan build to_physical plan_statement
  execute_statement-joins session sel j js h =
      rw
        (build_logical_lem session.executor 8192
          (optimize session.clock session.catalog (plan_select sel))
          (optimize_lem session.clock session.catalog (plan_select sel)
            ∙ plan_select_lem sel j js h))
        refl
