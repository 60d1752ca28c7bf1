-- ===== src/Query/Executor/Tree.antt =====
-- crates/infralens-query/src/executor/mod.rs and the last step of lib.rs: the operators of a plan, and
-- the loop that collects their batches. A batch is its rows.
pub mod Rows
pub mod Plans
mod Tests
use infralens.Prelude.{
  ℕ, suc, Bool, Option, none, some, List, [], ◌∷◌, map, Bytes, codes, length, Result, ok, err,
}
use infralens.Query.Ast.{Expr}
use infralens.Query.Errors.{QueryError}
use infralens.Query.Executor.Polls.{Polls, unroll, collect_polls}
use infralens.Query.Executor.Filter
use infralens.Query.Executor.Limit
use infralens.Query.Executor.Scan.{load_batches}
use infralens.Query.Executor.Sort
use infralens.Query.Executor.Sort.{SortColumn}
use infralens.Query.Plan.{
  ScanOp, AggExpr, LogicalPlan, PhysicalPlan, scan, filter, project, aggregate, sort, limit, join,
}

-- What the operators take from elsewhere: `files` are the SSTables of a signal in some partitions, as the
-- Parquet reader gives them in batches of a size; `mask` is `eval_filter`; `aggregated` is the batch that
-- the aggregate operator computes from the polls of its child; the last two are those of the sort operator.
pub record Executor (Row : Type 0) : Type 0 where
  pub files : ℕ → ℕ → List ℕ → List (Result {0, 0} (Polls (List Row)) QueryError)
  pub mask : Expr → List Row → Result {0, 0} (List (Option Bool)) QueryError
  pub aggregated : List Expr → List AggExpr → Polls (List Row) → Result {0, 0} (List Row) QueryError
  pub columns : List Row → List Bytes
  pub lexsort : List SortColumn → List Row → Result {0, 0} (List Row) Bytes

module _ {Row : Type 0} (env : Executor Row) where
  abbrev pub Built : Type 0
  Built = Result {0, 0} (Polls (List Row)) QueryError

  abbrev pub mask_of :
      Option Expr → Option (List Row → Result {0, 0} (List (Option Bool)) QueryError)
  mask_of none = none
  mask_of (some predicate) = some (env.mask predicate)

  -- `ScanOperator::new`
  unfoldable pub load : ℕ → ScanOp → Result {0, 0} (List (List Row)) QueryError
  load batch_size op =
      load_batches op.table (mask_of op.predicate) op.limit
        (λ signal. env.files batch_size signal op.partition_filter)

  abbrev pub scan_polls : Result {0, 0} (List (List Row)) QueryError → Built
  scan_polls (err e) = err e
  scan_polls (ok batches) = ok (map ok batches)

  -- Each operator polls its child; the fuel is one poll more than the child's.
  abbrev pub over : Built → (Polls (List Row) → Polls (List Row)) → Built
  over (err e) f = err e
  over (ok child) f = ok (f child)

  unfoldable pub filter_polls : Expr → Polls (List Row) → Polls (List Row)
  filter_polls predicate child =
      unroll (Filter.poll_next (env.mask predicate)) (suc (length child)) child

  unfoldable pub limit_polls : ℕ → ℕ → Polls (List Row) → Polls (List Row)
  limit_polls n offset child =
      unroll Limit.poll_next (suc (length child)) (Limit.new child n offset)

  -- The operator has one batch at most.
  unfoldable pub sort_polls : List (Expr × Bool) → Polls (List Row) → Polls (List Row)
  sort_polls keys child = unroll (Sort.poll_next env.columns env.lexsort) 2 (Sort.new child keys)

  unfoldable pub aggregate_polls : List Expr → List AggExpr → Polls (List Row) → Polls (List Row)
  aggregate_polls keys aggregates child = env.aggregated keys aggregates child ∷ []

  unfoldable pub build_logical : ℕ → LogicalPlan → Built
  build_logical batch_size (scan op) = scan_polls (load batch_size op)
  build_logical batch_size (filter predicate input) =
      over (build_logical batch_size input) (filter_polls predicate)
  build_logical batch_size (aggregate keys aggregates input) =
      over (build_logical batch_size input) (aggregate_polls keys aggregates)
  build_logical batch_size (sort keys input) =
      over (build_logical batch_size input) (sort_polls keys)
  build_logical batch_size (limit n offset input) =
      over (build_logical batch_size input) (limit_polls n offset)
  build_logical batch_size (project columns input) = build_logical batch_size input
  build_logical batch_size (join kind left right condition) = err (
      QueryError.execution (
        codes "cross-table JOIN requires distributed executor (Phase 3 local scope: single-table)"))

  unfoldable pub build : PhysicalPlan → Built
  build plan = build_logical plan.batch_size plan.logical

  abbrev collected : Built → Result {0, 0} (List (List Row)) QueryError
  collected (err e) = err e
  collected (ok polls) = collect_polls polls

  unfoldable pub execute_plan : PhysicalPlan → Result {0, 0} (List (List Row)) QueryError
  execute_plan plan = collected (build plan)
