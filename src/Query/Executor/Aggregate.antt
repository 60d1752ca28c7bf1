-- ===== src/Query/Executor/Aggregate.antt =====
-- crates/infralens-query/src/executor/aggregate.rs: the aggregate operator. Its child is what the polls
-- will return.
pub mod Columns
pub mod Groups
pub mod Scalar
pub mod Grouped
pub mod Extremes
pub mod Reads
pub mod Answers
pub mod Typed
mod Tests
use infralens.Prelude.{
  ℕ, Bool, true, false, Option, none, some, List, [], ◌∷◌, ◌++◌, map, Bytes, codes, list_eq, Result,
  ok, err, if◌then◌else◌,
}
use infralens.Common.Schema.{int64_type, float64_type, Field}
use infralens.Query.Ast.{Expr}
use infralens.Query.Errors.{QueryError}
use infralens.Query.Functions.{
  ArrayData, RecordBatch, Outcome, done, failed, ◌>>=◌, float64_array, string_array,
}
use infralens.Query.Executor.Aggregate.Columns.{AggregateParams, GroupMap, column_name}
use infralens.Query.Executor.Aggregate.Groups.{finalize, group_batches}
use infralens.Query.Executor.Aggregate.Scalar.{scalar_columns}
use infralens.Query.Plan.{AggExpr}

pub record AggregateOperator : Type 0 where
  pub child : Option (List (Result RecordBatch QueryError))
  pub group_by_keys : List Expr
  pub aggregates : List AggExpr
  pub result : Option RecordBatch

unfoldable pub expr_name : Expr → Bytes
expr_name (Expr.column table name) = name
expr_name _ = codes "key"

unfoldable pub collect : List (Result RecordBatch QueryError) → Outcome (List RecordBatch)
collect [] = done []
collect (err e ∷ child) = failed e
collect (ok b ∷ child) = do rest ← collect child; done (b ∷ rest)

unfoldable pub key_field : Expr → Field
key_field k = record { name = expr_name k; data_type = int64_type; nullable = true }

unfoldable pub agg_field : AggExpr → Field
agg_field agg = record {
  name = agg.alias;
  data_type = if list_eq agg.func (codes "count") then int64_type else float64_type;
  nullable = false;
}

unfoldable pub out_schema : List Expr → List AggExpr → List Field
out_schema keys aggs = map key_field keys ++ map agg_field aggs

unfoldable pub new :
    List (Result RecordBatch QueryError) → List Expr → List AggExpr → AggregateOperator
new child keys aggs = record {
  child = some child;
  group_by_keys = keys;
  aggregates = aggs;
  result = none;
}

-- The string builders of the keys: only the first gets a value.
unfoldable pub key_columns : List Expr → List Bytes → List ArrayData
key_columns [] values = []
key_columns (k ∷ ks) values = string_array (map some values) ∷ map (λ k'. string_array []) ks

module _ (params : AggregateParams) where
  unfoldable pub finalized : GroupMap → AggExpr → ArrayData
  finalized groups agg = float64_array (map (λ g. some (finalize params agg.func g.1)) groups)

  unfoldable pub built : Result RecordBatch Bytes → Outcome RecordBatch
  built (ok b) = done b
  built (err message) = failed (QueryError.arrow message)

  -- A batch of the columns, with the schema of the operator.
  unfoldable pub output : List Expr → List AggExpr → List ArrayData → Outcome RecordBatch
  output keys aggs columns = built (params.try_new (out_schema keys aggs) columns)

  -- The columns for the groups as they are walked.
  unfoldable pub group_columns : List Expr → List AggExpr → GroupMap → List ArrayData
  group_columns keys aggs groups =
      key_columns keys (map (λ g. g.0) groups) ++ map (finalized groups) aggs

  -- The batches that the child gave, grouped by the keys if there are any.
  unfoldable pub compute_batches : List Expr → List AggExpr → List RecordBatch → Outcome RecordBatch
  compute_batches keys aggs [] = done (params.new_empty (out_schema keys aggs))
  compute_batches [] aggs batches = do
    columns ← scalar_columns params batches aggs
    output [] aggs columns
  compute_batches keys aggs batches = do
    groups ← group_batches params aggs batches []
    output keys aggs (group_columns keys aggs (params.hash_order groups))

  unfoldable pub compute :
      List (Result RecordBatch QueryError) → List Expr → List AggExpr → Outcome RecordBatch
  compute child keys aggs = do batches ← collect child; compute_batches keys aggs batches

  -- The child is taken before the work, so that a failed operator is at its end.
  unfoldable pub poll_next : AggregateOperator → Outcome (Option RecordBatch) × AggregateOperator
  poll_next op = elim op.child [
    | none ↦ (done op.result, record op { result = none })
    | some child ↦ (
      compute child op.group_by_keys op.aggregates >>= (λ b. done (some b)),
      record op { child = none; result = none },
    )
  ]
