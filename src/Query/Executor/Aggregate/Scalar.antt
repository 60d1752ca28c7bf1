-- ===== src/Query/Executor/Aggregate/Scalar.antt =====
-- crates/infralens-query/src/executor/aggregate.rs: aggregates without groups. The numbers of rows stay
-- below 2^63.
use infralens.Prelude.{
  ◌++◌, ℕ, ◌+◌, Bool, Option, none, some, List, [], ◌∷◌, ◌||◌, map, Bytes, codes, list_eq, pos, ltb,
  if◌then◌else◌, sum,
}
use infralens.Query.Ast.{Expr}
use infralens.Query.Errors.{QueryError}
use infralens.Query.Functions.{
  ArrayData, RecordBatch, Outcome, done, failed, ◌>>=◌, int64_array, float64_array, number_values,
  int_values,
}
use infralens.Query.Executor.Aggregate.Columns.{AggregateParams, find_column, column_name}
use infralens.Query.Plan.{AggExpr}

abbrev pub total_rows : List RecordBatch → ℕ
total_rows batches = sum (map RecordBatch.num_rows batches)

module _ (params : AggregateParams) where
  -- One step of the loop over the values of a column, and the end of it.
  unfoldable pub scalar_step : Bytes → ℕ → ℕ → ℕ
  scalar_step func acc v =
      if list_eq func (codes "sum") || list_eq func (codes "avg")
      then params.float_add acc v
      else if list_eq func (codes "min")
      then (if params.float_lt v acc then v else acc)
      else if list_eq func (codes "max")
      then (if params.float_lt acc v then v else acc)
      else acc

  unfoldable pub scalar_start : Bytes → ℕ
  scalar_start func =
      if list_eq func (codes "min")
      then params.infinity
      else if list_eq func (codes "max")
      then params.neg_infinity
      else 0

  unfoldable pub scalar_end : Bytes → ℕ → ℕ → ℕ
  scalar_end func acc cnt =
      if list_eq func (codes "avg")
      then (if ltb 0 cnt then params.float_div acc (params.float_of_nat cnt) else 0)
      else acc

  -- The values of a column of floats or signed integers; other columns have none.
  abbrev pub scalar_values : ArrayData → List ℕ
  scalar_values (float64_array xs) = number_values xs
  scalar_values (int64_array xs) = map params.float_of_int (int_values xs)
  scalar_values _ = []

  abbrev pub scalar_loop : Bytes → ℕ → ℕ → List ℕ → ℕ × ℕ
  scalar_loop func acc cnt [] = (acc, cnt)
  scalar_loop func acc cnt (v ∷ vs) = scalar_loop func (scalar_step func acc v) (cnt + 1) vs

  unfoldable pub scalar_batches : Bytes → Bytes → ℕ → ℕ → List RecordBatch → Outcome (ℕ × ℕ)
  scalar_batches func name acc cnt [] = done (acc, cnt)
  scalar_batches func name acc cnt (b ∷ bs) = elim (find_column name b.columns) [
    | none ↦ failed (QueryError.execution (codes "column '" ++ (name ++ codes "' not found")))
    | some array ↦
        let (acc', cnt') = scalar_loop func acc cnt (scalar_values array) in
        scalar_batches func name acc' cnt' bs
  ]

  unfoldable pub compute_scalar_agg : List RecordBatch → Bytes → Option Expr → Outcome ℕ
  compute_scalar_agg batches func arg = elim (column_name arg) [
    | none ↦ done 0
    | some name ↦
        scalar_batches func name (scalar_start func) 0 batches
        >>= (λ r. done (scalar_end func r.0 r.1))
  ]

  abbrev pub is_scalar : Bytes → Bool
  is_scalar func =
      list_eq func (codes "sum")
      || list_eq func (codes "avg")
      || list_eq func (codes "min")
      || list_eq func (codes "max")

  unfoldable pub scalar_column : List RecordBatch → AggExpr → Outcome ArrayData
  scalar_column batches agg =
      if list_eq agg.func (codes "count")
      then done (int64_array (some (pos (total_rows batches)) ∷ []))
      else if is_scalar agg.func
      then (compute_scalar_agg batches agg.func agg.arg
          >>= (λ v. done (float64_array (some v ∷ []))))
      else done (float64_array (some 0 ∷ []))

  unfoldable pub scalar_columns : List RecordBatch → List AggExpr → Outcome (List ArrayData)
  scalar_columns batches [] = done []
  scalar_columns batches (agg ∷ aggs) = do
    c ← scalar_column batches agg
    cs ← scalar_columns batches aggs
    done (c ∷ cs)
