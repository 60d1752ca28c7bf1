-- ===== src/Query/Executor/Aggregate/Groups.antt =====
-- crates/infralens-query/src/executor/aggregate.rs: the states of the groups, row by row.
use infralens.Prelude.{
  ℕ, zero, suc, ◌+◌, Option, none, some, List, [], ◌∷◌, ◌||◌, Bytes, codes, list_eq, pos, ltb, ◌==◌,
  if◌then◌else◌,
}
use infralens.Decimal.{decimal}
use infralens.Query.Ast.{Expr}
use infralens.Query.Functions.{
  ArrayData, RecordBatch, Outcome, done, panicked, ◌>>=◌, uint64_array, int64_array, float64_array,
  number_values, int_values,
}
use infralens.Query.Executor.Aggregate.Columns.{
  GroupState, default_state, GroupMap, AggregateParams, find_column, value, column_name,
}
use infralens.Query.Plan.{AggExpr}

-- `entry(key).or_insert_with(default)` and the change of what is there.
abbrev pub update_group : Bytes → (GroupState → GroupState) → GroupMap → GroupMap
update_group key f [] = (key, f default_state) ∷ []
update_group key f ((k, s) ∷ groups) =
    let rest = update_group key f groups in
    if list_eq k key then (k, f s) ∷ groups else (k, s) ∷ rest

abbrev pub key_of_column : List (Bytes × ArrayData) → ℕ → Option Bytes
key_of_column [] row = none
key_of_column ((n, uint64_array xs) ∷ columns) row = some (decimal (value 0 (number_values xs) row))
key_of_column ((n, array) ∷ columns) row = some (codes "?")

-- `none` is a panic: there is no column 0.
unfoldable pub extract_group_key : RecordBatch → ℕ → Option Bytes
extract_group_key batch row = key_of_column batch.columns row

abbrev pub count_up : GroupState → GroupState
count_up s = record s { count = s.count + 1 }

unfoldable pub row_range : ℕ → ℕ → List ℕ
row_range start zero = []
row_range start (suc n) = start ∷ row_range (start + 1) n

module _ (params : AggregateParams) where
  unfoldable pub accumulate : Bytes → Option ℕ → GroupState → GroupState
  accumulate func none s = s
  accumulate func (some v) s =
      if list_eq func (codes "sum") || list_eq func (codes "avg")
      then record s { sum = params.float_add s.sum v }
      else if list_eq func (codes "min")
      then (if params.float_lt v s.min || s.count == 0 then record s { min = v } else s)
      else if list_eq func (codes "max")
      then (if params.float_lt s.max v || s.count == 0 then record s { max = v } else s)
      else s

  unfoldable pub finalize : Bytes → GroupState → ℕ
  finalize func s =
      if list_eq func (codes "count")
      then params.float_of_nat s.count
      else if list_eq func (codes "sum")
      then s.sum
      else if list_eq func (codes "avg")
      then (if ltb 0 s.count then params.float_div s.sum (params.float_of_nat s.count) else 0)
      else if list_eq func (codes "min")
      then s.min
      else if list_eq func (codes "max")
      then s.max
      else 0

  abbrev pub float_at : ArrayData → ℕ → Option ℕ
  float_at (float64_array xs) row = some (value 0 (number_values xs) row)
  float_at (int64_array xs) row = some (params.float_of_int (value (pos 0) (int_values xs) row))
  float_at (uint64_array xs) row = some (params.float_of_nat (value 0 (number_values xs) row))
  float_at _ row = none

  abbrev pub named_float : Option Bytes → RecordBatch → ℕ → Option ℕ
  named_float none batch row = none
  named_float (some name) batch row = elim (find_column name batch.columns) [
    | none ↦ none
    | some array ↦ float_at array row
  ]

  unfoldable pub extract_f64 : RecordBatch → ℕ → Option Expr → Option ℕ
  extract_f64 batch row col_expr = named_float (column_name col_expr) batch row

  -- The loop over the aggregates of one row.
  unfoldable pub accumulate_all : List AggExpr → RecordBatch → ℕ → GroupState → GroupState
  accumulate_all [] batch row s = s
  accumulate_all (agg ∷ aggs) batch row s =
      accumulate_all aggs batch row (accumulate agg.func (extract_f64 batch row agg.arg) s)

  module _ (aggs : List AggExpr) where
    unfoldable pub add_row : RecordBatch → ℕ → GroupState → GroupState
    add_row batch row s = count_up (accumulate_all aggs batch row s)

    unfoldable pub group_rows : RecordBatch → List ℕ → GroupMap → Outcome GroupMap
    group_rows batch [] groups = done groups
    group_rows batch (row ∷ rows) groups = elim (extract_group_key batch row) [
      | none ↦ panicked
      | some key ↦ group_rows batch rows (update_group key (add_row batch row) groups)
    ]

    unfoldable pub group_batches : List RecordBatch → GroupMap → Outcome GroupMap
    group_batches [] groups = done groups
    group_batches (b ∷ bs) groups = do
      groups' ← group_rows b (row_range 0 b.num_rows) groups
      group_batches bs groups'
