-- ===== src/Query/Executor/Aggregate/Tests.antt =====
-- The aggregate operator at concrete inputs. Floats are natural numbers here, with their own order and sum.
use infralens.Prelude.{
  ℕ, ◌+◌, ◌/◌, ◌≡◌, refl, ap, Bool, true, false, none, some, List, [], ◌∷◌, map, Bytes, codes,
  Result, ok, err, ltb, arith, length,
}
use infralens.Common.Schema.{Field}
use infralens.Prelude.SortedMap.{ltb_irrefl, ltb_trans}
use infralens.Query.Ast.{Expr}
use infralens.Query.Errors.{QueryError}
use infralens.Query.Functions.{
  ArrayData, RecordBatch, Outcome, done, failed, uint64_array, float64_array, array_len,
}
use infralens.Query.Executor.Aggregate.{compute}
use infralens.Query.Executor.Aggregate.Columns.{AggregateParams, GroupMap, find_column}
use infralens.Query.Executor.Aggregate.Columns
use infralens.Query.Executor.Aggregate.Groups
use infralens.Query.Executor.Aggregate.Grouped.{find_group}
use infralens.Query.Executor.Aggregate.Answers.{Computes, group_batches-finalize}
use infralens.Query.Executor.Aggregate.Reads.{Pairs}
use infralens.Query.Executor.Aggregate.Extremes
use infralens.Query.Executor.Aggregate.Extremes.{Numbers}
use infralens.Query.Executor.Aggregate.Scalar
use infralens.Query.Executor.Aggregate.Typed.{all_may, compute-grouped}
use infralens.Query.Plan.{AggExpr}

-- The columns under the names of the fields, if their types fit.
abbrev named : List Field → List ArrayData → List (Bytes × ArrayData)
named [] cs = []
named (f ∷ fs) [] = []
named (f ∷ fs) (c ∷ cs) = (f.name, c) ∷ named fs cs

abbrev first_len : List ArrayData → ℕ
first_len [] = 1
first_len (c ∷ cs) = array_len c

abbrev built_if : Bool → RecordBatch → Result {0, 0} RecordBatch Bytes
built_if true b = ok b
built_if false b = err (codes "type")

abbrev joined : List Field → List ArrayData → RecordBatch
joined fields columns = record { columns = named fields columns; num_rows = first_len columns }

abbrev params : AggregateParams
params = record {
  float_add = λ a b. a + b;
  float_div = λ a b. a / b;
  float_lt = ltb;
  float_of_int = λ i. 0;
  float_of_nat = λ n. n;
  infinity = 1000;
  neg_infinity = 0;
  try_new = λ fields columns. built_if (all_may fields columns) (joined fields columns);
  new_empty = λ fields. record { columns = []; num_rows = 0 };
  hash_order = λ groups. groups;
}

abbrev ts : Bytes
ts = codes "ts"

abbrev level : Bytes
level = codes "v"

abbrev first_batch : RecordBatch
first_batch = record {
  columns =
      (ts, uint64_array (some 1 ∷ some 2 ∷ some 1 ∷ []))
      ∷ (level, float64_array (some 5 ∷ some 7 ∷ some 3 ∷ []))
      ∷ [];
  num_rows = 3;
}

abbrev last_batch : RecordBatch
last_batch = record {
  columns = (ts, uint64_array (some 2 ∷ [])) ∷ (level, float64_array (some 9 ∷ [])) ∷ [];
  num_rows = 1;
}

abbrev agg : Bytes → AggExpr
agg func = record { func = func; arg = some (Expr.column none level); alias = func }

abbrev aggs : List AggExpr
aggs = agg (codes "sum") ∷ agg (codes "min") ∷ []

abbrev batches : List RecordBatch
batches = first_batch ∷ last_batch ∷ []

abbrev pairs : List (RecordBatch × Pairs)
pairs = (first_batch, (1, 5) ∷ (2, 7) ∷ (1, 3) ∷ []) ∷ (last_batch, (2, 9) ∷ []) ∷ []

group_batches-finalize_example :
    Computes params none level (codes "count") level (λ vs n. n ≡ length vs) pairs
    × Computes params none level (codes "sum") level (λ vs n. n ≡ Extremes.total params vs) pairs
    × Computes params none level
        (codes "avg")
        level
        (λ vs n. n ≡ Extremes.total params vs / length vs)
        pairs
    × Computes params none level (codes "min") level (Extremes.IsExtreme ltb) pairs
    × Computes params none level
        (codes "max")
        level
        (Extremes.IsExtreme (Extremes.later params))
        pairs
group_batches-finalize_example =
    group_batches-finalize params none level ltb_irrefl ltb_trans level pairs (
      record { label = ts; others = _; keys = refl; floats = refl; sized = refl },
      (record { label = ts; others = _; keys = refl; floats = refl; sized = refl }, tt),
    )

-- Two sums share one state: each is the sum of both.
both_sums :
    find_group (codes "1") (
      Groups.update_group
        (codes "1")
        (Groups.add_row params (agg (codes "sum") ∷ agg (codes "avg") ∷ []) first_batch 0)
        [])
    ≡ some (record { count = 1; sum = 10; min = 0; max = 0 })
unfolding Groups.add_row Groups.accumulate_all Groups.accumulate Groups.extract_f64
    Columns.column_name Columns.default_state
both_sums = refl

compute-grouped_example :
    (message : Bytes) × (compute params (map ok batches) (Expr.column none ts ∷ []) aggs
      ≡ failed (QueryError.arrow message))
compute-grouped_example =
    compute-grouped params
      (λ fields columns h. (codes "type", ap (λ t. built_if t (joined fields columns)) h))
      (Expr.column none ts) [] aggs first_batch (last_batch ∷ []) (omega arith, (omega arith, tt))

values_4 :
    Scalar.scalar_columns params batches aggs
    ≡ done (float64_array (some 24 ∷ []) ∷ float64_array (some 3 ∷ []) ∷ [])
unfolding Scalar.scalar_columns Scalar.scalar_column Scalar.compute_scalar_agg Scalar.scalar_batches
    Scalar.scalar_step Scalar.scalar_start Scalar.scalar_end Columns.column_name
values_4 = refl

abbrev columns : List (RecordBatch × Numbers)
columns =
    (first_batch, Numbers.floats (5 ∷ 7 ∷ 3 ∷ [])) ∷ (last_batch, Numbers.floats (9 ∷ [])) ∷ []

compute_scalar_agg_lem_example :
    let values : List ℕ = 5 ∷ 7 ∷ 3 ∷ 9 ∷ [] in
    let result : Bytes → Outcome ℕ =
      λ func. Scalar.compute_scalar_agg params batches func (some (Expr.column none level)) in
    ((m : ℕ) × (result (codes "min") ≡ done m)
      × Extremes.IsExtreme params.float_lt (params.infinity ∷ values) m)
    × ((m : ℕ) × (result (codes "max") ≡ done m)
        × Extremes.IsExtreme (Extremes.later params) (params.neg_infinity ∷ values) m)
    × (result (codes "sum") ≡ done (Extremes.total params values))
    × (result (codes "avg") ≡ done (Extremes.total params values / 4))
compute_scalar_agg_lem_example =
    Extremes.compute_scalar_agg_lem params ltb_irrefl ltb_trans level none columns
      (refl, (refl, tt))
