-- ===== src/Query/Executor/Aggregate/Typed.antt =====
-- Whether the columns that the operator builds are those of its schema.
use mathlib.Core.Path.{subst}
use infralens.Prelude.{
  ℕ, ◌<◌, ◌≡◌, refl, Bool, true, false, Option, none, some, List, [], ◌∷◌, map, Bytes, codes,
  list_eq, ok, err, length, All, if◌then◌else◌, arith, Bool-cases, inl, inr,
}
use infralens.Common.Schema.{
  DataType, uint64_type, int64_type, int32_type, int8_type, float64_type, utf8_type, binary_type,
  Field,
}
use infralens.Query.Ast.{Expr}
use infralens.Query.Errors.{QueryError}
use infralens.Query.Functions.{
  ArrayData, RecordBatch, Outcome, done, failed, array_len, uint64_array, int64_array,
  float64_array, string_array, other_array,
}
use infralens.Query.Executor.Aggregate.{
  collect, key_field, agg_field, out_schema, key_columns, group_columns, built, output,
  compute_batches, compute,
}
use infralens.Query.Executor.Aggregate.Columns.{AggregateParams}
use infralens.Query.Executor.Aggregate.Grouped.{group_batches_lem}
use infralens.Query.Executor.Aggregate.Scalar.{
  scalar_column, scalar_columns, is_scalar, compute_scalar_agg,
}
use infralens.Query.Functions.Sized.{Holds, bind, anything}
use infralens.Query.Plan.{AggExpr}

-- Whether an array can have a type. The arrays of the types that the engine does not read are one kind.
abbrev pub may_have : DataType → ArrayData → Bool
may_have uint64_type (uint64_array xs) = true
may_have int64_type (int64_array xs) = true
may_have float64_type (float64_array xs) = true
may_have utf8_type (string_array xs) = true
may_have int32_type (other_array xs) = true
may_have int8_type (other_array xs) = true
may_have binary_type (other_array xs) = true
may_have _ _ = false

-- As many columns as fields, each of which can have its field's type.
abbrev pub all_may : List Field → List ArrayData → Bool
all_may [] [] = true
all_may (f ∷ fs) (c ∷ cs) = if may_have f.data_type c then all_may fs cs else false
all_may _ _ = false

abbrev no_nulls : {A : Type 0} → List (Option A) → Bool
no_nulls [] = true
no_nulls (none ∷ xs) = false
no_nulls (some x ∷ xs) = no_nulls xs

-- A column without nulls of one of the two types of aggregates.
abbrev pub has_type : DataType → ArrayData → Bool
has_type int64_type (int64_array xs) = no_nulls xs
has_type float64_type (float64_array xs) = no_nulls xs
has_type _ _ = false

-- As many columns as fields, each of its field's type.
abbrev pub all_typed : List Field → List ArrayData → Bool
all_typed [] [] = true
all_typed (f ∷ fs) (c ∷ cs) = if has_type f.data_type c then all_typed fs cs else false
all_typed _ _ = false

some_columns :
    (f : Field) (fs : List Field) (cs : List ArrayData)
    → all_typed (f ∷ fs) cs ≡ true
    → 0 < length cs
some_columns f fs [] h = ground arith
some_columns f fs (c ∷ cs) h = omega arith

collect_all : (batches : List RecordBatch) → collect (map ok batches) ≡ done batches
unfolding collect
collect_all [] = refl
collect_all (b ∷ bs) = rw (collect_all bs) refl

module _ (params : AggregateParams) where
  abbrev Refused : Outcome RecordBatch → Type 0
  Refused o = (message : Bytes) × (o ≡ failed (QueryError.arrow message))

  module _
      (refuses : (fields : List Field) (columns : List ArrayData)
        → all_may fields columns ≡ false
        → (message : Bytes) × (params.try_new fields columns ≡ err message)) where
    output-Refused :
        (keys : List Expr) (aggs : List AggExpr) (columns : List ArrayData)
        → all_may (out_schema keys aggs) columns ≡ false
        → Refused (output params keys aggs columns)
    unfolding output built
    output-Refused keys aggs columns h =
        let (message, is) = refuses (out_schema keys aggs) columns h in (message, rw is refl)

    -- Where arrow refuses columns that are not as many as the fields of the schema or one of which
    -- cannot have the type of its field, a query with GROUP BY over at least one batch, all of
    -- them with a column, fails with arrow's error, whatever the keys, the aggregates and the
    -- rows.
    pub compute-grouped :
        (key : Expr) (keys : List Expr) (aggs : List AggExpr) (b : RecordBatch)
        (bs : List RecordBatch)
        → All (λ batch. 0 < length batch.columns) (b ∷ bs)
        → (message : Bytes) × (compute params (map ok (b ∷ bs)) (key ∷ keys) aggs
            ≡ failed (QueryError.arrow message))
    unfolding compute compute_batches group_columns key_columns out_schema key_field
    compute-grouped key keys aggs b bs h =
        let (groups, grouped, same) = group_batches_lem params aggs (b ∷ bs) h in
        let refused =
          output-Refused (key ∷ keys) aggs
            (group_columns params (key ∷ keys) aggs (params.hash_order groups)) refl in
        (refused.0, rw (compute, collect_all (b ∷ bs), compute_batches, grouped) refused.1)

  module _
      (accepts : (fields : List Field) (columns : List ArrayData) (n : ℕ)
        → 0 < length columns
        → all_typed fields columns ≡ true
        → All (λ c. array_len c ≡ n) columns
        → (batch : RecordBatch) × (params.try_new fields columns ≡ ok batch)
          × (batch.num_rows ≡ n)
          × (map (λ c. c.1) batch.columns ≡ columns)) where
    abbrev One : AggExpr → ArrayData → Type 0
    One agg c = (has_type (agg_field agg).data_type c ≡ true) × (array_len c ≡ 1)

    abbrev Ones : List AggExpr → List ArrayData → Type 0
    Ones aggs cs = (all_typed (map agg_field aggs) cs ≡ true) × All (λ c. array_len c ≡ 1) cs

    scalar_column_lem :
        (batches : List RecordBatch) (agg : AggExpr)
        → Holds (One agg) (scalar_column params batches agg)
    unfolding scalar_column agg_field
    scalar_column_lem batches agg = elim (Bool-cases (list_eq agg.func (codes "count"))) [
      | inl yes' ↦ rw (scalar_column, yes') (rw yes' refl, refl)
      | inr no' ↦ elim (Bool-cases (is_scalar params agg.func)) [
        | inl yes' ↦
            rw (scalar_column, no', yes')
              (bind (λ v. Unit {0}) (One agg) (compute_scalar_agg params batches agg.func agg.arg) _
                (anything _) (λ v h. (rw no' refl, refl)))
        | inr other ↦ rw (scalar_column, no', other) (rw no' refl, refl)
      ]
    ]

    scalar_columns_lem :
        (batches : List RecordBatch) (aggs : List AggExpr)
        → Holds (Ones aggs) (scalar_columns params batches aggs)
    unfolding scalar_columns
    scalar_columns_lem batches [] = (refl, tt)
    scalar_columns_lem batches (agg ∷ aggs) =
        bind (One agg) (Ones (agg ∷ aggs)) (scalar_column params batches agg) _
          (scalar_column_lem batches agg)
          (λ c one.
            bind (Ones aggs) (Ones (agg ∷ aggs)) (scalar_columns params batches aggs) _
              (scalar_columns_lem batches aggs) (λ cs ones. (rw one.0 ones.0, (one.1, ones.1))))

    -- Where arrow makes a batch of one or more columns of one length whose types are those of the schema, a
    -- query with aggregates and without GROUP BY over at least one batch, each of whose aggregates can be
    -- computed, gives one row of exactly those aggregates, in their order.
    pub compute-ungrouped :
        (agg : AggExpr) (aggs : List AggExpr) (b : RecordBatch) (bs : List RecordBatch)
        (cs : List ArrayData)
        → scalar_columns params (b ∷ bs) (agg ∷ aggs) ≡ done cs
        → (batch : RecordBatch) × (compute params (map ok (b ∷ bs)) [] (agg ∷ aggs) ≡ done batch)
          × (batch.num_rows ≡ 1)
          × (map (λ c. c.1) batch.columns ≡ cs)
    unfolding compute compute_batches output built out_schema
    compute-ungrouped agg aggs b bs cs h =
        let ones = subst (Holds (Ones (agg ∷ aggs))) h (scalar_columns_lem (b ∷ bs) (agg ∷ aggs)) in
        let (batch, made, rows, same) =
          accepts (map agg_field (agg ∷ aggs)) cs 1
            (some_columns (agg_field agg) (map agg_field aggs) cs ones.0) ones.0 ones.1 in
        (batch, rw (collect_all (b ∷ bs), h, made) refl, rows, same)
