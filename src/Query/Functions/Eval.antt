-- ===== src/Query/Functions/Eval.antt =====
-- crates/infralens-query/src/functions/eval.rs: the evaluator. `now_ns` is what the clock reads.
use infralens.Prelude.{
  ◌++◌, ℕ, ◌%◌, ◌^◌, Bool, false, Option, some, List, [], ◌∷◌, Bytes, codes, list_eq, ℤ, map,
  replicate, as_u64, if◌then◌else◌,
}
use infralens.Query.Ast.{Expr, Exprs, BinOp, UnaryOp, Literal, nil, cons}
use infralens.Query.Functions.{
  ArrayData, RecordBatch, Outcome, done, ◌>>=◌, array_len, Kernels, int64_array, boolean_array,
}
use infralens.Query.Functions.Temporal.{time_bucket, rate, delta, histogram_quantile}
use infralens.Query.Functions.Values.{
  execution_error, found_column, as_boolean, eval_literal, is_null_mask, flip, compare_arrays,
  arithmetic_arrays, negate_numeric, scalar_i64, scalar_f64, like_mask,
}

module _ (kernels : Kernels) where
  unfoldable pub eval_binop : BinOp → Outcome ArrayData → Outcome ArrayData → Outcome ArrayData
  eval_binop BinOp.and left right = do
    l ← left
    r ← right
    lb ← as_boolean (codes "AND: left not boolean") l
    rb ← as_boolean (codes "AND: right not boolean") r
    mask ← kernels.and_kernel lb rb
    done (boolean_array mask)
  eval_binop BinOp.or left right = do
    l ← left
    r ← right
    lb ← as_boolean (codes "OR: left not boolean") l
    rb ← as_boolean (codes "OR: right not boolean") r
    mask ← kernels.or_kernel lb rb
    done (boolean_array mask)
  eval_binop BinOp.add left right = do l ← left; r ← right; arithmetic_arrays kernels l r BinOp.add
  eval_binop BinOp.sub left right = do l ← left; r ← right; arithmetic_arrays kernels l r BinOp.sub
  eval_binop BinOp.mul left right = do l ← left; r ← right; arithmetic_arrays kernels l r BinOp.mul
  eval_binop BinOp.div left right = do l ← left; r ← right; arithmetic_arrays kernels l r BinOp.div
  eval_binop BinOp.mod' left right = do
    l ← left
    r ← right
    arithmetic_arrays kernels l r BinOp.mod'
  eval_binop op left right = do
    l ← left
    r ← right
    mask ← compare_arrays kernels l r op
    done (boolean_array mask)

  -- The loop over the list of `IN`.
  unfoldable pub in_mask :
      ArrayData → List (Outcome ArrayData) → List (Option Bool) → Outcome ArrayData
  in_mask val [] mask = done (boolean_array mask)
  in_mask val (item ∷ items) mask = do
    cmp_arr ← item
    eq_mask ← compare_arrays kernels val cmp_arr BinOp.eq
    mask' ← kernels.or_kernel mask eq_mask
    in_mask val items mask'

  unfoldable pub call_time_bucket : List (Outcome ArrayData) → Outcome ArrayData
  call_time_bucket (a ∷ b ∷ rest) = do
    width_arr ← a
    width_ns ← scalar_i64 width_arr
    ts ← b
    time_bucket width_ns ts
  call_time_bucket _ = execution_error (codes "time_bucket(width, ts)")

  unfoldable pub call_rate : List (Outcome ArrayData) → Outcome ArrayData
  call_rate (a ∷ b ∷ rest) = do
    vals ← a
    window ← b
    window_ns ← scalar_i64 window
    rate kernels vals window_ns
  call_rate _ = execution_error (codes "rate(value, window)")

  unfoldable pub call_delta : List (Outcome ArrayData) → Outcome ArrayData
  call_delta (a ∷ b ∷ rest) = do
    vals ← a
    window ← b
    window_ns ← scalar_i64 window
    delta kernels vals window_ns
  call_delta _ = execution_error (codes "delta(value, window)")

  -- `as u32` of the optional third argument, else 50.
  unfoldable pub buckets_arg : List (Outcome ArrayData) → Outcome ℕ
  buckets_arg [] = done 50
  buckets_arg (c ∷ rest) = do arr ← c; n ← scalar_i64 arr; done (as_u64 n % 2 ^ 32)

  unfoldable pub call_quantile : List (Outcome ArrayData) → Outcome ArrayData
  call_quantile (a ∷ b ∷ rest) = do
    q_arr ← a
    q ← scalar_f64 kernels q_arr
    vals ← b
    buckets ← buckets_arg rest
    histogram_quantile kernels q vals buckets
  call_quantile _ = execution_error (codes "histogram_quantile(q, col[, buckets])")

  unfoldable pub eval_function : ℤ → ℕ → Bytes → List (Outcome ArrayData) → Outcome ArrayData
  eval_function now_ns nrows name args =
      if list_eq name (codes "now")
      then done (int64_array (replicate nrows (some now_ns)))
      else if list_eq name (codes "time_bucket")
      then call_time_bucket args
      else if list_eq name (codes "rate")
      then call_rate args
      else if list_eq name (codes "delta")
      then call_delta args
      else if list_eq name (codes "histogram_quantile")
      then call_quantile args
      else execution_error (codes "unknown function '" ++ (name ++ codes "'"))

  unfoldable mutual
    pub eval_expr : ℤ → RecordBatch → Expr → Outcome ArrayData
    eval_expr now_ns batch (Expr.literal lit) = done (eval_literal lit batch.num_rows)
    eval_expr now_ns batch (Expr.column table name) = found_column name batch.columns
    eval_expr now_ns batch Expr.star = execution_error (codes "cannot evaluate * as a value")
    eval_expr now_ns batch (Expr.bin_op op left right) =
        eval_binop op (eval_expr now_ns batch left) (eval_expr now_ns batch right)
    eval_expr now_ns batch (Expr.unary_op UnaryOp.neg operand) = do
      arr ← eval_expr now_ns batch operand
      negate_numeric kernels arr
    eval_expr now_ns batch (Expr.unary_op UnaryOp.not' operand) = do
      arr ← eval_expr now_ns batch operand
      b ← as_boolean (codes "NOT requires boolean") arr
      mask ← kernels.not_kernel b
      done (boolean_array mask)
    eval_expr now_ns batch (Expr.is_null e) = do
      arr ← eval_expr now_ns batch e
      done (boolean_array (is_null_mask arr))
    eval_expr now_ns batch (Expr.is_not_null e) = do
      arr ← eval_expr now_ns batch e
      done (boolean_array (map flip (is_null_mask arr)))
    eval_expr now_ns batch (Expr.between e low high) = do
      val ← eval_expr now_ns batch e
      lo ← eval_expr now_ns batch low
      hi ← eval_expr now_ns batch high
      ge ← compare_arrays kernels val lo BinOp.gt_eq
      le ← compare_arrays kernels val hi BinOp.lt_eq
      mask ← kernels.and_kernel ge le
      done (boolean_array mask)
    eval_expr now_ns batch (Expr.in_list e items) = do
      val ← eval_expr now_ns batch e
      in_mask val (eval_all now_ns batch items) (replicate (array_len val) (some false))
    eval_expr now_ns batch (Expr.like e pattern negated) = do
      arr ← eval_expr now_ns batch e
      like_mask pattern negated arr
    eval_expr now_ns batch (Expr.function name args) =
        eval_function now_ns batch.num_rows name (eval_all now_ns batch args)
    eval_expr now_ns batch (Expr.time_bucket width_ns ts_expr) = do
      ts ← eval_expr now_ns batch ts_expr
      time_bucket width_ns ts
    eval_expr now_ns batch (Expr.rate value_expr window_ns) = do
      vals ← eval_expr now_ns batch value_expr
      rate kernels vals window_ns
    eval_expr now_ns batch (Expr.delta value_expr window_ns) = do
      vals ← eval_expr now_ns batch value_expr
      delta kernels vals window_ns
    eval_expr now_ns batch (Expr.histogram_quantile q value_expr buckets) = do
      vals ← eval_expr now_ns batch value_expr
      histogram_quantile kernels q vals buckets
    eval_expr now_ns batch Expr.now = done (eval_literal (Literal.int now_ns) batch.num_rows)
    eval_expr now_ns batch (Expr.interval ns) = done (eval_literal (Literal.int ns) batch.num_rows)

    -- The arguments of a call, each evaluated when it is needed.
    pub eval_all : ℤ → RecordBatch → Exprs → List (Outcome ArrayData)
    eval_all now_ns batch nil = []
    eval_all now_ns batch (cons e es) = eval_expr now_ns batch e ∷ eval_all now_ns batch es

  unfoldable pub eval_filter : ℤ → RecordBatch → Expr → Outcome (List (Option Bool))
  eval_filter now_ns batch e = do
    arr ← eval_expr now_ns batch e
    as_boolean (codes "filter expression must be boolean") arr
