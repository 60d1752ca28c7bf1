-- ===== src/Query/Functions/Rows.antt =====
-- The evaluator on a batch with rows: one element per row. The two functions over a window give one
-- element for an empty array, so the theorem is about batches that are not empty.
use infralens.Prelude.{
  ℕ, ◌<◌, ◌∙◌, List, Bytes, codes, list_eq, ℤ, length-map, length-replicate, All, Bool-cases, inl,
  inr,
}
use infralens.Query.Ast.{Expr, Exprs, BinOp, UnaryOp, Literal, nil, cons}
use infralens.Query.Functions.{ArrayData, RecordBatch, Outcome, array_len, Kernels}
use infralens.Query.Functions.Eval.{eval_function, eval_expr, eval_all}
use infralens.Query.Functions.Sized.{
  Holds, bind, IsSized, IsMask, KernelLaws, literal_lem, column_lem, boolean_lem, null_lem,
  negate_lem, like_lem, time_bucket_lem,
}
use infralens.Query.Functions.Values.{flip, is_null_mask}
use infralens.Query.Functions.Operands.{
  Fits, both, mask_fits, sized, compare_lem, eval_binop_lem, in_mask_lem,
}
use infralens.Query.Functions.Window.{
  rate_lem, delta_lem, quantile_lem, call_time_bucket_lem, call_rate_lem, call_delta_lem,
  call_quantile_lem,
}

module _ (kernels : Kernels) (n : ℕ) (some_rows : 0 < n) where
  eval_function_lem :
      (now_ns : ℤ) (name : Bytes) (args : List (Outcome ArrayData))
      → All (Fits n) args
      → Fits n (eval_function kernels now_ns n name args)
  unfolding eval_function
  eval_function_lem now_ns name args h = elim (Bool-cases (list_eq name (codes "now"))) [
    | inl is_now ↦ rw is_now (length-replicate n _)
    | inr a ↦ elim (Bool-cases (list_eq name (codes "time_bucket"))) [
      | inl yes' ↦ rw (a, yes') (call_time_bucket_lem kernels n some_rows args h)
      | inr b ↦ elim (Bool-cases (list_eq name (codes "rate"))) [
        | inl yes' ↦ rw (a, b, yes') (call_rate_lem kernels n some_rows args h)
        | inr c ↦ elim (Bool-cases (list_eq name (codes "delta"))) [
          | inl yes' ↦ rw (a, b, c, yes') (call_delta_lem kernels n some_rows args h)
          | inr d ↦ elim (Bool-cases (list_eq name (codes "histogram_quantile"))) [
            | inl yes' ↦ rw (a, b, c, d, yes') (call_quantile_lem kernels n some_rows args h)
            | inr e ↦ rw (a, b, c, d, e) tt
          ]
        ]
      ]
    ]
  ]

module _ (kernels : Kernels) (laws : KernelLaws kernels) (now_ns : ℤ) (batch : RecordBatch)
    (some_rows : 0 < batch.num_rows)
    (whole : All (λ c. IsSized batch.num_rows c.1) batch.columns) where
  mutual
    unfolding eval_expr

    expr_fits : (e : Expr) → Holds (IsSized batch.num_rows) (eval_expr kernels now_ns batch e)
    expr_fits (Expr.literal lit) = literal_lem lit batch.num_rows
    expr_fits (Expr.column table name) = column_lem batch.num_rows name batch.columns whole
    expr_fits Expr.star = tt
    expr_fits (Expr.bin_op op left right) =
        eval_binop_lem kernels laws batch.num_rows op _ _ (expr_fits left) (expr_fits right)
    expr_fits (Expr.unary_op UnaryOp.neg operand) =
        sized batch.num_rows _ _ (expr_fits operand)
          (λ a is. negate_lem kernels batch.num_rows a is)
    expr_fits (Expr.unary_op UnaryOp.not' operand) =
        sized batch.num_rows _ _ (expr_fits operand) (λ a is.
          bind (IsMask batch.num_rows) (IsSized batch.num_rows) _ _
            (boolean_lem batch.num_rows (codes "NOT requires boolean") a is)
            (λ m im. mask_fits batch.num_rows _ (laws.not_kernel batch.num_rows m im)))
    expr_fits (Expr.is_null e) =
        sized batch.num_rows _ _ (expr_fits e) (λ a is. null_lem batch.num_rows a is)
    expr_fits (Expr.is_not_null e) =
        sized batch.num_rows _ _ (expr_fits e)
          (λ a is. length-map flip (is_null_mask a) ∙ null_lem batch.num_rows a is)
    expr_fits (Expr.between e low high) = sized batch.num_rows _ _ (expr_fits e) (λ a ha.
        both batch.num_rows _ _ _ (expr_fits low) (expr_fits high) (λ lo hi hlo hhi.
          bind (IsMask batch.num_rows) (IsSized batch.num_rows) _ _
            (compare_lem kernels laws batch.num_rows BinOp.gt_eq a lo ha hlo)
            (λ ge hge.
              bind (IsMask batch.num_rows) (IsSized batch.num_rows) _ _
                (compare_lem kernels laws batch.num_rows BinOp.lt_eq a hi ha hhi)
                (λ le hle.
                  mask_fits batch.num_rows _ (laws.and_kernel batch.num_rows ge le hge hle)))))
    expr_fits (Expr.in_list e items) = sized batch.num_rows _ _ (expr_fits e) (λ a ha.
        in_mask_lem kernels laws batch.num_rows a _ _ ha (exprs_fit items)
          (length-replicate (array_len a) _ ∙ ha))
    expr_fits (Expr.like e pattern negated) =
        sized batch.num_rows _ _ (expr_fits e)
          (λ a is. like_lem batch.num_rows pattern negated a is)
    expr_fits (Expr.function name args) =
        eval_function_lem kernels batch.num_rows some_rows now_ns name _ (exprs_fit args)
    expr_fits (Expr.time_bucket width_ns ts_expr) =
        sized batch.num_rows _ _ (expr_fits ts_expr)
          (λ a is. time_bucket_lem batch.num_rows width_ns a is)
    expr_fits (Expr.rate value_expr window_ns) =
        sized batch.num_rows _ _ (expr_fits value_expr)
          (λ a is. rate_lem kernels batch.num_rows some_rows a window_ns is)
    expr_fits (Expr.delta value_expr window_ns) =
        sized batch.num_rows _ _ (expr_fits value_expr)
          (λ a is. delta_lem kernels batch.num_rows some_rows a window_ns is)
    expr_fits (Expr.histogram_quantile q value_expr buckets) =
        sized batch.num_rows _ _ (expr_fits value_expr)
          (λ a is. quantile_lem kernels batch.num_rows some_rows q a buckets is)
    expr_fits Expr.now = literal_lem (Literal.int now_ns) batch.num_rows
    expr_fits (Expr.interval ns) = literal_lem (Literal.int ns) batch.num_rows

    exprs_fit :
        (es : Exprs) → All (Holds (IsSized batch.num_rows)) (eval_all kernels now_ns batch es)
    exprs_fit nil = tt
    exprs_fit (cons e es) = (expr_fits e, exprs_fit es)

  -- Where the arrow kernels keep the length of their arguments, on a batch that has rows and whose
  -- columns have one element per row, every value that an expression evaluates to has one element
  -- per row.
  pub eval_expr_lem : (e : Expr) → Holds (IsSized batch.num_rows) (eval_expr kernels now_ns batch e)
  eval_expr_lem e = expr_fits e
