-- ===== src/Query/Functions/Temporal.antt =====
-- crates/infralens-query/src/functions/temporal.rs.
use infralens.Prelude.{
  ℕ, zero, suc, ◌*◌, ◌/◌, ◌&&◌, Option, none, some, List, [], ◌∷◌, codes, ℤ, pos, negsuc, map,
  length, replicate, min, ◌==◌, if◌then◌else◌,
}
use infralens.Query.Errors.{QueryError}
use infralens.Query.Functions.{
  ArrayData, Outcome, done, failed, panicked, ◌>>=◌, array_len, number_values, int_values, Kernels,
  uint64_array, int64_array, float64_array,
}

-- The `i64` as a positive number, if it is one.
abbrev pub positive : ℤ → Option ℕ
positive (pos n) = if n == 0 then none else some n
positive (negsuc n) = none

abbrev pub bucketed : ℕ → ArrayData → Outcome ArrayData
bucketed w (uint64_array xs) = done (uint64_array (map (λ v. some (v / w * w)) (number_values xs)))
bucketed w _ = failed (QueryError.execution (codes "time_bucket: expected UInt64 timestamp"))

unfoldable pub time_bucket : ℤ → ArrayData → Outcome ArrayData
time_bucket width_ns ts = elim (positive width_ns) [
  | none ↦ failed (QueryError.execution (codes "time_bucket width must be > 0"))
  | some w ↦ bucketed w ts
]

abbrev pub all_some : List ℕ → ArrayData
all_some xs = float64_array (map some xs)

-- The last element of a list that begins with `x`.
abbrev pub last_of : ℕ → List ℕ → ℕ
last_of x [] = x
last_of x (y ∷ ys) = last_of y ys

-- The element at an index within bounds.
abbrev pub at_index : List ℕ → ℕ → ℕ
at_index [] i = 0
at_index (x ∷ xs) zero = x
at_index (x ∷ xs) (suc i) = at_index xs i

module _ (kernels : Kernels) where
  unfoldable pub to_f64_slice : ArrayData → Outcome (List ℕ)
  to_f64_slice (float64_array xs) = done (number_values xs)
  to_f64_slice (int64_array xs) = done (map kernels.float_of_int (int_values xs))
  to_f64_slice (uint64_array xs) = done (map kernels.float_of_nat (number_values xs))
  to_f64_slice _ =
      failed (QueryError.execution (codes "temporal function: unsupported numeric type"))

  -- `billion` is 1e9.
  unfoldable pub rate : ArrayData → ℤ → Outcome ArrayData
  rate values window_ns =
      let billion = kernels.float_of_nat 1000000000 in
      let window_s = kernels.float_div (kernels.float_of_int window_ns) billion in
      let r = kernels.float_div (kernels.float_of_nat (array_len values)) window_s in
      if kernels.float_le window_s (kernels.float_of_nat 0)
      then failed (QueryError.execution (codes "rate: window must be > 0"))
      else done (all_some (replicate (array_len values) r))

  -- An empty array gives one value.
  abbrev pub delta_of : ℕ → List ℕ → ArrayData
  delta_of len [] = all_some (kernels.float_of_nat 0 ∷ [])
  delta_of len (x ∷ xs) = all_some (replicate len (kernels.float_sub (last_of x xs) x))

  unfoldable pub delta : ArrayData → ℤ → Outcome ArrayData
  delta values window_ns = do arr ← to_f64_slice values; done (delta_of (array_len values) arr)

  abbrev pub quantile_of : ℕ → ℕ → List ℕ → Outcome ArrayData
  quantile_of q len [] = done (all_some (kernels.float_of_nat 0 ∷ []))
  quantile_of q len (x ∷ xs) = elim (kernels.partial_sort (x ∷ xs)) [
    | none ↦ panicked
    | some sorted ↦
        let last = length xs in
        let idx = min (kernels.float_round_scaled q last) last in
        done (all_some (replicate len (at_index sorted idx)))
  ]

  -- `float_round_scaled q n` is `(q * n).round()`; `_buckets` is not used.
  unfoldable pub histogram_quantile : ℕ → ArrayData → ℕ → Outcome ArrayData
  histogram_quantile q values buckets =
      let sorted = (do vals ← to_f64_slice values; quantile_of q (array_len values) vals) in
      if kernels.float_le (kernels.float_of_nat 0) q && kernels.float_le q (kernels.float_of_nat 1)
      then sorted
      else failed (QueryError.execution (codes "histogram_quantile: q must be in [0, 1]"))
