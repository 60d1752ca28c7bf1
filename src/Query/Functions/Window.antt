-- ===== src/Query/Functions/Window.antt =====
-- One element per row, through the functions over time and a window. On no rows two of them give one
-- element.
use infralens.Prelude.{
  ℕ, ◌<◌, ◌≡◌, ◌∙◌, some, List, [], ◌∷◌, ℤ, length, length-map, length-replicate, replicate, All,
  arith, Bool-cases, inl, inr, ◌&&◌, Option-cases,
}
use infralens.Query.Functions.{
  ArrayData, Outcome, array_len, Kernels, uint64_array, int64_array, float64_array, string_array,
  boolean_array, other_array, number_values, int_values,
}
use infralens.Query.Functions.Eval.{
  call_time_bucket, call_rate, call_delta, buckets_arg, call_quantile,
}
use infralens.Query.Functions.Sized.{Holds, bind, IsSized, time_bucket_lem}
use infralens.Query.Functions.Temporal.{
  to_f64_slice, rate, delta_of, delta, quantile_of, histogram_quantile, all_some,
}
use infralens.Query.Functions.Values.{scalar_i64, scalar_f64}
use infralens.Query.Functions.Operands.{Fits, scalar, sized}

module _ (kernels : Kernels) (n : ℕ) (some_rows : 0 < n) where
  slice_lem : (a : ArrayData) → IsSized n a → Holds (λ xs. length xs ≡ n) (to_f64_slice kernels a)
  unfolding to_f64_slice
  slice_lem (float64_array xs) h = length-map _ xs ∙ h
  slice_lem (int64_array xs) h =
      length-map kernels.float_of_int (int_values xs) ∙ length-map _ xs ∙ h
  slice_lem (uint64_array xs) h =
      length-map kernels.float_of_nat (number_values xs) ∙ length-map _ xs ∙ h
  slice_lem (boolean_array xs) h = tt
  slice_lem (string_array xs) h = tt
  slice_lem (other_array xs) h = tt

  repeated_lem : (len x : ℕ) → len ≡ n → IsSized n (all_some (replicate len x))
  repeated_lem len x h = length-map some (replicate len x) ∙ length-replicate len x ∙ h

  pub rate_lem : (a : ArrayData) (window : ℤ) → IsSized n a → Fits n (rate kernels a window)
  unfolding rate
  rate_lem a window h =
      let window_s =
        kernels.float_div (kernels.float_of_int window) (kernels.float_of_nat 1000000000) in
      elim (Bool-cases (kernels.float_le window_s (kernels.float_of_nat 0))) [
        | inl no' ↦ rw no' tt
        | inr yes' ↦ rw yes' (repeated_lem (array_len a) _ h)
      ]

  delta_of_lem :
      (len : ℕ) (xs : List ℕ) → len ≡ n → length xs ≡ n → IsSized n (delta_of kernels len xs)
  delta_of_lem len [] h k = absurd (omega (arith, k, some_rows))
  delta_of_lem len (x ∷ xs) h k = repeated_lem len _ h

  pub delta_lem : (a : ArrayData) (window : ℤ) → IsSized n a → Fits n (delta kernels a window)
  unfolding delta
  delta_lem a window h =
      bind (λ xs. length xs ≡ n) (IsSized n) (to_f64_slice kernels a) _ (slice_lem a h)
        (λ xs k. delta_of_lem (array_len a) xs h k)

  quantile_of_lem :
      (q len : ℕ) (xs : List ℕ) → len ≡ n → length xs ≡ n → Fits n (quantile_of kernels q len xs)
  quantile_of_lem q len [] h k = absurd (omega (arith, k, some_rows))
  quantile_of_lem q len (x ∷ xs) h k = elim (Option-cases (kernels.partial_sort (x ∷ xs))) [
    | inl no' ↦ rw (quantile_of, no') tt
    | inr (sorted, yes') ↦ rw (quantile_of, yes') (repeated_lem len _ h)
  ]

  pub quantile_lem :
      (q : ℕ) (a : ArrayData) (buckets : ℕ)
      → IsSized n a
      → Fits n (histogram_quantile kernels q a buckets)
  unfolding histogram_quantile
  quantile_lem q a buckets h =
      elim (Bool-cases (
        kernels.float_le (kernels.float_of_nat 0) q
        && kernels.float_le q (kernels.float_of_nat 1))) [
          | inl yes' ↦ rw yes' (
              bind (λ xs. length xs ≡ n) (IsSized n) (to_f64_slice kernels a) _ (slice_lem a h)
                (λ xs k. quantile_of_lem q (array_len a) xs h k))
          | inr no' ↦ rw no' tt
        ]

  pub call_time_bucket_lem :
      (args : List (Outcome ArrayData)) → All (Fits n) args → Fits n (call_time_bucket kernels args)
  unfolding call_time_bucket
  call_time_bucket_lem [] h = tt
  call_time_bucket_lem (a ∷ []) h = tt
  call_time_bucket_lem (a ∷ b ∷ rest) h = scalar n a _ (λ arr.
      scalar n (scalar_i64 arr) _
        (λ width. sized n b _ h.1.0 (λ ts is. time_bucket_lem n width ts is)))

  pub call_rate_lem :
      (args : List (Outcome ArrayData)) → All (Fits n) args → Fits n (call_rate kernels args)
  unfolding call_rate
  call_rate_lem [] h = tt
  call_rate_lem (a ∷ []) h = tt
  call_rate_lem (a ∷ b ∷ rest) h = sized n a _ h.0 (λ vals is.
      scalar n b _ (λ arr. scalar n (scalar_i64 arr) _ (λ window. rate_lem vals window is)))

  pub call_delta_lem :
      (args : List (Outcome ArrayData)) → All (Fits n) args → Fits n (call_delta kernels args)
  unfolding call_delta
  call_delta_lem [] h = tt
  call_delta_lem (a ∷ []) h = tt
  call_delta_lem (a ∷ b ∷ rest) h = sized n a _ h.0 (λ vals is.
      scalar n b _ (λ arr. scalar n (scalar_i64 arr) _ (λ window. delta_lem vals window is)))

  pub call_quantile_lem :
      (args : List (Outcome ArrayData)) → All (Fits n) args → Fits n (call_quantile kernels args)
  unfolding call_quantile
  call_quantile_lem [] h = tt
  call_quantile_lem (a ∷ []) h = tt
  call_quantile_lem (a ∷ b ∷ rest) h = scalar n a _ (λ arr.
      scalar n (scalar_f64 kernels arr) _ (λ q. sized n b _ h.1.0 (λ vals is.
        scalar n (buckets_arg kernels rest) _ (λ buckets. quantile_lem q vals buckets is))))
