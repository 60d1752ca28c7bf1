-- ===== src/Query/Functions/Values.antt =====
-- crates/infralens-query/src/functions/eval.rs: literals, masks, scalars and the helpers on two arrays.
use infralens.Prelude.{
  ◌++◌, ℕ, ◌-◌, ◌^◌, ◌+◌, Bool, true, false, not, Option, none, some, List, [], ◌∷◌, Bytes, codes,
  list_eq, ℤ, pos, negsuc, map, replicate, get_or_else, sub_ℕ, if◌then◌else◌, ltb, ◌==◌,
}
use infralens.Query.Ast.{BinOp, Literal}
use infralens.Query.Errors.{QueryError}
use infralens.Query.Functions.{
  ArrayData, Outcome, done, failed, panicked, text_values, Kernels, uint64_array, int64_array,
  float64_array, string_array, boolean_array, other_array,
}
use infralens.Query.Functions.Like.{glob_to_regex, simple_like_match}

abbrev pub execution_error : {A : Type 0} → Bytes → Outcome A
execution_error msg = failed (QueryError.execution msg)

abbrev pub found_column : Bytes → List (Bytes × ArrayData) → Outcome ArrayData
found_column name [] = execution_error (codes "column '" ++ (name ++ codes "' not found"))
found_column name (c ∷ cs) =
    let rest = found_column name cs in if list_eq name c.0 then done c.1 else rest

abbrev pub as_boolean : Bytes → ArrayData → Outcome (List (Option Bool))
as_boolean msg (boolean_array xs) = done xs
as_boolean msg _ = execution_error msg

unfoldable pub eval_literal : Literal → ℕ → ArrayData
eval_literal (Literal.int n) nrows = int64_array (replicate nrows (some n))
eval_literal (Literal.float f) nrows = float64_array (replicate nrows (some f))
eval_literal (Literal.str s) nrows = string_array (replicate nrows (some s))
eval_literal (Literal.bool b) nrows = boolean_array (replicate nrows (some b))
eval_literal Literal.null nrows = boolean_array (replicate nrows none)
eval_literal (Literal.interval_ns n) nrows = int64_array (replicate nrows (some n))

abbrev pub null_of {ℓ} : {A : Type ℓ} → Option A → Option Bool
null_of none = some true
null_of (some a) = some false

abbrev pub is_null_mask : ArrayData → List (Option Bool)
is_null_mask (uint64_array xs) = map null_of xs
is_null_mask (int64_array xs) = map null_of xs
is_null_mask (float64_array xs) = map null_of xs
is_null_mask (string_array xs) = map null_of xs
is_null_mask (boolean_array xs) = map null_of xs
is_null_mask (other_array valid) = map (λ v. some (not v)) valid

abbrev pub flip : Option Bool → Option Bool
flip none = none
flip (some b) = some (not b)

-- The comparisons on two arrays of one of the four types; other operators do not reach it.
unfoldable pub compare_arrays :
    Kernels → ArrayData → ArrayData → BinOp → Outcome (List (Option Bool))
compare_arrays kernels (uint64_array xs) (uint64_array ys) op =
    kernels.compare op (uint64_array xs) (uint64_array ys)
compare_arrays kernels (int64_array xs) (int64_array ys) op =
    kernels.compare op (int64_array xs) (int64_array ys)
compare_arrays kernels (float64_array xs) (float64_array ys) op =
    kernels.compare op (float64_array xs) (float64_array ys)
compare_arrays kernels (string_array xs) (string_array ys) op =
    kernels.compare op (string_array xs) (string_array ys)
compare_arrays kernels l r op = execution_error (
    codes "unsupported comparison between "
    ++ (kernels.type_text l ++ (codes " and " ++ kernels.type_text r)))

abbrev pub has_arithmetic : BinOp → Bool
has_arithmetic BinOp.add = true
has_arithmetic BinOp.sub = true
has_arithmetic BinOp.mul = true
has_arithmetic BinOp.div = true
has_arithmetic _ = false

abbrev pub supported : Kernels → BinOp → ArrayData → ArrayData → Outcome ArrayData
supported kernels op l r =
    if has_arithmetic op
    then kernels.arithmetic op l r
    else execution_error (codes "unsupported arithmetic types")

-- There is no case for the remainder.
unfoldable pub arithmetic_arrays : Kernels → ArrayData → ArrayData → BinOp → Outcome ArrayData
arithmetic_arrays kernels (int64_array xs) (int64_array ys) op =
    supported kernels op (int64_array xs) (int64_array ys)
arithmetic_arrays kernels (float64_array xs) (float64_array ys) op =
    supported kernels op (float64_array xs) (float64_array ys)
arithmetic_arrays kernels l r op = execution_error (codes "unsupported arithmetic types")

-- `-i` wraps, as it does in a release build: only the least value is its own negation.
abbrev pub wrapping_neg : ℤ → ℤ
wrapping_neg (pos n) = sub_ℕ 0 n
wrapping_neg (negsuc n) = if n == 2 ^ 63 - 1 then negsuc n else pos (n + 1)

unfoldable pub negate_numeric : Kernels → ArrayData → Outcome ArrayData
negate_numeric kernels (int64_array xs) =
    done (int64_array (map (λ o. some (wrapping_neg (get_or_else o (pos 0)))) xs))
negate_numeric kernels (float64_array xs) =
    done (float64_array (map (λ o. some (kernels.float_neg (get_or_else o 0))) xs))
negate_numeric kernels _ = execution_error (codes "unary minus on non-numeric type")

-- `value(0)` of an array: an empty one panics.
abbrev pub first_value {ℓ} : {A : Type ℓ} {B : Type 0} → (A → B) → A → List (Option A) → Outcome B
first_value f d [] = panicked
first_value f d (x ∷ xs) = done (f (get_or_else x d))

-- `as i64` of a `u64`
abbrev pub as_i64 : ℕ → ℤ
as_i64 n = if ltb n (2 ^ 63) then pos n else sub_ℕ n (2 ^ 64)

unfoldable pub scalar_i64 : ArrayData → Outcome ℤ
scalar_i64 (int64_array xs) = first_value (λ i. i) (pos 0) xs
scalar_i64 (uint64_array xs) = first_value as_i64 0 xs
scalar_i64 _ = execution_error (codes "expected integer scalar")

unfoldable pub scalar_f64 : Kernels → ArrayData → Outcome ℕ
scalar_f64 kernels (float64_array xs) = first_value (λ f. f) 0 xs
scalar_f64 kernels (int64_array xs) = first_value kernels.float_of_int (pos 0) xs
scalar_f64 kernels _ = execution_error (codes "expected float scalar")

unfoldable pub like_mask : Bytes → Bool → ArrayData → Outcome ArrayData
like_mask pattern negated (string_array xs) =
    let pat = glob_to_regex pattern in
    done (
      boolean_array (
        map (λ v. let m = simple_like_match v pat in some (if negated then not m else m))
          (text_values xs)))
like_mask pattern negated _ = execution_error (codes "LIKE requires text column")
