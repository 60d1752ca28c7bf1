-- ===== src/Query/Functions/Sized.antt =====
-- Every value that the evaluator computes has one element per row of the batch.
use infralens.Prelude.{
  ℕ, ◌≡◌, ◌∙◌, Bool, Option, List, [], ◌∷◌, Bytes, list_eq, ℤ, length, length-map, length-replicate,
  All, Bool-cases, inl, inr, Option-cases,
}
use infralens.Query.Ast.{BinOp, Literal}
use infralens.Query.Functions.{
  ArrayData, Outcome, done, failed, panicked, ◌>>=◌, array_len, Kernels, uint64_array, int64_array,
  float64_array, string_array, boolean_array, other_array, number_values, text_values,
}
use infralens.Query.Functions.Temporal.{positive, bucketed, time_bucket}
use infralens.Query.Functions.Values.{
  found_column, as_boolean, eval_literal, is_null_mask, null_of, negate_numeric, like_mask,
}

-- A result, if there is one, has a property.
abbrev pub Holds : {A : Type 0} → (A → Type 0) → Outcome A → Type 0
Holds P (done a) = P a
Holds P (failed e) = Unit
Holds P panicked = Unit

pub bind :
    {A B : Type 0} (P : A → Type 0) (Q : B → Type 0) (x : Outcome A) (f : A → Outcome B)
    → Holds P x
    → ((a : A) → P a → Holds Q (f a))
    → Holds Q (x >>= f)
bind P Q (done a) f h k = k a h
bind P Q (failed e) f h k = tt
bind P Q panicked f h k = tt

abbrev pub IsSized : ℕ → ArrayData → Type 0
IsSized n a = array_len a ≡ n

abbrev pub IsMask : ℕ → List (Option Bool) → Type 0
IsMask n m = length m ≡ n

pub anything : {A : Type 0} (x : Outcome A) → Holds (λ a. Unit {0}) x
anything (done a) = tt
anything (failed e) = tt
anything panicked = tt

-- The arrow kernels keep the length of their arguments.
pub record KernelLaws (kernels : Kernels) : Type 0 where
  pub compare :
      (n : ℕ) (op : BinOp) (l r : ArrayData)
      → IsSized n l
      → IsSized n r
      → Holds (IsMask n) (kernels.compare op l r)
  pub and_kernel :
      (n : ℕ) (l r : List (Option Bool))
      → IsMask n l
      → IsMask n r
      → Holds (IsMask n) (kernels.and_kernel l r)
  pub or_kernel :
      (n : ℕ) (l r : List (Option Bool))
      → IsMask n l
      → IsMask n r
      → Holds (IsMask n) (kernels.or_kernel l r)
  pub not_kernel :
      (n : ℕ) (m : List (Option Bool)) → IsMask n m → Holds (IsMask n) (kernels.not_kernel m)
  pub arithmetic :
      (n : ℕ) (op : BinOp) (l r : ArrayData)
      → IsSized n l
      → IsSized n r
      → Holds (IsSized n) (kernels.arithmetic op l r)

pub literal_lem : (lit : Literal) (n : ℕ) → IsSized n (eval_literal lit n)
unfolding eval_literal
literal_lem (Literal.int i) n = length-replicate n _
literal_lem (Literal.float f) n = length-replicate n _
literal_lem (Literal.str s) n = length-replicate n _
literal_lem (Literal.bool b) n = length-replicate n _
literal_lem Literal.null n = length-replicate n _
literal_lem (Literal.interval_ns i) n = length-replicate n _

pub column_lem :
    (n : ℕ) (name : Bytes) (cs : List (Bytes × ArrayData))
    → All (λ c. IsSized n c.1) cs
    → Holds (IsSized n) (found_column name cs)
column_lem n name [] h = tt
column_lem n name (c ∷ cs) h = elim (Bool-cases (list_eq name c.0)) [
  | inl here ↦ rw here h.0
  | inr later ↦ rw later (column_lem n name cs h.1)
]

pub boolean_lem :
    (n : ℕ) (msg : Bytes) (a : ArrayData) → IsSized n a → Holds (IsMask n) (as_boolean msg a)
boolean_lem n msg (boolean_array xs) h = h
boolean_lem n msg (uint64_array xs) h = tt
boolean_lem n msg (int64_array xs) h = tt
boolean_lem n msg (float64_array xs) h = tt
boolean_lem n msg (string_array xs) h = tt
boolean_lem n msg (other_array xs) h = tt

pub null_lem : (n : ℕ) (a : ArrayData) → IsSized n a → IsMask n (is_null_mask a)
null_lem n (boolean_array xs) h = length-map null_of xs ∙ h
null_lem n (uint64_array xs) h = length-map null_of xs ∙ h
null_lem n (int64_array xs) h = length-map null_of xs ∙ h
null_lem n (float64_array xs) h = length-map null_of xs ∙ h
null_lem n (string_array xs) h = length-map null_of xs ∙ h
null_lem n (other_array xs) h = length-map _ xs ∙ h

pub negate_lem :
    (kernels : Kernels) (n : ℕ) (a : ArrayData)
    → IsSized n a
    → Holds (IsSized n) (negate_numeric kernels a)
unfolding negate_numeric
negate_lem kernels n (int64_array xs) h = length-map _ xs ∙ h
negate_lem kernels n (float64_array xs) h = length-map _ xs ∙ h
negate_lem kernels n (boolean_array xs) h = tt
negate_lem kernels n (uint64_array xs) h = tt
negate_lem kernels n (string_array xs) h = tt
negate_lem kernels n (other_array xs) h = tt

pub like_lem :
    (n : ℕ) (pattern : Bytes) (negated : Bool) (a : ArrayData)
    → IsSized n a
    → Holds (IsSized n) (like_mask pattern negated a)
unfolding like_mask
like_lem n pattern negated (string_array xs) h = length-map _ (text_values xs) ∙ length-map _ xs ∙ h
like_lem n pattern negated (boolean_array xs) h = tt
like_lem n pattern negated (uint64_array xs) h = tt
like_lem n pattern negated (int64_array xs) h = tt
like_lem n pattern negated (float64_array xs) h = tt
like_lem n pattern negated (other_array xs) h = tt

bucketed_lem : (n w : ℕ) (a : ArrayData) → IsSized n a → Holds (IsSized n) (bucketed w a)
bucketed_lem n w (uint64_array xs) h = length-map _ (number_values xs) ∙ length-map _ xs ∙ h
bucketed_lem n w (int64_array xs) h = tt
bucketed_lem n w (boolean_array xs) h = tt
bucketed_lem n w (float64_array xs) h = tt
bucketed_lem n w (string_array xs) h = tt
bucketed_lem n w (other_array xs) h = tt

pub time_bucket_lem :
    (n : ℕ) (width : ℤ) (a : ArrayData) → IsSized n a → Holds (IsSized n) (time_bucket width a)
unfolding time_bucket
time_bucket_lem n width a h = elim (Option-cases (positive width)) [
  | inl no' ↦ rw (time_bucket, no') tt
  | inr (w, is) ↦ rw (time_bucket, is) (bucketed_lem n w a h)
]
