-- ===== src/Query/Functions.antt =====
-- crates/infralens-query/src/functions: expressions over the columns of a batch. The values that the
-- source takes from Arrow arrays, and what it takes from the arrow and floating-point operations.
pub mod Temporal
pub mod Like
pub mod Values
pub mod Eval
pub mod Sized
pub mod Operands
pub mod Window
pub mod Rows
mod Tests
use infralens.Prelude.{
  ℕ, Bool, true, false, Option, none, some, List, [], ◌∷◌, Bytes, ℤ, map, length, get_or_else, pos,
}
use infralens.Query.Ast.{BinOp}
use infralens.Query.Errors.{QueryError}

-- An array of a type that the functions look for, with `none` for a null, or of another type, of which
-- they only ask what is null. A float is its 64 bits.
pub data ArrayData : Type 0 where
  uint64_array : List (Option ℕ) → ArrayData
  int64_array : List (Option ℤ) → ArrayData
  float64_array : List (Option ℕ) → ArrayData
  string_array : List (Option Bytes) → ArrayData
  boolean_array : List (Option Bool) → ArrayData
  other_array : List Bool → ArrayData

pub record RecordBatch : Type 0 where
  pub columns : List (Bytes × ArrayData)
  pub num_rows : ℕ

-- The outcome of an evaluation; the last is a panic.
pub data Outcome (A : Type 0) : Type 0 where
  done : A → Outcome A
  failed : QueryError → Outcome A
  panicked : Outcome A

infixl 5 ◌>>=◌
abbrev pub ◌>>=◌ : {A B : Type 0} → Outcome A → (A → Outcome B) → Outcome B
done a >>= f = f a
failed e >>= f = failed e
panicked >>= f = panicked

abbrev pub array_len : ArrayData → ℕ
array_len (uint64_array xs) = length xs
array_len (int64_array xs) = length xs
array_len (float64_array xs) = length xs
array_len (string_array xs) = length xs
array_len (boolean_array xs) = length xs
array_len (other_array valid) = length valid

-- `value(i)` of every slot: the builders leave 0 or an empty text in a null one.
abbrev pub number_values : List (Option ℕ) → List ℕ
number_values = map (λ o. get_or_else o 0)

abbrev pub int_values : List (Option ℤ) → List ℤ
int_values = map (λ o. get_or_else o (pos 0))

abbrev pub text_values : List (Option Bytes) → List Bytes
text_values = map (λ o. get_or_else o [])

-- The arrow kernels that the source calls, each on two arrays of the same type, and the operations on
-- floats; `partial_sort` is none where two values have no order.
pub record Kernels : Type 0 where
  pub type_text : ArrayData → Bytes
  pub compare : BinOp → ArrayData → ArrayData → Outcome (List (Option Bool))
  pub and_kernel : List (Option Bool) → List (Option Bool) → Outcome (List (Option Bool))
  pub or_kernel : List (Option Bool) → List (Option Bool) → Outcome (List (Option Bool))
  pub not_kernel : List (Option Bool) → Outcome (List (Option Bool))
  pub arithmetic : BinOp → ArrayData → ArrayData → Outcome ArrayData
  pub float_of_int : ℤ → ℕ
  pub float_of_nat : ℕ → ℕ
  pub float_neg : ℕ → ℕ
  pub float_sub : ℕ → ℕ → ℕ
  pub float_div : ℕ → ℕ → ℕ
  pub float_le : ℕ → ℕ → Bool
  pub float_round_scaled : ℕ → ℕ → ℕ
  pub partial_sort : List ℕ → Option (List ℕ)
