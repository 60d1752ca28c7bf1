-- ===== src/Query/Executor/Aggregate/Columns.antt =====
-- crates/infralens-query/src/executor/aggregate.rs: the state of a group, and what the operator takes from
-- columns and from the arrow library. Every column of a batch has a value in each row, as arrow keeps it.
use infralens.Prelude.{
  ℕ, zero, suc, Bool, Option, none, some, List, [], ◌∷◌, Bytes, list_eq, Result, ℤ, if◌then◌else◌,
}
use infralens.Common.Schema.{Field}
use infralens.Query.Ast.{Expr}
use infralens.Query.Functions.{ArrayData, RecordBatch}

pub record GroupState : Type 0 where
  pub count : ℕ
  pub sum : ℕ
  pub min : ℕ
  pub max : ℕ

-- `Default`; the bits of 0.0 are 0.
unfoldable pub default_state : GroupState
default_state = record { count = 0; sum = 0; min = 0; max = 0 }

abbrev pub GroupMap : Type 0
GroupMap = List (Bytes × GroupState)

-- The operations on floats, and what arrow and the standard library decide: the two constructors of a
-- batch, and the order in which a hash map with these entries is walked.
pub record AggregateParams : Type 0 where
  pub float_add : ℕ → ℕ → ℕ
  pub float_div : ℕ → ℕ → ℕ
  pub float_lt : ℕ → ℕ → Bool
  pub float_of_int : ℤ → ℕ
  pub float_of_nat : ℕ → ℕ
  pub infinity : ℕ
  pub neg_infinity : ℕ
  pub try_new : List Field → List ArrayData → Result RecordBatch Bytes
  pub new_empty : List Field → RecordBatch
  pub hash_order : GroupMap → GroupMap

-- `index_of` and `column`: the first column of that name.
abbrev pub find_column : Bytes → List (Bytes × ArrayData) → Option ArrayData
find_column name [] = none
find_column name ((n, array) ∷ columns) =
    if list_eq n name then some array else find_column name columns

abbrev pub value : {A : Type 0} → A → List A → ℕ → A
value default [] row = default
value default (x ∷ xs) zero = x
value default (x ∷ xs) (suc row) = value default xs row

unfoldable pub column_name : Option Expr → Option Bytes
column_name (some (Expr.column table name)) = some name
column_name _ = none
