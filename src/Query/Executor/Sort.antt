-- ===== src/Query/Executor/Sort.antt =====
-- crates/infralens-query/src/executor/sort.rs: ORDER BY over all batches of the child. A batch is its
-- rows; `columns` gives the names of its schema, and `lexsort` is what arrow's kernels `lexsort_to_indices`
-- and `take_record_batch` make of rows.
use infralens.Prelude.{
  ℕ, suc, Bool, false, not, Option, none, some, List, [], ◌∷◌, Bytes, list_eq, Result, ok, err,
  if◌then◌else◌,
}
use infralens.Query.Ast.{Expr}
use infralens.Query.Errors.{QueryError}
use infralens.Query.Executor.Limit.Rows.{concat}
use infralens.Query.Executor.Polls.{Polls, collect_polls}

pub record SortColumn : Type 0 where
  pub values : ℕ
  pub descending : Bool
  pub nulls_first : Bool

pub record SortOperator (Row : Type 0) : Type 0 where
  pub child : Option (Polls (List Row))
  pub keys : List (Expr × Bool)
  pub result : Option (List (List Row))

unfoldable pub new : {Row : Type 0} → Polls (List Row) → List (Expr × Bool) → SortOperator Row
new child keys = record { child = some child; keys = keys; result = none }

abbrev next_index : Option ℕ → Option ℕ
next_index none = none
next_index (some i) = some (suc i)

abbrev pub index_of : Bytes → List Bytes → Option ℕ
index_of name [] = none
index_of name (c ∷ cs) =
    let later = next_index (index_of name cs) in if list_eq c name then some 0 else later

-- A key that is no column of the schema is passed over.
unfoldable pub sort_column : List Bytes → Expr → Bool → Option SortColumn
sort_column columns (Expr.column table name) asc = elim (index_of name columns) [
  | none ↦ none
  | some i ↦ some (record { values = i; descending = not asc; nulls_first = false })
]
sort_column columns _ asc = none

abbrev add_column : Option SortColumn → List SortColumn → List SortColumn
add_column none cs = cs
add_column (some c) cs = c ∷ cs

unfoldable pub sort_columns : List Bytes → List (Expr × Bool) → List SortColumn
sort_columns columns [] = []
sort_columns columns (key ∷ keys) =
    add_column (sort_column columns key.0 key.1) (sort_columns columns keys)

module _ {Row : Type 0} (columns : List Row → List Bytes)
    (lexsort : List SortColumn → List Row → Result {0, 0} (List Row) Bytes) where
  abbrev pub sorted_batch :
      Result {0, 0} (List Row) Bytes → Result {0, 0} (List (List Row)) QueryError
  sorted_batch (ok rows) = ok (rows ∷ [])
  sorted_batch (err message) = err (QueryError.arrow message)

  abbrev pub sorted_by : List SortColumn → List Row → Result {0, 0} (List (List Row)) QueryError
  sorted_by [] rows = ok (rows ∷ [])
  sorted_by (c ∷ cs) rows = sorted_batch (lexsort (c ∷ cs) rows)

  unfoldable pub sort_batches :
      List (Expr × Bool) → List (List Row) → Result {0, 0} (List (List Row)) QueryError
  sort_batches keys [] = ok []
  sort_batches keys (b ∷ bs) = sorted_by (sort_columns (columns b) keys) (concat (b ∷ bs))

  unfoldable pub materialize :
      List (Expr × Bool) → Polls (List Row) → Result {0, 0} (List (List Row)) QueryError
  materialize keys child = elim (collect_polls child) [
    | err e ↦ err e
    | ok batches ↦ sort_batches keys batches
  ]

  abbrev pub pop :
      SortOperator Row
      → Option (List (List Row))
      → Result {0, 0} (Option (List Row)) QueryError × SortOperator Row
  pop op none = (ok none, record op { child = none; result = none })
  pop op (some []) = (ok none, record op { child = none; result = some [] })
  pop op (some (b ∷ bs)) = (ok (some b), record op { child = none; result = some bs })

  abbrev pub popped :
      SortOperator Row
      → Result {0, 0} (List (List Row)) QueryError
      → Result {0, 0} (Option (List Row)) QueryError × SortOperator Row
  popped op (err e) = (err e, record op { child = none; result = none })
  popped op (ok bs) = pop op (some bs)

  -- The child is taken before the work, so that a failed operator is at its end.
  unfoldable pub poll_next :
      SortOperator Row → Result {0, 0} (Option (List Row)) QueryError × SortOperator Row
  poll_next op = elim op.child [
    | none ↦ pop op op.result
    | some child ↦ popped op (materialize op.keys child)
  ]
