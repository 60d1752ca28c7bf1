-- ===== src/Query/Executor/Scan.antt =====
-- crates/infralens-query/src/executor/scan.rs: the batches of a table. The engine's paths and the Parquet
-- reader are arguments; `mask` is what `eval_filter` gives for a batch.
pub mod Limited
use infralens.Prelude.{
  ℕ, ◌+◌, Bool, true, false, Option, none, some, List, [], ◌∷◌, ◌++◌, Bytes, codes, list_eq, Result,
  ok, err, length, ltb, leb, if◌then◌else◌,
}
use infralens.Query.Errors.{QueryError}
use infralens.Query.Executor.Filter.{filter_record_batch}

unfoldable pub signal_for_table : Bytes → Result ℕ QueryError
signal_for_table table =
    if list_eq table (codes "logs")
    then ok 0
    else if list_eq table (codes "metrics")
    then ok 1
    else if list_eq table (codes "traces")
    then ok 2
    else err (QueryError.bind (codes "unknown table '" ++ (table ++ codes "'")))

abbrev pub Batches : Type 0 → Type 0
Batches Row = Result {0, 0} (List (List Row)) QueryError

-- More batches in front of those of a result.
abbrev pub put_before : {Row : Type 0} → List (List Row) → Batches Row → Batches Row
put_before bs (ok rest) = ok (bs ++ rest)
put_before bs (err e) = err e

-- A batch that the predicate leaves empty is not pushed.
abbrev pub non_empty : {Row : Type 0} → List Row → List (List Row)
non_empty [] = []
non_empty (r ∷ rs) = (r ∷ rs) ∷ []

-- The predicate of the scan, if it has one, on a batch.
abbrev pub apply_predicate :
    {Row : Type 0}
    → Option (List Row → Result (List (Option Bool)) QueryError)
    → List Row
    → Batches Row
apply_predicate none batch = ok (batch ∷ [])
apply_predicate (some mask) batch = elim (mask batch) [
  | err e ↦ err e
  | ok m ↦ ok (non_empty (filter_record_batch batch m))
]

abbrev pub then_more : {Row : Type 0} → Batches Row → Batches Row → Batches Row
then_more (err e) rest = err e
then_more (ok bs) rest = put_before bs rest

module _ {Row : Type 0}
    (predicate : Option (List Row → Result (List (Option Bool)) QueryError)) where
  -- The batches of one file; the first error ends the scan.
  unfoldable pub scanned_batches : List (Result (List Row) QueryError) → Batches Row
  scanned_batches [] = ok []
  scanned_batches (err e ∷ bs) = err e
  scanned_batches (ok b ∷ bs) = then_more (apply_predicate predicate b) (scanned_batches bs)

  unfoldable pub read_files :
      List (Result (List (Result (List Row) QueryError)) QueryError) → Batches Row
  read_files [] = ok []
  read_files (err e ∷ files) = err e
  read_files (ok bs ∷ files) = then_more (scanned_batches bs) (read_files files)

-- `retain` with the number of rows kept so far.
unfoldable pub retain_rows : {Row : Type 0} → ℕ → ℕ → List (List Row) → List (List Row)
retain_rows limit total [] = []
retain_rows limit total (b ∷ bs) =
    let dropped = retain_rows limit total bs in
    let kept = retain_rows limit (total + length b) bs in
    if leb limit total then dropped else b ∷ kept

abbrev pub limited : {Row : Type 0} → Option ℕ → List (List Row) → List (List Row)
limited none bs = bs
limited (some limit) bs = retain_rows limit 0 bs

unfoldable pub load_batches :
    {Row : Type 0}
    → Bytes
    → Option (List Row → Result (List (Option Bool)) QueryError)
    → Option ℕ
    → (ℕ → List (Result (List (Result (List Row) QueryError)) QueryError))
    → Batches Row
load_batches table predicate limit files = elim (signal_for_table table) [
  | err e ↦ err e
  | ok signal ↦ elim (read_files predicate (files signal)) [
    | err e ↦ err e
    | ok bs ↦ ok (limited limit bs)
  ]
]
