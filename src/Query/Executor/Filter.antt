-- ===== src/Query/Executor/Filter.antt =====
-- crates/infralens-query/src/executor/filter.rs: WHERE over batches. A batch is its rows; `mask` is what
-- `eval_filter` gives for a batch, with a null where a row has no answer.
pub mod Rows
use infralens.Prelude.{
  ℕ, Bool, true, false, Option, none, some, List, [], ◌∷◌, Result, ok, err, length, ltb,
  if◌then◌else◌,
}
use infralens.Query.Errors.{QueryError}

-- `filter_record_batch`: the rows whose answer is true.
abbrev pub filter_record_batch : {Row : Type 0} → List Row → List (Option Bool) → List Row
filter_record_batch [] mask = []
filter_record_batch (r ∷ rs) [] = []
filter_record_batch (r ∷ rs) (none ∷ mask) = filter_record_batch rs mask
filter_record_batch (r ∷ rs) (some false ∷ mask) = filter_record_batch rs mask
filter_record_batch (r ∷ rs) (some true ∷ mask) = r ∷ filter_record_batch rs mask

module _ {Row : Type 0} (mask : List Row → Result (List (Option Bool)) QueryError) where
  -- The loop over the child's batches: its result, and what the child has left.
  unfoldable pub poll_next :
      List (Result (List Row) QueryError)
      → Result (Option (List Row)) QueryError × List (Result (List Row) QueryError)
  poll_next [] = (ok none, [])
  poll_next (err e ∷ child) = (err e, child)
  poll_next (ok batch ∷ child) =
      let next = poll_next child in
      elim (mask batch) [
        | err e ↦ (err e, child)
        | ok m ↦
            let out = filter_record_batch batch m in
            if ltb 0 (length out) then (ok (some out), child) else next
      ]
