-- ===== src/Query/Executor/Limit.antt =====
-- crates/infralens-query/src/executor/limit.rs: LIMIT and OFFSET over batches. A batch is its rows; the
-- child operator is what its polls will return, one after the other, and then the end.
pub mod Rows
use infralens.Prelude.{
  ℕ, zero, suc, ◌+◌, ◌-◌, ◌≤◌, ◌<◌, ◌≡◌, refl, sym, ◌∙◌, ap, Bool, true, false, Option, none, some,
  List, [], ◌∷◌, ◌++◌, Result, ok, err, length, length-drop, length-append, take, drop, arith, min,
  ltb, leb, ◌==◌, if◌then◌else◌, Bool-cases, inl, inr, append-nil,
}
use infralens.Query.Errors.{QueryError}

pub record LimitOperator (Row : Type 0) : Type 0 where
  pub child : List (Result (List Row) QueryError)
  pub remaining : ℕ
  pub skip : ℕ

module _ {Row : Type 0} where
  unfoldable pub new : List (Result (List Row) QueryError) → ℕ → ℕ → LimitOperator Row
  new child limit offset = record { child = child; remaining = limit; skip = offset }

  -- `RecordBatch::slice`
  abbrev pub slice : ℕ → ℕ → List Row → List Row
  slice start size batch = take size (drop start batch)

  -- The batch behind the skipped rows, cut to what remains.
  abbrev pub emit :
      List Row → List (Result (List Row) QueryError) → ℕ → ℕ → List Row × LimitOperator Row
  emit batch child remaining skip =
      let batch' = if ltb 0 skip then slice skip (length batch - skip) batch else batch in
      let count = min (length batch') remaining in
      (slice 0 count batch', record { child = child; remaining = remaining - count; skip = 0 })

  -- The loop over the child's batches.
  unfoldable pub pull :
      List (Result (List Row) QueryError)
      → ℕ
      → ℕ
      → Result (Option (List Row)) QueryError × LimitOperator Row
  pull [] remaining skip = (ok none, record { child = []; remaining = remaining; skip = skip })
  pull (err e ∷ child) remaining skip =
      (err e, record { child = child; remaining = remaining; skip = skip })
  pull (ok batch ∷ child) remaining skip =
      let next = pull child remaining (skip - length batch) in
      let (out, op) = emit batch child remaining skip in
      if leb (length batch) skip then next else (ok (some out), op)

  unfoldable pub poll_next :
      LimitOperator Row → Result (Option (List Row)) QueryError × LimitOperator Row
  poll_next op = if op.remaining == 0 then (ok none, op) else pull op.child op.remaining op.skip
