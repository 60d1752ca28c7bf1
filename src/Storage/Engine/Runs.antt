-- ===== src/Storage/Engine/Runs.antt =====
-- Events of the engine, and the rows that a run accepts.
use infralens.Prelude.{
  ℕ, zero, suc, ◌+◌, ◌≡◌, refl, Bool, true, Option, none, some, List, [], ◌∷◌, Bytes, arith, Result,
  ok, err, if◌then◌else◌, ◌⊎◌, inl, inr, ◌>>=◌,
}
use infralens.Prelude.Totals.{total}
use infralens.Common.Model.{SignalType, as_u8, IngestBatch}
use infralens.Storage.Codec.{Codec}
use infralens.Storage.Errors.{StorageError}
use infralens.Storage.Engine.{
  EngineParams, StorageEngine, WriteResult, write_batch, flush_next, flush_all, close,
}
use infralens.Storage.Engine.Accept.{serialized_weight, Accepted, Rejected}
use infralens.Storage.Engine.Weight.{RowWeights, decoded, bytes_weight}
use infralens.Storage.SsTable.Rows.{log_row, metric_row, span_row}

-- bincode writes every record.
abbrev pub Serializes : {A : Type 0} → Codec A → Type 0
Serializes codec = (r : _) → (bytes : Bytes) × (codec.serialize r ≡ ok bytes)

abbrev pub reread_bytes : {A : Type 0} → Codec A → Result Bytes StorageError → Option A
reread_bytes codec (err x) = none
reread_bytes codec (ok bytes) = codec.deserialize bytes

-- A record written by bincode and read back.
abbrev pub reread : {A : Type 0} → Codec A → A → Option A
reread codec r = reread_bytes codec (codec.serialize r)

-- One step of a caller or of the flush worker.
pub data Event : Type 0 where
  write : IngestBatch → Event
  work : Event
  flush : Event
  shut : Event

-- The caller goes on after an error.
abbrev pub after_write : Option (WriteResult × StorageEngine) → Option StorageEngine
after_write none = none
after_write (some (result, e)) = some e

module _ (params : EngineParams) where
  unfoldable pub handle : Event → StorageEngine → Option StorageEngine
  handle (write batch) e = after_write (write_batch params batch e)
  handle work e = flush_next params e
  handle flush e = flush_all params e
  handle shut e = close params e

  unfoldable pub run : List Event → StorageEngine → Option StorageEngine
  run [] e = some e
  run (x ∷ xs) e = do e' ← handle x e; run xs e'

  -- The worker's rounds.
  unfoldable pub work_rounds : ℕ → StorageEngine → Option StorageEngine
  work_rounds zero e = some e
  work_rounds (suc n) e = do e' ← flush_next params e; work_rounds n e'

module _ (params : EngineParams) (w : RowWeights) where
  -- The rows of a batch, as bincode reads the records back.
  abbrev pub batch_weight : IngestBatch → ℕ
  batch_weight (IngestBatch.logs rs) =
      total (λ r. decoded (λ x. w.log (log_row params.tables.codec x)) (reread params.log_codec r))
        rs
  batch_weight (IngestBatch.metrics rs) =
      total
        (λ r.
          decoded (λ x. w.metric (metric_row params.tables.codec x)) (reread params.metric_codec r))
        rs
  batch_weight (IngestBatch.spans rs) =
      total
        (λ r. decoded (λ x. w.span (span_row params.tables.codec x)) (reread params.span_codec r))
        rs

  -- The batches written before the engine is closed.
  abbrev pub accepted_weight : Bool → List Event → ℕ
  accepted_weight closed [] = 0
  accepted_weight closed (write batch ∷ xs) =
      (if closed then 0 else batch_weight batch) + accepted_weight closed xs
  accepted_weight closed (work ∷ xs) = accepted_weight closed xs
  accepted_weight closed (flush ∷ xs) = accepted_weight closed xs
  accepted_weight closed (shut ∷ xs) = accepted_weight true xs

  pub total-ext :
      {A : Type 0} (f g : A → ℕ) (rs : List A) → ((r : A) → f r ≡ g r) → total f rs ≡ total g rs
  total-ext f g [] h = refl
  total-ext f g (r ∷ rs) h = omega (arith, h r, total-ext f g rs h)

  pub log_lem :
      (s : Result Bytes StorageError)
      → serialized_weight params w SignalType.log s
        ≡ decoded (λ x. w.log (log_row params.tables.codec x)) (reread_bytes params.log_codec s)
  unfolding bytes_weight as_u8
  log_lem (err x) = refl
  log_lem (ok bytes) = omega arith

  pub metric_lem :
      (s : Result Bytes StorageError)
      → serialized_weight params w SignalType.metric s
        ≡ decoded
            (λ x. w.metric (metric_row params.tables.codec x))
            (reread_bytes params.metric_codec s)
  unfolding bytes_weight as_u8
  metric_lem (err x) = refl
  metric_lem (ok bytes) = omega arith

  pub span_lem :
      (s : Result Bytes StorageError)
      → serialized_weight params w SignalType.span s
        ≡ decoded (λ x. w.span (span_row params.tables.codec x)) (reread_bytes params.span_codec s)
  unfolding bytes_weight as_u8
  span_lem (err x) = refl
  span_lem (ok bytes) = omega arith

  -- Without a refused record a batch is accepted.
  pub all-Accepted :
      {A : Type 0} {codec : Codec A} {weight : A → ℕ} {rs : List A} {e : StorageEngine}
      {out : Option (WriteResult × StorageEngine)}
      → Serializes codec
      → Accepted params w weight rs e out ⊎ Rejected params w codec weight rs e out
      → Accepted params w weight rs e out
  all-Accepted total' (inl yes') = yes'
  all-Accepted total' (inr no') =
      let (bytes, run') = total' no'.refused in ground (arith, run', no'.fails)
