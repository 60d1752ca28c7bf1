-- ===== src/Storage/Engine/Steps.antt =====
-- Each operation of the engine keeps every row, adds what it accepts, and never panics.
use infralens.Prelude.{
  ℕ, ◌-◌, ◌≤◌, ◌≡◌, refl, sym, ap, ◌∙◌, Bool, true, false, some, [], length, arith, ok, err,
  if◌then◌else◌, Bool-cases, inl, inr,
}
use infralens.Prelude.Totals.{total}
use infralens.Common.Model.{SignalType, LogRecord, MetricPoint, SpanRecord, IngestBatch}
use infralens.Storage.Errors.{StorageError}
use infralens.Storage.Engine.{
  EngineParams, StorageEngine, WriteResult, flush_queue_capacity, write_logs, write_metrics,
  write_spans, write_open, write_batch, flush_next, flush_all, close,
}
use infralens.Storage.Engine.Accept.{record_weight, write_records_lem}
use infralens.Storage.Engine.Drain.{flush_next_lem, flush_all_lem}
use infralens.Storage.Engine.Flush.{NoFiles}
use infralens.Storage.Engine.Runs.{
  Serializes, batch_weight, total-ext, log_lem, metric_lem, span_lem, all-Accepted,
}
use infralens.Storage.Engine.Weight.{RowWeights, IsValid, engine_weight}
use infralens.Storage.Engine.Write.{Kept}
use infralens.Prelude.SortedMap.{ℕ_order}
use infralens.Storage.MemTable.Write.{write_log, write_metric, write_span}
use infralens.Storage.Wal.{entry_log, entry_metric, entry_span}

abbrev pub write_result : Bool → WriteResult
write_result true = err StorageError.closed
write_result false = ok tt

Kept-eq :
    (params : EngineParams) (w : RowWeights) {e e' : StorageEngine} {a b : ℕ}
    → a ≡ b
    → Kept params w e e' a
    → Kept params w e e' b
Kept-eq params w same kept = record {
  valid = kept.valid;
  weight = omega (arith, kept.weight, same);
  closed = kept.closed;
  bounded = kept.bounded;
}

module _ (params : EngineParams) (w : RowWeights) (fresh : (key : ℕ) → NoFiles (params.dirs key))
    (logs : Serializes params.log_codec) (metrics : Serializes params.metric_codec)
    (spans : Serializes params.span_codec) where
  write_open_lem :
      (batch : IngestBatch) (e : StorageEngine)
      → IsValid e
      → (e' : StorageEngine) × (write_open params batch e ≡ some (ok tt, e'))
        × Kept params w e e' (batch_weight params w batch)
  unfolding write_open write_logs write_metrics write_spans write_log write_metric write_span
  write_open_lem (IngestBatch.logs rs) e v =
      let all = all-Accepted params w logs (
        write_records_lem params w fresh entry_log SignalType.log LogRecord.timestamp_ns
          params.log_codec rs e v) in
      let same : total (record_weight params w SignalType.log params.log_codec) rs
          ≡ batch_weight params w (IngestBatch.logs rs) =
        total-ext params w (record_weight params w SignalType.log params.log_codec) _ rs
          (λ r. log_lem params w (params.log_codec.serialize r)) in
      (all.after, all.result, Kept-eq params w same all.kept)
  write_open_lem (IngestBatch.metrics rs) e v =
      let all = all-Accepted params w metrics (
        write_records_lem params w fresh entry_metric SignalType.metric MetricPoint.timestamp_ns
          params.metric_codec rs e v) in
      let same : total (record_weight params w SignalType.metric params.metric_codec) rs
          ≡ batch_weight params w (IngestBatch.metrics rs) =
        total-ext params w (record_weight params w SignalType.metric params.metric_codec) _ rs
          (λ r. metric_lem params w (params.metric_codec.serialize r)) in
      (all.after, all.result, Kept-eq params w same all.kept)
  write_open_lem (IngestBatch.spans rs) e v =
      let all = all-Accepted params w spans (
        write_records_lem params w fresh entry_span SignalType.span SpanRecord.start_time_ns
          params.span_codec rs e v) in
      let same : total (record_weight params w SignalType.span params.span_codec) rs
          ≡ batch_weight params w (IngestBatch.spans rs) =
        total-ext params w (record_weight params w SignalType.span params.span_codec) _ rs
          (λ r. span_lem params w (params.span_codec.serialize r)) in
      (all.after, all.result, Kept-eq params w same all.kept)

  -- Where bincode writes every record and the data directory had no SSTables, `write_batch` never
  -- panics on a well-formed engine: a closed engine returns the error `Closed` and keeps its rows
  -- as they are, and an open one returns success and adds the rows of the batch.
  pub write_batch_lem :
      (batch : IngestBatch) (e : StorageEngine)
      → IsValid e
      → (e' : StorageEngine) × (write_batch params batch e ≡ some (write_result e.closed, e'))
        × Kept params w e e' (if e.closed then 0 else batch_weight params w batch)
  unfolding write_batch
  write_batch_lem batch e v =
      let added : Bool → ℕ = λ c. if c then 0 else batch_weight params w batch in
      elim (Bool-cases e.closed) [
        | inl shut ↦ (
          e,
          rw shut refl,
          Kept-eq params w (ap added (sym shut))
              (record { valid = v; weight = omega arith; closed = refl; bounded = λ h. h }),
        )
        | inr open' ↦
            let (e', result, kept) = write_open_lem batch e v in
            (
              e',
              ap (λ c. if c then some (err StorageError.closed, e) else write_open params batch e)
                    open'
                  ∙ result
                  ∙ ap (λ c. some (write_result c, e')) (sym open'),
              Kept-eq params w (ap added (sym open')) kept,
            )
      ]

  pub flush_all-Kept :
      (e : StorageEngine)
      → IsValid e
      → (e' : StorageEngine) × (flush_all params e ≡ some e')
        × Kept params w e e' 0
        × (e'.memtables ≡ [])
        × (e'.dropped ≡ e.dropped)
  flush_all-Kept e v =
      let (ps, ws, q, result, moved) = flush_all_lem params w fresh e v.partitions in
      (
        record e { memtables = []; partitions = ps; wals = ws; queue = q },
        result,
        record {
          valid = record { positive = v.positive; memtables = tt; partitions = moved.valid };
          weight = omega (arith, moved.weight);
          closed = refl;
          bounded = moved.bounded;
        },
        refl,
        refl,
      )

  pub flush_next-Kept :
      (e : StorageEngine)
      → IsValid e
      → (e' : StorageEngine) × (flush_next params e ≡ some e')
        × Kept params w e e' 0
        × (e'.memtables ≡ e.memtables)
        × (e'.dropped ≡ e.dropped)
        × (length e'.queue ≡ length e.queue - 1)
  flush_next-Kept e v =
      let (ps, ws, q, result, moved, len) = flush_next_lem params w fresh e v.partitions in
      (
        record e { partitions = ps; wals = ws; queue = q },
        result,
        record {
          valid = record {
            positive = v.positive;
            memtables = v.memtables;
            partitions = moved.valid;
          };
          weight = omega (arith, moved.weight);
          closed = refl;
          bounded = moved.bounded;
        },
        refl,
        refl,
        len,
      )

  pub close-Kept :
      (e : StorageEngine)
      → IsValid e
      → (e' : StorageEngine) × (close params e ≡ some e')
        × IsValid e'
        × (engine_weight params w e' ≡ engine_weight params w e)
        × (e'.closed ≡ true)
        × (e'.memtables ≡ [])
        × (e'.dropped ≡ e.dropped)
        × (length e.queue ≤ flush_queue_capacity → length e'.queue ≤ flush_queue_capacity)
  unfolding close
  close-Kept e v =
      let shut : StorageEngine = record e { closed = true } in
      let valid : IsValid shut = record {
        positive = v.positive;
        memtables = v.memtables;
        partitions = v.partitions;
      } in
      let (e', result, kept, empty, same) = flush_all-Kept shut valid in
      (e', result, kept.valid, omega (arith, kept.weight), kept.closed, empty, same, kept.bounded)
