-- ===== src/Storage/Engine/Flush.antt =====
-- The flush worker and the forced flush: rows move from memtables through the queue to SSTables, and
-- none is lost on the way.
use mathlib.Core.Path.{subst}
use infralens.Prelude.{ℕ, ◌+◌, ◌≡◌, refl, sym, some, List, [], All, arith, Option-cases, inl, inr}
use infralens.Prelude.SortedMap
use infralens.Prelude.SortedMap.{ℕ_order, get, All-insert, get-insert_self}
use infralens.Prelude.Totals.{values, values-insert-none, values-insert-some, All-get}
use infralens.Common.Model.{SignalType, as_u8}
use infralens.Storage.Engine.{
  EngineParams, FlushRequest, StorageEngine, get_or_create_partition, checkpoint_file,
  flush_immutable,
}
use infralens.Storage.Engine.Weight.{
  RowWeights, IsPartition, mem_weight, mem_weight-drain_signal, partition_weight,
}
use infralens.Storage.MemTable.{drain_signal}
use infralens.Storage.Partition.Flushed.{
  IsStore, store_weight, empty_dir, open_store-IsStore, Writes, flush_rows-IsStore,
}
use infralens.Storage.Partition.Stores.{
  SignalDir, PartitionDir, Partition, open_dir, open_store, flush_signal,
}
use infralens.Storage.SsTable.{TableParams, write_logs, write_metrics, write_spans}
use infralens.Storage.SsTable.Rows.{log_row, metric_row, span_row}
use infralens.Storage.SsTable.Written.{written_lem}
use infralens.Storage.Wal.{Wal, open_wal, checkpoint}

-- The process starts on a data directory without SSTables.
pub record NoFiles (d : PartitionDir) : Type 0 where
  pub logs : d.logs ≡ empty_dir
  pub metrics : d.metrics ≡ empty_dir
  pub spans : d.spans ≡ empty_dir

open_empty :
    {R : Type 0} (w : R → ℕ) (d : SignalDir R)
    → d ≡ empty_dir
    → IsStore (open_store d) × (store_weight w (open_store d) ≡ 0)
open_empty w d h =
    subst (λ x. IsStore (open_store x) × (store_weight w (open_store x) ≡ 0)) (sym h)
      (open_store-IsStore w)

writers :
    (params : TableParams)
    → Writes (log_row params.codec) (write_logs params)
      × Writes (metric_row params.codec) (write_metrics params)
      × Writes (span_row params.codec) (write_spans params)
writers params = (
  λ rs. let (a, b, c) = written_lem params rs [] [] in (a.0, a.1, a.2.rows),
  λ rs. let (a, b, c) = written_lem params [] rs [] in (b.0, b.1, b.2.rows),
  λ rs. let (a, b, c) = written_lem params [] [] rs in (c.0, c.1, c.2.rows),
)

module _ (params : EngineParams) (w : RowWeights)
    (fresh : (key : ℕ) → NoFiles (params.dirs key)) where
  open_dir-IsPartition :
      (key : ℕ)
      → IsPartition (open_dir (params.dirs key))
        × (partition_weight params w (open_dir (params.dirs key)) ≡ 0)
  unfolding open_dir
  open_dir-IsPartition key =
      let d = params.dirs key in
      let logs = open_empty w.log d.logs (fresh key).logs in
      let metrics = open_empty w.metric d.metrics (fresh key).metrics in
      let spans = open_empty w.span d.spans (fresh key).spans in
      (
        record { logs = logs.0; metrics = metrics.0; spans = spans.0 },
        omega (arith, logs.1, metrics.1, spans.1),
      )

  -- The partitions after `get_or_create_partition`: one more without rows, or the same.
  pub get_or_create_partition_lem :
      (key : ℕ) (e : StorageEngine)
      → All (λ x. IsPartition x.1) e.partitions
      → (p : Partition) × (ps : List (ℕ × Partition)) × (get_or_create_partition params key e
          ≡ (p, record e { partitions = ps }))
        × IsPartition p
        × All (λ x. IsPartition x.1) ps
        × (get key ps ≡ some p)
        × (values (partition_weight params w) ps ≡ values (partition_weight params w) e.partitions)
  unfolding get_or_create_partition
  get_or_create_partition_lem key e v = elim (Option-cases (get key e.partitions)) [
    | inl missing ↦
        let (valid, weight) = open_dir-IsPartition key in
        let p = open_dir (params.dirs key) in
        (
          p,
          SortedMap.insert key p e.partitions,
          rw (get_or_create_partition, missing) refl,
          valid,
          All-insert (λ x. IsPartition x.1) key p e.partitions valid v,
          get-insert_self key p e.partitions,
          omega (
            arith,
            weight,
            values-insert-none (partition_weight params w) key p e.partitions missing,
          ),
        )
    | inr (p, found) ↦ (
      p,
      e.partitions,
      rw (get_or_create_partition, found) refl,
      All-get IsPartition key p e.partitions found v,
      v,
      found,
      refl,
    )
  ]

  checkpoint_file_lem :
      (key : ℕ) (e : StorageEngine)
      → (ws : List (ℕ × Wal)) × (checkpoint_file params key e ≡ record e { wals = ws })
  unfolding checkpoint_file
  checkpoint_file_lem key e = elim (Option-cases (get key e.wals)) [
    | inl missing ↦ (e.wals, rw (checkpoint_file, missing) refl)
    | inr (wal, found) ↦ (
      SortedMap.insert key
          (record wal { file = (checkpoint params.crc32 (open_wal (some wal.file))).file }) e.wals,
      rw (checkpoint_file, found) refl,
    )
  ]

  -- A flushed request is in the SSTables of its partition.
  pub flush_immutable_lem :
      (req : FlushRequest) (e : StorageEngine)
      → All (λ x. IsPartition x.1) e.partitions
      → (ps : List (ℕ × Partition)) × (ws : List (ℕ × Wal)) × (flush_immutable params req e
          ≡ some (record e { partitions = ps; wals = ws }))
        × All (λ x. IsPartition x.1) ps
        × (values (partition_weight params w) ps
            ≡ values (partition_weight params w) e.partitions + mem_weight params w req.mem)
  unfolding flush_immutable flush_signal
  flush_immutable_lem req e v =
      let (p, ps, opened, is, valid, found, weight) =
        get_or_create_partition_lem req.partition e v in
      let (logs_write, metrics_write, spans_write) = writers params.tables in
      let (logs, logs_run, logs_is, logs_weight) =
        flush_rows-IsStore w.log (log_row params.tables.codec) params.log_codec
          (write_logs params.tables) (drain_signal (as_u8 SignalType.log) req.mem) p.logs logs_write
          is.logs in
      let (metrics, metrics_run, metrics_is, metrics_weight) =
        flush_rows-IsStore w.metric (metric_row params.tables.codec) params.metric_codec
          (write_metrics params.tables) (drain_signal (as_u8 SignalType.metric) req.mem) p.metrics
          metrics_write is.metrics in
      let (spans, spans_run, spans_is, spans_weight) =
        flush_rows-IsStore w.span (span_row params.tables.codec) params.span_codec
          (write_spans params.tables) (drain_signal (as_u8 SignalType.span) req.mem) p.spans
          spans_write is.spans in
      let p' : Partition = record { logs = logs; metrics = metrics; spans = spans } in
      let (ws, checkpointed) =
        checkpoint_file_lem req.partition
          (record e { partitions = SortedMap.insert req.partition p' ps }) in
      (
        SortedMap.insert req.partition p' ps,
        ws,
        rw (flush_immutable, opened, logs_run, metrics_run, spans_run, checkpointed) refl,
        All-insert (λ x. IsPartition x.1) req.partition p' ps
            (record { logs = logs_is; metrics = metrics_is; spans = spans_is }) valid,
        omega (
          arith,
          weight,
          values-insert-some (partition_weight params w) req.partition p' p ps found,
          logs_weight,
          metrics_weight,
          spans_weight,
          mem_weight-drain_signal params w req.mem,
        ),
      )
