-- ===== src/Storage/Engine/Weight.antt =====
-- Where the rows of the engine are: in its memtables, in the flush queue, in SSTables, or dropped. A
-- weight on the rows of each signal makes a sum of each place.
use infralens.Prelude.{
  ℕ, ◌+◌, ◌<◌, ◌≡◌, refl, Option, none, some, List, [], ◌∷◌, Bytes, keep, All, arith, ◌==◌,
  if◌then◌else◌,
}
use infralens.Prelude.SortedMap.{ℕ_order}
use infralens.Prelude.Totals.{total, total-insert_new, total-sum, values}
use infralens.Common.Model.{SignalType, as_u8}
use infralens.Storage.Codec.{Codec}
use infralens.Storage.Engine.{EngineParams, FlushRequest, StorageEngine}
use infralens.Storage.MemTable
use infralens.Storage.MemTable.{MemTable, insert, drain_signal}
use infralens.Storage.MemTable.Order.{RowKey, row_key_order}
use infralens.Storage.MemTable.Rows
use infralens.Storage.MemTable.Rows.{Row, key_of, keys_ne}
use infralens.Storage.Partition.Flushed.{IsStore, store_weight}
use infralens.Storage.Partition.Stores.{Partition, decode_rows}
use infralens.Storage.SsTable.Rows.{LogRow, MetricRow, SpanRow, log_row, metric_row, span_row}

pub record RowWeights : Type 0 where
  pub log : LogRow → ℕ
  pub metric : MetricRow → ℕ
  pub span : SpanRow → ℕ

pub record IsPartition (p : Partition) : Type 0 where
  pub logs : IsStore p.logs
  pub metrics : IsStore p.metrics
  pub spans : IsStore p.spans

pub record IsValid (e : StorageEngine) : Type 0 where
  pub positive : 0 < e.bucket_ns
  pub memtables : All (λ x. MemTable.Rows.IsValid x.1) e.memtables
  pub partitions : All (λ x. IsPartition x.1) e.partitions

-- What bincode reads back.
abbrev pub decoded : {A : Type 0} → (A → ℕ) → Option A → ℕ
decoded w none = 0
decoded w (some r) = w r

abbrev pub part_weight : {A : Type 0} → Codec A → SignalType → (A → ℕ) → RowKey × Bytes → ℕ
part_weight codec signal w e =
    if e.0.signal_type == as_u8 signal then decoded w (codec.deserialize e.1) else 0

total-decode_rows :
    {A : Type 0} (codec : Codec A) (signal : SignalType) (w : A → ℕ) (rows : List (RowKey × Bytes))
    → total w (decode_rows codec (keep (λ e. e.0.signal_type == as_u8 signal) rows))
      ≡ total (part_weight codec signal w) rows
unfolding decode_rows
total-decode_rows codec signal w [] = refl
total-decode_rows codec signal w (e ∷ rows) = ground (arith, total-decode_rows codec signal w rows)

module _ (params : EngineParams) (w : RowWeights) where
  abbrev pub log_weight : RowKey × Bytes → ℕ
  log_weight =
      part_weight params.log_codec SignalType.log (λ r. w.log (log_row params.tables.codec r))

  abbrev pub metric_weight : RowKey × Bytes → ℕ
  metric_weight =
      part_weight params.metric_codec SignalType.metric
        (λ r. w.metric (metric_row params.tables.codec r))

  abbrev pub span_weight : RowKey × Bytes → ℕ
  span_weight =
      part_weight params.span_codec SignalType.span (λ r. w.span (span_row params.tables.codec r))

  -- An entry of a memtable, by the row that a flush makes of it.
  abbrev pub entry_weight : RowKey × Bytes → ℕ
  entry_weight e = log_weight e + metric_weight e + span_weight e

  abbrev pub mem_weight : MemTable → ℕ
  mem_weight mem = total entry_weight mem.inner

  abbrev pub partition_weight : Partition → ℕ
  partition_weight p =
      store_weight w.log p.logs + store_weight w.metric p.metrics + store_weight w.span p.spans

  abbrev pub queue_weight : List FlushRequest → ℕ
  queue_weight = total (λ req. mem_weight (FlushRequest.mem req))

  -- The rows in the SSTables that queries find.
  abbrev pub stored_weight : StorageEngine → ℕ
  stored_weight e = values partition_weight e.partitions

  abbrev pub dropped_weight : StorageEngine → ℕ
  dropped_weight e = total mem_weight e.dropped

  abbrev pub pending_weight : StorageEngine → ℕ
  pending_weight e = values mem_weight e.memtables + queue_weight e.queue

  abbrev pub engine_weight : StorageEngine → ℕ
  engine_weight e = pending_weight e + (stored_weight e + dropped_weight e)

  -- What the three flushes of a memtable make of it.
  pub mem_weight-drain_signal :
      (mem : MemTable)
      → mem_weight mem
        ≡ total
            (λ r. w.log (log_row params.tables.codec r))
            (decode_rows params.log_codec (drain_signal (as_u8 SignalType.log) mem))
          + total
              (λ r. w.metric (metric_row params.tables.codec r))
              (decode_rows params.metric_codec (drain_signal (as_u8 SignalType.metric) mem))
          + total
              (λ r. w.span (span_row params.tables.codec r))
              (decode_rows params.span_codec (drain_signal (as_u8 SignalType.span) mem))
  unfolding drain_signal
  mem_weight-drain_signal mem = omega (
    arith,
    total-sum log_weight metric_weight span_weight mem.inner,
    total-decode_rows params.log_codec SignalType.log (λ r. w.log (log_row params.tables.codec r))
        mem.inner,
    total-decode_rows params.metric_codec SignalType.metric
        (λ r. w.metric (metric_row params.tables.codec r)) mem.inner,
    total-decode_rows params.span_codec SignalType.span
        (λ r. w.span (span_row params.tables.codec r)) mem.inner,
  )

  -- The weight that a record's bytes have under a key; the timestamp and the number do not matter.
  unfoldable pub bytes_weight : SignalType → Bytes → ℕ
  bytes_weight signal bytes =
      entry_weight (record { timestamp_ns = 0; signal_type = as_u8 signal; sequence = 0 }, bytes)

  pub mem_weight-insert :
      (signal : SignalType) (timestamp_ns : ℕ) (bytes : Bytes) (mem : MemTable)
      → MemTable.Rows.IsValid mem
      → mem_weight (insert timestamp_ns (as_u8 signal) bytes mem)
        ≡ mem_weight mem + bytes_weight signal bytes
  unfolding insert bytes_weight
  mem_weight-insert signal timestamp_ns bytes mem v =
      let r : Row = record {
        timestamp_ns = timestamp_ns;
        signal_type = as_u8 signal;
        bytes = bytes;
      } in
      total-insert_new entry_weight (key_of mem.sequence r) bytes mem.inner
        (keys_ne mem.inner mem.sequence r v.fresh)
