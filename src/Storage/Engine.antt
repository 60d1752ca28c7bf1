-- ===== src/Storage/Engine.antt =====
-- crates/infralens-storage/src/engine.rs: the storage engine. A `DashMap` is a map in key order, an `Arc`
-- is the entry of the map that it was taken from, and the flush channel is a queue. There is one
-- writer; each step of the flush worker takes one request. `none` is a panic.
pub mod Weight
pub mod Flush
pub mod Drain
pub mod Write
pub mod Accept
pub mod Runs
pub mod Steps
pub mod Conserved
pub mod Tests
use infralens.Prelude.{
  ◌^◌, ◌%◌, ℕ, Bool, true, false, Option, none, some, List, [], ◌∷◌, ◌++◌, ◌*◌, Bytes, Result, ok,
  err, length, map, any, keep, ltb, ◌==◌, if◌then◌else◌, ◌>>=◌, get_or_else,
}
use infralens.Prelude.SortedMap
use infralens.Prelude.SortedMap.{ℕ_order}
use infralens.Common.Model.{SignalType, try_from, LogRecord, MetricPoint, SpanRecord, IngestBatch}
use infralens.Storage.Codec.{Codec}
use infralens.Storage.Errors.{StorageError}
use infralens.Storage.MemTable
use infralens.Storage.MemTable.{MemTable, is_full, is_empty}
use infralens.Storage.MemTable.Write.{write_log, write_metric, write_span}
use infralens.Storage.Partition.{for_timestamp, SsTableMeta}
use infralens.Storage.Partition.Stores
use infralens.Storage.Partition.Stores.{PartitionDir, Partition, signal_partition, flush_signal}
use infralens.Storage.SsTable
use infralens.Storage.SsTable.{TableParams}
use infralens.Storage.Wal.{Wal, open_wal, append, checkpoint, entry_log, entry_metric, entry_span}

abbrev pub flush_queue_capacity : ℕ
flush_queue_capacity = 64

abbrev pub WriteResult : Type 0
WriteResult = Result {0, 0} Unit StorageError

-- The memtable of a request, and the key of its partition.
pub record FlushRequest : Type 0 where
  pub mem : MemTable
  pub partition : ℕ

-- `dropped` holds what no variable of the program holds any more: the memtables of the requests that
-- the queue did not take.
pub record StorageEngine : Type 0 where
  pub bucket_ns : ℕ
  pub memtable_size : ℕ
  pub partitions : List (ℕ × Partition)
  pub memtables : List (ℕ × MemTable)
  pub wals : List (ℕ × Wal)
  pub queue : List FlushRequest
  pub dropped : List MemTable
  pub closed : Bool

-- The length of a bucket is a u64, whose product wraps in a release build.
unfoldable pub open_engine : ℕ → ℕ → StorageEngine
open_engine partition_hours memtable_size_bytes = record {
  bucket_ns = partition_hours * 3600 * 1000000000 % 2 ^ 64;
  memtable_size = memtable_size_bytes;
  partitions = [];
  memtables = [];
  wals = [];
  queue = [];
  dropped = [];
  closed = false;
}

-- What the engine takes from elsewhere: the checksum, the writers' parameters, bincode, and the
-- directories that the process finds when it starts.
pub record EngineParams : Type 0 where
  pub crc32 : Bytes → ℕ
  pub tables : TableParams
  pub log_codec : Codec LogRecord
  pub metric_codec : Codec MetricPoint
  pub span_codec : Codec SpanRecord
  pub dirs : ℕ → PartitionDir

unfoldable pub get_or_create_memtable : ℕ → StorageEngine → MemTable × StorageEngine
get_or_create_memtable key e = elim (SortedMap.get key e.memtables) [
  | some mem ↦ (mem, e)
  | none ↦
      let mem = MemTable.new e.memtable_size in
      (mem, record e { memtables = SortedMap.insert key mem e.memtables })
]

-- `Sender::try_send`; the worker keeps the channel open.
unfoldable pub try_send : FlushRequest → StorageEngine → StorageEngine
try_send req e =
    if ltb (length e.queue) flush_queue_capacity
    then record e { queue = e.queue ++ req ∷ [] }
    else record e { dropped = e.dropped ++ req.mem ∷ [] }

-- `?` in the loop of the writers.
abbrev pub next_record :
    WriteResult × StorageEngine
    → (StorageEngine → Option (WriteResult × StorageEngine))
    → Option (WriteResult × StorageEngine)
next_record (err x, e) rest = some (err x, e)
next_record (ok _, e) rest = rest e

module _ (params : EngineParams) where
  unfoldable pub get_or_create_partition : ℕ → StorageEngine → Partition × StorageEngine
  get_or_create_partition key e = elim (SortedMap.get key e.partitions) [
    | some p ↦ (p, e)
    | none ↦
        let p = Stores.open_dir (params.dirs key) in
        (p, record e { partitions = SortedMap.insert key p e.partitions })
  ]

  unfoldable pub get_or_create_wal : ℕ → StorageEngine → Wal × StorageEngine
  get_or_create_wal key e = elim (SortedMap.get key e.wals) [
    | some w ↦ (w, e)
    | none ↦
        let (p, e') = get_or_create_partition key e in
        let w = open_wal (params.dirs key).wal in
        (w, record e' { wals = SortedMap.insert key w e'.wals })
  ]

  -- The engine's log of a partition, after an append.
  unfoldable pub append_wal : ℕ → ℕ → Bytes → StorageEngine → StorageEngine
  append_wal key entry_type bytes e =
      let (w, e') = get_or_create_wal key e in
      record e' { wals = SortedMap.insert key (append params.crc32 entry_type bytes w).1 e'.wals }

  unfoldable pub freeze : ℕ → MemTable → StorageEngine → StorageEngine
  freeze key mem e =
      let fresh = MemTable.new e.memtable_size in
      let (p, e') =
        get_or_create_partition key
          (record e { memtables = SortedMap.insert key fresh e.memtables }) in
      try_send (record { mem = mem; partition = key }) e'

  unfoldable pub maybe_freeze : ℕ → MemTable → StorageEngine → StorageEngine
  maybe_freeze key mem e = if is_full mem then freeze key mem e else e

  -- The rest of the loop body, from `write_log` on.
  unfoldable pub store_row :
      ℕ → Result MemTable StorageError → StorageEngine → WriteResult × StorageEngine
  store_row key (err x) e = (err x, e)
  store_row key (ok mem) e =
      (ok tt, maybe_freeze key mem (record e { memtables = SortedMap.insert key mem e.memtables }))

  -- The loop body of the three writers, for the key of a record: `write` is the memtable's writer.
  unfoldable pub write_keyed :
      {A : Type 0}
      → ℕ
      → Codec A
      → (A → MemTable → Result MemTable StorageError)
      → A
      → ℕ
      → StorageEngine
      → WriteResult × StorageEngine
  write_keyed entry_type codec write r key e =
      let (mem, e1) = get_or_create_memtable key e in
      elim (codec.serialize r) [
        | err x ↦ (err x, e1)
        | ok bytes ↦ store_row key (write r mem) (append_wal key entry_type bytes e1)
      ]

  unfoldable pub write_records :
      {A : Type 0}
      → (A → ℕ)
      → ℕ
      → Codec A
      → (A → MemTable → Result MemTable StorageError)
      → List A
      → StorageEngine
      → Option (WriteResult × StorageEngine)
  write_records timestamp entry_type codec write [] e = some (ok tt, e)
  write_records timestamp entry_type codec write (r ∷ rs) e = do
    key ← for_timestamp (timestamp r) e.bucket_ns
    next_record (write_keyed entry_type codec write r key e)
        (write_records timestamp entry_type codec write rs)

  unfoldable pub write_logs : List LogRecord → StorageEngine → Option (WriteResult × StorageEngine)
  write_logs records e =
      write_records LogRecord.timestamp_ns entry_log params.log_codec (write_log params.log_codec)
        records e

  unfoldable pub write_metrics :
      List MetricPoint → StorageEngine → Option (WriteResult × StorageEngine)
  write_metrics records e =
      write_records MetricPoint.timestamp_ns entry_metric params.metric_codec
        (write_metric params.metric_codec) records e

  unfoldable pub write_spans :
      List SpanRecord → StorageEngine → Option (WriteResult × StorageEngine)
  write_spans records e =
      write_records SpanRecord.start_time_ns entry_span params.span_codec
        (write_span params.span_codec) records e

  unfoldable pub write_open : IngestBatch → StorageEngine → Option (WriteResult × StorageEngine)
  write_open (IngestBatch.logs records) e = write_logs records e
  write_open (IngestBatch.metrics records) e = write_metrics records e
  write_open (IngestBatch.spans records) e = write_spans records e

  unfoldable pub write_batch : IngestBatch → StorageEngine → Option (WriteResult × StorageEngine)
  write_batch batch e = if e.closed then some (err StorageError.closed, e) else write_open batch e

  -- The worker opens the log file a second time; the engine's own writer keeps its buffer and offset.
  unfoldable pub checkpoint_file : ℕ → StorageEngine → StorageEngine
  checkpoint_file key e = elim (SortedMap.get key e.wals) [
    | none ↦ e
    | some w ↦
        let other = checkpoint params.crc32 (open_wal (some w.file)) in
        record e { wals = SortedMap.insert key (record w { file = other.file }) e.wals }
  ]

  -- A request's partition is the entry of the map. A log that the engine never opened is not there.
  unfoldable pub flush_immutable : FlushRequest → StorageEngine → Option StorageEngine
  flush_immutable req e = do
    let (p, e') = get_or_create_partition req.partition e
    logs ←
        flush_signal SignalType.log params.log_codec (SsTable.write_logs params.tables) req.mem
          p.logs
    metrics ←
        flush_signal SignalType.metric params.metric_codec (SsTable.write_metrics params.tables)
          req.mem p.metrics
    spans ←
        flush_signal SignalType.span params.span_codec (SsTable.write_spans params.tables) req.mem
          p.spans
    let flushed : Partition = record { logs = logs; metrics = metrics; spans = spans }
    some (
        checkpoint_file req.partition
          (record e' { partitions = SortedMap.insert req.partition flushed e'.partitions }))

  -- One round of `flush_worker`, if there is a request.
  unfoldable pub flush_next : StorageEngine → Option StorageEngine
  flush_next e = elim e.queue [
    | [] ↦ some e
    | req ∷ rest ↦ flush_immutable req (record e { queue = rest })
  ]

  -- `Sender::send` waits for room, which the worker makes.
  unfoldable pub send : FlushRequest → StorageEngine → Option StorageEngine
  send req e = do
    e' ← if ltb (length e.queue) flush_queue_capacity then some e else flush_next e
    some (record e' { queue = e'.queue ++ req ∷ [] })

  unfoldable pub flush_removed : ℕ → MemTable → StorageEngine → Option StorageEngine
  flush_removed key mem e =
      if is_empty mem
      then some e
      else send (record { mem = mem; partition = key }) (get_or_create_partition key e).1

  unfoldable pub flush_key : ℕ → StorageEngine → Option StorageEngine
  flush_key key e = elim (SortedMap.get key e.memtables) [
    | none ↦ some e
    | some mem ↦ flush_removed key mem (record e { memtables = SortedMap.remove key e.memtables })
  ]

  unfoldable pub flush_keys : List ℕ → StorageEngine → Option StorageEngine
  flush_keys [] e = some e
  flush_keys (key ∷ keys) e = do e' ← flush_key key e; flush_keys keys e'

  unfoldable pub flush_all : StorageEngine → Option StorageEngine
  flush_all e = flush_keys (map (λ x. x.0) e.memtables) e

  unfoldable pub close : StorageEngine → Option StorageEngine
  close e = flush_all (record e { closed = true })

-- The paths of a partition: its key and the number of the file, in the signal's directory.
unfoldable pub paths_of : SignalType → List ℕ → StorageEngine → List (ℕ × ℕ)
paths_of sig [] e = []
paths_of sig (key ∷ keys) e = elim (SortedMap.get key e.partitions) [
  | none ↦ paths_of sig keys e
  | some p ↦
      map (λ m. (key, SsTableMeta.seq m)) (signal_partition sig p).sstables ++ paths_of sig keys e
]

-- An empty filter asks for every known partition.
unfoldable pub filter_keys : List ℕ → StorageEngine → List ℕ
filter_keys [] e = map (λ x. x.0) e.partitions
filter_keys (key ∷ keys) e = key ∷ keys

unfoldable pub sstable_paths_for_signal : ℕ → List ℕ → StorageEngine → List (ℕ × ℕ)
sstable_paths_for_signal signal partition_filter e = elim (try_from signal) [
  | err x ↦ []
  | ok sig ↦ paths_of sig (filter_keys partition_filter e) e
]
