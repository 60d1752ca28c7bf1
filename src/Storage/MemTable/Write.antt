-- ===== src/Storage/MemTable/Write.antt =====
-- crates/infralens-storage/src/memtable.rs: the typed writers, which serialise a record and insert it.
use infralens.Prelude.{ℕ, Result, ok, err}
use infralens.Common.Model.{LogRecord, MetricPoint, SpanRecord, SignalType, as_u8}
use infralens.Storage.Codec.{Codec}
use infralens.Storage.Errors.{StorageError}
use infralens.Storage.MemTable.{MemTable, insert}

-- What the three writers share.
unfoldable pub write_record :
    {A : Type 0} → Codec A → SignalType → ℕ → A → MemTable → Result MemTable StorageError
write_record codec signal timestamp_ns r mem = elim (codec.serialize r) [
  | err e ↦ err e
  | ok bytes ↦ ok (insert timestamp_ns (as_u8 signal) bytes mem)
]

unfoldable pub write_log : Codec LogRecord → LogRecord → MemTable → Result MemTable StorageError
write_log codec r mem = write_record codec SignalType.log r.timestamp_ns r mem

unfoldable pub write_metric :
    Codec MetricPoint → MetricPoint → MemTable → Result MemTable StorageError
write_metric codec r mem = write_record codec SignalType.metric r.timestamp_ns r mem

unfoldable pub write_span : Codec SpanRecord → SpanRecord → MemTable → Result MemTable StorageError
write_span codec r mem = write_record codec SignalType.span r.start_time_ns r mem
