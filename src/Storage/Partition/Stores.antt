-- ===== src/Storage/Partition/Stores.antt =====
-- crates/infralens-storage/src/partition.rs and the flush half of engine.rs: a time bucket with the
-- files of its three signals. A file of the disk is known by the number in its name.
use infralens.Prelude.{ℕ, Option, none, some, List, [], ◌∷◌, Bytes, ◌>>=◌}
use infralens.Prelude.SortedMap
use infralens.Prelude.SortedMap.{ℕ_order}
use infralens.Common.Model.{SignalType, as_u8}
use infralens.Storage.Codec.{Codec}
use infralens.Storage.MemTable.{MemTable, drain_signal}
use infralens.Storage.MemTable.Order.{RowKey}
use infralens.Storage.Partition.{SignalPartition, ZoneFile, open_partition, next_seq, add_sstable}
use infralens.Storage.SsTable.{SsTable}
use infralens.Storage.SsTable.Rows.{LogRow, MetricRow, SpanRow}

-- The directory of one signal as a start of the process finds it.
pub record SignalDir (R : Type 0) : Type 0 where
  pub zone_files : List ZoneFile
  pub files : List (ℕ × SsTable R)

-- What is known of the SSTables, and the files on the disk.
pub record SignalStore (R : Type 0) : Type 0 where
  pub index : SignalPartition
  pub files : List (ℕ × SsTable R)

pub record PartitionDir : Type 0 where
  pub logs : SignalDir LogRow
  pub metrics : SignalDir MetricRow
  pub spans : SignalDir SpanRow
  pub wal : Option Bytes

pub record Partition : Type 0 where
  pub logs : SignalStore LogRow
  pub metrics : SignalStore MetricRow
  pub spans : SignalStore SpanRow

unfoldable pub open_store : {R : Type 0} → SignalDir R → SignalStore R
open_store d = record { index = open_partition d.zone_files; files = d.files }

-- `Partition::open`
unfoldable pub open_dir : PartitionDir → Partition
open_dir d = record {
  logs = open_store d.logs;
  metrics = open_store d.metrics;
  spans = open_store d.spans;
}

unfoldable pub signal_partition : SignalType → Partition → SignalPartition
signal_partition SignalType.log p = p.logs.index
signal_partition SignalType.metric p = p.metrics.index
signal_partition SignalType.span p = p.spans.index

-- The rows that bincode reads back; the others are skipped.
abbrev pub add_decoded : {A : Type 0} → Option A → List A → List A
add_decoded none rest = rest
add_decoded (some r) rest = r ∷ rest

unfoldable pub decode_rows : {A : Type 0} → Codec A → List (RowKey × Bytes) → List A
decode_rows codec [] = []
decode_rows codec (e ∷ rows) = add_decoded (codec.deserialize e.1) (decode_rows codec rows)

-- The next number, the files under it, and the new entry of the index.
unfoldable pub store_table : {R : Type 0} → SsTable R → SignalStore R → SignalStore R
store_table t sp =
    let (seq, index) = next_seq sp.index in
    record {
      index = add_sstable (record { seq = seq; zone_map = t.zone_map }) index;
      files = SortedMap.insert seq t sp.files;
    }

-- `none` is a panic of the writer.
unfoldable pub flush_rows :
    {A R : Type 0}
    → Codec A
    → (List A → Option (SsTable R))
    → List (RowKey × Bytes)
    → SignalStore R
    → Option (SignalStore R)
flush_rows codec write [] sp = some sp
flush_rows codec write (e ∷ rows) sp = do
  t ← write (decode_rows codec (e ∷ rows))
  some (store_table t sp)

-- What `flush_signal_logs`, `flush_signal_metrics` and `flush_signal_spans` share.
unfoldable pub flush_signal :
    {A R : Type 0}
    → SignalType
    → Codec A
    → (List A → Option (SsTable R))
    → MemTable
    → SignalStore R
    → Option (SignalStore R)
flush_signal signal codec write mem sp = flush_rows codec write (drain_signal (as_u8 signal) mem) sp
