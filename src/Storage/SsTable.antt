-- ===== src/Storage/SsTable.antt =====
-- crates/infralens-storage/src/sstable.rs: what a flush writes. The Parquet file is its rows; the disk,
-- Arrow and Parquet do not fail here. `none` is a panic of the Bloom filter.
pub mod Rows
pub mod Columns
pub mod Written
use infralens.Prelude.{ℕ, Option, none, some, List, [], ◌∷◌, Bytes, length, map, max, ◌>>=◌}
use infralens.Common.Model.{LogRecord, MetricPoint, SpanRecord}
use infralens.Storage.Bloom
use infralens.Storage.Bloom.{BloomFilter}
use infralens.Storage.ZoneMap
use infralens.Storage.ZoneMap.{ZoneMap, observe_timestamp}
use Rows.{RowCodec, LogRow, MetricRow, SpanRow, log_row, metric_row, span_row}

-- The three files of one SSTable: columnar data, Bloom filter and zone map.
pub record SsTable (R : Type 0) : Type 0 where
  pub rows : List R
  pub filter : BloomFilter
  pub zone_map : ZoneMap

-- What the writers take from elsewhere: the keyed hash of the Bloom filter, and the two
-- floating-point formulas for a number of keys at a rate of 0.02.
pub record TableParams : Type 0 where
  pub sip_hash : Bytes → ℕ → ℕ
  pub optimal_bits : ℕ → ℕ
  pub optimal_hashes : ℕ → ℕ
  pub codec : RowCodec

module _ (params : TableParams) where
  -- The loop over the records, which fills the zone map and the filter.
  unfoldable pub index_records :
      {A : Type 0}
      → (A → ℕ)
      → (A → Bytes)
      → List A
      → ZoneMap
      → BloomFilter
      → Option (ZoneMap × BloomFilter)
  index_records timestamp key [] zm bf = some (zm, bf)
  index_records timestamp key (r ∷ rs) zm bf = do
    bf' ← Bloom.insert params.sip_hash (key r) bf
    index_records timestamp key rs (observe_timestamp (timestamp r) zm) bf'

  -- What the three writers share.
  unfoldable pub write_table :
      {A R : Type 0} → (A → ℕ) → (A → Bytes) → (A → R) → List A → Option (SsTable R)
  write_table timestamp key row records = do
    let n = max (length records) 1
    (zm, bf) ←
        index_records timestamp key records ZoneMap.new
          (Bloom.new (params.optimal_bits n) (params.optimal_hashes n))
    some (record { rows = map row records; filter = bf; zone_map = zm })

  unfoldable pub write_logs : List LogRecord → Option (SsTable LogRow)
  write_logs records =
      write_table LogRecord.timestamp_ns LogRecord.severity_text (log_row params.codec) records

  unfoldable pub write_metrics : List MetricPoint → Option (SsTable MetricRow)
  write_metrics records =
      write_table MetricPoint.timestamp_ns MetricPoint.name (metric_row params.codec) records

  unfoldable pub write_spans : List SpanRecord → Option (SsTable SpanRow)
  write_spans records =
      write_table SpanRecord.start_time_ns SpanRecord.trace_id (span_row params.codec) records
