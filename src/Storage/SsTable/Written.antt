-- ===== src/Storage/SsTable/Written.antt =====
-- What the writers leave on disk: a row for every record, a zone map that spans the records, and a
-- filter that knows their keys.
use infralens.Prelude.{
  ℕ, ◌≤◌, ◌≡◌, refl, true, some, List, [], ◌∷◌, Bytes, length, map, length-map, All, max, arith,
  Option-cases, inl, inr,
}
use infralens.Common.Model.{LogRecord, MetricPoint, SpanRecord}
use infralens.Storage.Bloom
use infralens.Storage.Bloom.{BloomFilter, contains}
use infralens.Storage.Bloom.Membership.{new-IsValid, insert_all, contains-insert_all}
use infralens.Storage.ZoneMap
use infralens.Storage.ZoneMap.{ZoneMap, observe_timestamp, observe_all, observe_all-bounds}
use infralens.Storage.SsTable.{
  SsTable, TableParams, index_records, write_table, write_logs, write_metrics, write_spans,
}
use infralens.Storage.SsTable.Rows.{log_row, metric_row, span_row}

-- The files of a table written for `records`.
pub record IsWritten (params : TableParams) {A R : Type 0} (timestamp : A → ℕ) (key : A → Bytes)
    (row : A → R) (records : List A) (t : SsTable R) : Type 0 where
  pub rows : t.rows ≡ map row records
  pub observed : t.zone_map ≡ observe_all (map timestamp records) ZoneMap.new
  pub count : t.zone_map.row_count ≡ length records
  pub spanned :
      All
        (λ ts. (t.zone_map.min_timestamp_ns ≤ ts) × (ts ≤ t.zone_map.max_timestamp_ns))
        (map timestamp records)
  pub known : All (λ k. contains params.sip_hash k t.filter ≡ some true) (map key records)

module _ (params : TableParams) where
  index_records-insert_all :
      {A : Type 0} (timestamp : A → ℕ) (key : A → Bytes) (rs : List A) (zm : ZoneMap)
      (bf bf' : BloomFilter)
      → insert_all params.sip_hash (map key rs) bf ≡ some bf'
      → index_records params timestamp key rs zm bf ≡ some (observe_all (map timestamp rs) zm, bf')
  unfolding index_records insert_all observe_all
  index_records-insert_all timestamp key [] zm bf bf' h = cc
  index_records-insert_all timestamp key (r ∷ rs) zm bf bf' h =
      elim (Option-cases (Bloom.insert params.sip_hash (key r) bf)) [
        | inl panic ↦ ground (arith, panic, h)
        | inr (mid, run) ↦ rw run (
            index_records-insert_all timestamp key rs (observe_timestamp (timestamp r) zm) mid bf'
              (rw run at h))
      ]

  pub write_table-IsWritten :
      {A R : Type 0} (timestamp : A → ℕ) (key : A → Bytes) (row : A → R) (records : List A)
      → (t : SsTable R) × (write_table params timestamp key row records ≡ some t)
        × IsWritten params timestamp key row records t
  unfolding write_table
  write_table-IsWritten timestamp key row records =
      let n = max (length records) 1 in
      let bf = Bloom.new (params.optimal_bits n) (params.optimal_hashes n) in
      let (bf', run, known) =
        contains-insert_all params.sip_hash (map key records) bf (new-IsValid _ _) in
      let (count, _, _, spanned) = observe_all-bounds (map timestamp records) ZoneMap.new in
      (
        record {
          rows = map row records;
          filter = bf';
          zone_map = observe_all (map timestamp records) ZoneMap.new;
        },
        rw (index_records-insert_all timestamp key records ZoneMap.new bf bf' run) refl,
        record {
          rows = refl;
          observed = refl;
          count = (unfold ZoneMap.new in omega (arith, count, length-map timestamp records));
          spanned = spanned;
          known = known;
        },
      )

  -- Writing logs, metrics or spans to an SSTable never panics; the file has the row of every
  -- record in order, its zone map counts the records and spans their timestamps, and its Bloom
  -- filter contains the key of every record.
  pub written_lem :
      (logs : List LogRecord) (metrics : List MetricPoint) (spans : List SpanRecord)
      → ((t : SsTable _) × (write_logs params logs ≡ some t)
          × IsWritten params LogRecord.timestamp_ns LogRecord.severity_text
              (log_row params.codec)
              logs
              t)
        × ((t : SsTable _) × (write_metrics params metrics ≡ some t)
            × IsWritten params MetricPoint.timestamp_ns MetricPoint.name
                (metric_row params.codec)
                metrics
                t)
        × ((t : SsTable _) × (write_spans params spans ≡ some t)
            × IsWritten params SpanRecord.start_time_ns SpanRecord.trace_id
                (span_row params.codec)
                spans
                t)
  unfolding write_logs write_metrics write_spans
  written_lem logs metrics spans = (
    write_table-IsWritten LogRecord.timestamp_ns LogRecord.severity_text (log_row params.codec)
        logs,
    write_table-IsWritten MetricPoint.timestamp_ns MetricPoint.name (metric_row params.codec)
        metrics,
    write_table-IsWritten SpanRecord.start_time_ns SpanRecord.trace_id (span_row params.codec)
        spans,
  )
