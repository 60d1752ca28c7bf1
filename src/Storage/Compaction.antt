-- ===== src/Storage/Compaction.antt =====
-- crates/infralens-storage/src/compaction.rs: all SSTables of a signal become one. Writes to the disk do
-- not fail here; the Parquet reader is a parameter.
pub mod Merged
pub mod Tests
use infralens.Prelude.{
  ℕ, ◌+◌, Bool, true, false, Option, none, some, List, [], ◌∷◌, ◌++◌, Bytes, length, map, max, ltb,
  leb, if◌then◌else◌,
}
use infralens.Prelude.SortedMap
use infralens.Prelude.SortedMap.{ℕ_order}
use infralens.Storage.Bloom
use infralens.Storage.Partition.{SignalPartition, SsTableMeta, next_seq, add_sstable}
use infralens.Storage.Partition.Stores.{SignalStore, Partition}
use infralens.Storage.SsTable.{SsTable, TableParams}
use infralens.Storage.SsTable.Rows.{LogRow, MetricRow, SpanRow}
use infralens.Storage.ZoneMap
use infralens.Storage.ZoneMap.{observe_all}

-- What the Parquet reader gives for a file: `none` if it cannot be opened, and else its batches, where
-- `none` is a bad one.
abbrev pub Reader : Type 0 → Type 0
Reader R = SsTable R → Option (List (Option (List R)))

module _ {R : Type 0} (params : TableParams) (read_parquet : Reader R) (timestamp : R → ℕ) where
  -- Bad batches are skipped.
  abbrev pub good_batches : List (Option (List R)) → List (List R)
  good_batches [] = []
  good_batches (none ∷ bs) = good_batches bs
  good_batches (some b ∷ bs) = b ∷ good_batches bs

  abbrev pub opened_batches : Option (List (Option (List R))) → List (List R)
  opened_batches none = []
  opened_batches (some bs) = good_batches bs

  -- A file that is not there is skipped, like one that cannot be opened.
  abbrev pub file_batches : Option (SsTable R) → List (List R)
  file_batches none = []
  file_batches (some t) = opened_batches (read_parquet t)

  unfoldable pub all_batches : List SsTableMeta → List (ℕ × SsTable R) → List (List R)
  all_batches [] files = []
  all_batches (m ∷ ms) files = file_batches (SortedMap.get m.seq files) ++ all_batches ms files

  abbrev pub concat : List (List R) → List R
  concat [] = []
  concat (b ∷ bs) = b ++ concat bs

  unfoldable pub delete_sstable_files :
      List SsTableMeta → List (ℕ × SsTable R) → List (ℕ × SsTable R)
  delete_sstable_files [] files = files
  delete_sstable_files (m ∷ ms) files = delete_sstable_files ms (SortedMap.remove m.seq files)

  -- The merged file: the Bloom filter is sized, and written as it is.
  unfoldable pub merged_table : List R → SsTable R
  merged_table rows =
      let n = max (length rows) 1 in
      record {
        rows = rows;
        filter = Bloom.new (params.optimal_bits n) (params.optimal_hashes n);
        zone_map = observe_all (map timestamp rows) ZoneMap.new;
      }

  -- The second half, for the inputs, the number of the output and the index without the inputs.
  unfoldable pub merge :
      List SsTableMeta → ℕ → SignalPartition → List (List R) → SignalStore R → Bool × SignalStore R
  merge inputs output_seq index [] sp =
      (false, record { index = index; files = delete_sstable_files inputs sp.files })
  merge inputs output_seq index (b ∷ bs) sp =
      let t = merged_table (concat (b ∷ bs)) in
      (
        true,
        record {
          index = add_sstable (record { seq = output_seq; zone_map = t.zone_map }) index;
          files = delete_sstable_files inputs (SortedMap.insert output_seq t sp.files);
        },
      )

  unfoldable pub compact_signal : SignalStore R → Bool × SignalStore R
  compact_signal sp =
      let inputs = sp.index.sstables in
      let (output_seq, index) = next_seq (record sp.index { sstables = [] }) in
      if ltb (length inputs) 2
      then (false, sp)
      else merge inputs output_seq index (all_batches inputs sp.files) sp

  -- The test of the trigger; the number says whether a merge was counted.
  unfoldable pub compact_if : ℕ → SignalStore R → ℕ × SignalStore R
  compact_if l0_trigger sp =
      let (merged, sp') = compact_signal sp in
      if leb l0_trigger (length sp.index.sstables) then (if merged then 1 else 0, sp') else (0, sp)

module _ (params : TableParams) (read_logs : Reader LogRow) (read_metrics : Reader MetricRow)
    (read_spans : Reader SpanRow) where
  unfoldable pub compact_partition : ℕ → Partition → ℕ × Partition
  compact_partition l0_trigger p =
      let (a, logs) = compact_if params read_logs LogRow.timestamp_ns l0_trigger p.logs in
      let (b, metrics) =
        compact_if params read_metrics MetricRow.timestamp_ns l0_trigger p.metrics in
      let (c, spans) = compact_if params read_spans SpanRow.start_time_ns l0_trigger p.spans in
      (a + b + c, record { logs = logs; metrics = metrics; spans = spans })
