-- ===== src/Storage/Compaction/Merged.antt =====
-- Compaction loses no row that the reader reads, and the merged table spans its rows.
use infralens.Prelude.{
  ℕ, ◌<◌, ◌≡◌, refl, ap, ◌∙◌, false, Option, none, some, List, [], ◌∷◌, Bytes, length, map, All,
  arith, ltb, leb, Bool-cases, inl, inr,
}
use infralens.Prelude.SortedMap
use infralens.Prelude.SortedMap.{
  ℕ_order, IsAscending, get, insert-IsAscending, remove-IsAscending, get-insert_self, get-remove_ne,
}
use infralens.Prelude.Totals.{total, total-append}
use infralens.Storage.Bloom.{contains}
use infralens.Storage.Bloom.Membership.{contains-new}
use infralens.Storage.Compaction.{
  Reader, good_batches, file_batches, all_batches, concat, delete_sstable_files, merged_table,
  merge, compact_signal, compact_if, compact_partition,
}
use infralens.Storage.Engine.Weight.{RowWeights, IsPartition, partition_weight}
use infralens.Storage.Partition.{SsTableMeta, next_seq, add_sstable}
use infralens.Storage.Partition.Flushed.{IsStore, rows_weight, table_weight, store_weight}
use infralens.Storage.Partition.Stores.{SignalStore, Partition}
use infralens.Storage.Engine.{EngineParams}
use infralens.Storage.SsTable.{SsTable, TableParams}
use infralens.Storage.SsTable.Rows.{LogRow, MetricRow, SpanRow}

-- The reader gives the rows of a file back, in batches, none of them bad.
pub record IsReader {R : Type 0} (read_parquet : Reader R) (t : SsTable R) : Type 0 where
  pub batches : List (List R)
  pub reads : read_parquet t ≡ some (map some batches)
  pub whole : (w : R → ℕ) → total (total w) batches ≡ total w t.rows

module _ {R : Type 0} (params : TableParams) (read_parquet : Reader R) (timestamp : R → ℕ)
    (w : R → ℕ) (law : (t : SsTable R) → IsReader read_parquet t) where
  total-concat :
      (bs : List (List R)) → total w (concat params read_parquet timestamp bs) ≡ total (total w) bs
  total-concat [] = refl
  total-concat (b ∷ bs) =
      omega (arith, total-append w b (concat params read_parquet timestamp bs), total-concat bs)

  good_batches-map :
      (bs : List (List R)) → good_batches params read_parquet timestamp (map some bs) ≡ bs
  good_batches-map [] = refl
  good_batches-map (b ∷ bs) = ap (λ l. b ∷ l) (good_batches-map bs)

  file_lem :
      (file : Option (SsTable R))
      → total (total w) (file_batches params read_parquet timestamp file) ≡ rows_weight w file
  file_lem none = refl
  file_lem (some t) = let is = law t in rw (is.reads, good_batches-map is.batches) (is.whole w)

  all_batches_lem :
      (ms : List SsTableMeta) (files : List (ℕ × SsTable R))
      → total (total w) (all_batches params read_parquet timestamp ms files)
        ≡ total (table_weight w files) ms
  unfolding all_batches
  all_batches_lem [] files = refl
  all_batches_lem (m ∷ ms) files = omega (
    arith,
    total-append (total w) (file_batches params read_parquet timestamp (get m.seq files))
        (all_batches params read_parquet timestamp ms files),
    file_lem (get m.seq files),
    all_batches_lem ms files,
  )

  delete_lem :
      (seq : ℕ) (ms : List SsTableMeta) (files : List (ℕ × SsTable R))
      → IsAscending files
      → All (λ m. m.seq < seq) ms
      → IsAscending (delete_sstable_files params read_parquet timestamp ms files)
        × (get seq (delete_sstable_files params read_parquet timestamp ms files) ≡ get seq files)
  unfolding delete_sstable_files
  delete_lem seq [] files v h = (v, refl)
  delete_lem seq (m ∷ ms) files v h =
      let (is, same) =
        delete_lem seq ms (SortedMap.remove m.seq files) (remove-IsAscending m.seq files v) h.1 in
      (is, same ∙ get-remove_ne m.seq seq files (λ e. omega (arith, e, h.0)) v)

  merge_lem :
      (bs : List (List R)) (sp : SignalStore R)
      → IsStore sp
      → total (total w) bs ≡ store_weight w sp
      → let index = (next_seq (record sp.index { sstables = [] })).1 in
        let out =
          merge params read_parquet timestamp sp.index.sstables sp.index.next_seq index bs sp in
        IsStore out.1 × (store_weight w out.1 ≡ store_weight w sp)
  unfolding merge next_seq add_sstable
  merge_lem [] sp v same =
      let (is, _) = delete_lem sp.index.next_seq sp.index.sstables sp.files v.ascending v.fresh in
      (record { fresh = tt; ascending = is }, same)
  merge_lem (b ∷ bs) sp v same =
      let seq = sp.index.next_seq in
      let rows = concat params read_parquet timestamp (b ∷ bs) in
      let t = merged_table params read_parquet timestamp rows in
      let (is, found) =
        delete_lem seq sp.index.sstables (SortedMap.insert seq t sp.files)
          (insert-IsAscending seq t sp.files v.ascending) v.fresh in
      let holds : rows_weight w (some t) ≡ total w rows = (unfold merged_table in refl) in
      (
        record { fresh = (omega arith, tt); ascending = is },
        omega (
          arith,
          ap (rows_weight w) (found ∙ get-insert_self seq t sp.files),
          holds,
          total-concat (b ∷ bs),
          same,
        ),
      )

  pub compact_if_lem :
      (l0_trigger : ℕ) (sp : SignalStore R)
      → IsStore sp
      → let sp' = (compact_if params read_parquet timestamp l0_trigger sp).1 in
        IsStore sp' × (store_weight w sp' ≡ store_weight w sp)
  unfolding compact_if compact_signal next_seq
  compact_if_lem l0_trigger sp v =
      let merged =
        merge_lem (all_batches params read_parquet timestamp sp.index.sstables sp.files) sp v
          (all_batches_lem sp.index.sstables sp.files) in
      elim (Bool-cases (leb l0_trigger (length sp.index.sstables))) [
        | inl reached ↦ elim (Bool-cases (ltb (length sp.index.sstables) 2)) [
          | inl few ↦ rw (reached, few) (v, refl)
          | inr many ↦ rw (reached, many) merged
        ]
        | inr below ↦ rw below (v, refl)
      ]

-- Where the Parquet reader gives the rows of every file back, one compaction pass over a
-- well-formed partition, whatever the trigger, leaves the partition well formed and for any weight
-- on rows the SSTables that it lists hold as much as before.
pub compact_partition_lem :
    (engine_params : EngineParams) (w : RowWeights) (params : TableParams)
    (read_logs : Reader LogRow) (read_metrics : Reader MetricRow) (read_spans : Reader SpanRow)
    (l0_trigger : ℕ) (p : Partition)
    → ((t : SsTable LogRow) → IsReader read_logs t)
    → ((t : SsTable MetricRow) → IsReader read_metrics t)
    → ((t : SsTable SpanRow) → IsReader read_spans t)
    → IsPartition p
    → let p' = (compact_partition params read_logs read_metrics read_spans l0_trigger p).1 in
      IsPartition p' × (partition_weight engine_params w p' ≡ partition_weight engine_params w p)
unfolding compact_partition
compact_partition_lem engine_params w params read_logs read_metrics read_spans l0_trigger p law_l
      law_m law_s v =
    let logs =
      compact_if_lem params read_logs LogRow.timestamp_ns w.log law_l l0_trigger p.logs v.logs in
    let metrics =
      compact_if_lem params read_metrics MetricRow.timestamp_ns w.metric law_m l0_trigger p.metrics
        v.metrics in
    let spans =
      compact_if_lem params read_spans SpanRow.start_time_ns w.span law_s l0_trigger p.spans
        v.spans in
    (
      record { logs = logs.0; metrics = metrics.0; spans = spans.0 },
      omega (arith, logs.1, metrics.1, spans.1),
    )

-- The Bloom filter of the table that compaction writes rejects every key, whatever the rows.
pub contains-merged_table :
    {R : Type 0} (params : TableParams) (read_parquet : Reader R) (timestamp : R → ℕ)
    (rows : List R) (key : Bytes)
    → contains params.sip_hash key (merged_table params read_parquet timestamp rows).filter
      ≡ some false
unfolding merged_table
contains-merged_table params read_parquet timestamp rows key = contains-new params.sip_hash key _ _
