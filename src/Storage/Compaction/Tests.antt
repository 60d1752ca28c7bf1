-- ===== src/Storage/Compaction/Tests.antt =====
-- Compaction at concrete inputs: two log tables of one row, read as one batch each.
use infralens.Prelude.{◌≡◌, refl, none, some, [], ◌∷◌, codes, arith, pos}
use infralens.Storage.Bloom
use infralens.Storage.Bloom.{contains}
use infralens.Storage.Compaction.{Reader, compact_partition}
use infralens.Storage.Compaction.Merged.{IsReader, compact_partition_lem}
use infralens.Storage.Engine.Tests.{params, table_params, one_each}
use infralens.Storage.Engine.Weight.{IsPartition, partition_weight}
use infralens.Storage.Partition.Stores.{SignalStore, Partition}
use infralens.Storage.SsTable.{SsTable}
use infralens.Storage.SsTable.Rows.{LogRow}
use infralens.Storage.ZoneMap

abbrev one_batch : {R : Type 0} → Reader R
one_batch t = some (some t.rows ∷ [])

one_batch-IsReader : {R : Type 0} (t : SsTable R) → IsReader one_batch t
one_batch-IsReader t = record { batches = t.rows ∷ []; reads = refl; whole = λ w. omega arith }

abbrev info_row : LogRow
info_row = record {
  timestamp_ns = 7;
  observed_timestamp_ns = 7;
  trace_id = none;
  span_id = none;
  severity_number = pos 9;
  severity_text = some (codes "INFO");
  body = none;
  attributes = none;
  resource_attributes = none;
  scope_name = none;
  scope_version = none;
  schema_url = none;
}

abbrev one_row : SsTable LogRow
one_row = record { rows = info_row ∷ []; filter = Bloom.new 64 1; zone_map = ZoneMap.new }

abbrev no_store : {R : Type 0} → SignalStore R
no_store = record { index = record { sstables = []; next_seq = 1 }; files = [] }

abbrev two_tables : Partition
two_tables = record {
  logs = record {
    index = record {
      sstables =
          record { seq = 1; zone_map = ZoneMap.new }
          ∷ record { seq = 2; zone_map = ZoneMap.new }
          ∷ [];
      next_seq = 3;
    };
    files = (1, one_row) ∷ (2, one_row) ∷ [];
  };
  metrics = no_store;
  spans = no_store;
}

two_tables-IsPartition : IsPartition two_tables
two_tables-IsPartition = record {
  logs = record { fresh = (omega arith, (omega arith, tt)); ascending = ((refl, tt), (tt, tt)) };
  metrics = record { fresh = tt; ascending = tt };
  spans = record { fresh = tt; ascending = tt };
}

compact_partition_lem_example :
    let p' = (compact_partition table_params one_batch one_batch one_batch 2 two_tables).1 in
    IsPartition p'
    × (partition_weight params one_each p' ≡ partition_weight params one_each two_tables)
compact_partition_lem_example =
    compact_partition_lem params one_each table_params one_batch one_batch one_batch 2 two_tables
      one_batch-IsReader one_batch-IsReader one_batch-IsReader two_tables-IsPartition
