-- ===== src/Query/Catalog.antt =====
-- crates/infralens-query/src/catalog.rs: the tables, their columns and their partition statistics. The
-- lock around them is not modelled.
use infralens.Prelude.{
  ℕ, Bool, ◌&&◌, Option, none, some, List, [], ◌∷◌, ◌++◌, map, Bytes, Result, ok, err, codes, keep,
  list_eq, leb, if◌then◌else◌,
}
use infralens.Common.Schema.{DataType, Field, log_schema, metric_schema, span_schema}
use infralens.Query.Errors.{QueryError, bind}
use infralens.Storage.ZoneMap.{ZoneMap}

pub record TableStats : Type 0 where
  pub partition_key : ℕ
  pub min_timestamp_ns : ℕ
  pub max_timestamp_ns : ℕ
  pub row_count : ℕ

pub record ColumnDesc : Type 0 where
  pub name : Bytes
  pub data_type : DataType
  pub nullable : Bool

pub record TableDesc : Type 0 where
  pub name : Bytes
  pub schema : List Field
  pub columns : List ColumnDesc
  pub stats : List TableStats

abbrev pub column_desc : Field → ColumnDesc
column_desc f = record { name = f.name; data_type = f.data_type; nullable = f.nullable }

abbrev pub from_schema : Bytes → List Field → TableDesc
from_schema name schema = record {
  name = name;
  schema = schema;
  columns = map column_desc schema;
  stats = [];
}

-- `find`
abbrev pub find_desc : Bytes → List ColumnDesc → Option ColumnDesc
find_desc name [] = none
find_desc name (c ∷ cs) = if list_eq c.name name then some c else find_desc name cs

abbrev pub column : Bytes → TableDesc → Option ColumnDesc
column name desc = find_desc name desc.columns

-- The tables, by name.
pub record Catalog : Type 0 where
  pub tables : List (Bytes × TableDesc)

abbrev pub lookup : Bytes → List (Bytes × TableDesc) → Option TableDesc
lookup name [] = none
lookup name ((key, desc) ∷ rest) = if list_eq key name then some desc else lookup name rest

-- `get_mut` and an assignment through it.
abbrev pub modify :
    Bytes → (TableDesc → TableDesc) → List (Bytes × TableDesc) → List (Bytes × TableDesc)
modify name f [] = []
modify name f ((key, desc) ∷ rest) =
    if list_eq key name then (key, f desc) ∷ rest else (key, desc) ∷ modify name f rest

unfoldable pub new : Catalog
new = record {
  tables =
      (codes "logs", from_schema (codes "logs") log_schema)
      ∷ (codes "metrics", from_schema (codes "metrics") metric_schema)
      ∷ (codes "traces", from_schema (codes "traces") span_schema)
      ∷ [];
}

unfoldable pub get_table : Bytes → Catalog → Result TableDesc QueryError
get_table name catalog = elim (lookup name catalog.tables) [
  | none ↦ err (bind (codes "unknown table '" ++ (name ++ codes "'")))
  | some desc ↦ ok desc
]

abbrev pub table_stats : ℕ × ZoneMap → TableStats
table_stats e = record {
  partition_key = e.0;
  min_timestamp_ns = e.1.min_timestamp_ns;
  max_timestamp_ns = e.1.max_timestamp_ns;
  row_count = e.1.row_count;
}

unfoldable pub update_stats : Bytes → List (ℕ × ZoneMap) → Catalog → Catalog
update_stats table zone_maps catalog = record {
  tables = modify table (λ desc. record desc { stats = map table_stats zone_maps }) catalog.tables;
}

abbrev pub overlaps : ℕ → ℕ → TableStats → Bool
overlaps start_ns end_ns s = leb s.min_timestamp_ns end_ns && leb start_ns s.max_timestamp_ns

unfoldable pub overlapping_partitions : Bytes → ℕ → ℕ → Catalog → List ℕ
overlapping_partitions table start_ns end_ns catalog = elim (lookup table catalog.tables) [
  | none ↦ []
  | some desc ↦ map (λ s. s.partition_key) (keep (overlaps start_ns end_ns) desc.stats)
]
