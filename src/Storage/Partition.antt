-- ===== src/Storage/Partition.antt =====
-- crates/infralens-storage/src/partition.rs: time buckets, and the SSTables of one signal in a bucket. A
-- directory is its zone map files, in the order it lists them; directory names are texts only and are
-- not modelled. Sequence numbers do not reach 2^64. `none` is a remainder by zero.
pub mod Tables
pub mod Stores
pub mod Flushed
use infralens.Prelude.{
  ℕ, suc, ◌+◌, ◌-◌, ◌*◌, ◌/◌, ◌%◌, ◌≤◌, ◌<◌, ◌≡◌, refl, Bool, true, false, Option, none, some, List,
  [], ◌∷◌, ◌++◌, keep, any, All, All-append, get_or_else, ltb, leb, ◌==◌, if◌then◌else◌, max, arith,
  Bool-cases, inl, inr,
}
use infralens.Storage.ZoneMap
use infralens.Storage.ZoneMap.{ZoneMap, overlaps_time_range, observe_all, within, overlaps-within}

unfoldable pub for_timestamp : ℕ → ℕ → Option ℕ
for_timestamp timestamp_ns bucket_ns =
    if bucket_ns == 0 then none else some (timestamp_ns - timestamp_ns % bucket_ns)

pub record SsTableMeta : Type 0 where
  pub seq : ℕ
  pub zone_map : ZoneMap

pub record SignalPartition : Type 0 where
  pub sstables : List SsTableMeta
  pub next_seq : ℕ

-- A zone map file: the number that its name reads as, and its contents if they can be read.
pub record ZoneFile : Type 0 where
  pub stem : Option ℕ
  pub zone_map : Option ZoneMap

abbrev pub seq_of : ZoneFile → ℕ
seq_of f = get_or_else f.stem 0

unfoldable pub max_seq : ℕ → List ZoneFile → ℕ
max_seq m [] = m
max_seq m (f ∷ fs) = max_seq (max m (seq_of f)) fs

abbrev pub add_readable : ℕ → Option ZoneMap → List SsTableMeta → List SsTableMeta
add_readable seq none rest = rest
add_readable seq (some zm) rest = record { seq = seq; zone_map = zm } ∷ rest

unfoldable pub readable : List ZoneFile → List SsTableMeta
readable [] = []
readable (f ∷ fs) = add_readable (seq_of f) f.zone_map (readable fs)

unfoldable pub insert_by_seq : SsTableMeta → List SsTableMeta → List SsTableMeta
insert_by_seq x [] = x ∷ []
insert_by_seq x (y ∷ ys) =
    let rest = insert_by_seq x ys in if leb x.seq y.seq then x ∷ y ∷ ys else y ∷ rest

-- `sort_by_key`, a stable sort.
unfoldable pub sort_by_seq : List SsTableMeta → List SsTableMeta
sort_by_seq [] = []
sort_by_seq (x ∷ xs) = insert_by_seq x (sort_by_seq xs)

unfoldable pub open_partition : List ZoneFile → SignalPartition
open_partition fs = record { sstables = sort_by_seq (readable fs); next_seq = max_seq 0 fs + 1 }

unfoldable pub next_seq : SignalPartition → ℕ × SignalPartition
next_seq p = (p.next_seq, record p { next_seq = p.next_seq + 1 })

unfoldable pub add_sstable : SsTableMeta → SignalPartition → SignalPartition
add_sstable meta p = record p { sstables = p.sstables ++ meta ∷ [] }

unfoldable pub candidates : ℕ → ℕ → SignalPartition → List SsTableMeta
candidates start_ns end_ns p = keep (λ m. overlaps_time_range m.zone_map start_ns end_ns) p.sstables
