-- ===== src/Storage/Tests.antt =====
-- The zone map, the Bloom filter and the memtable at concrete inputs.
use infralens.Prelude.{
  arith, ℕ, ◌+◌, ◌*◌, ◌%◌, ◌^◌, ◌≡◌, refl, true, false, none, some, List, [], ◌∷◌, Bytes, All, keep,
  ◌==◌, sum,
}
use mathlib.Core.List.{Perm}
use infralens.Prelude.SortedMap.{IsAscending}
use infralens.Storage.ZoneMap
use infralens.Storage.ZoneMap.{overlaps_time_range, observe_all, u64_max, within}
use infralens.Storage.Bloom
use infralens.Storage.Bloom.{BloomFilter, to_bytes, from_bytes, contains}
use infralens.Storage.Bloom.Serialised.{from_bytes-to_bytes}
use infralens.Storage.Bloom.Membership.{new-IsValid, contains-insert_all, insert_all}
use infralens.Storage.Partition.{ZoneFile}
use infralens.Storage.MemTable
use infralens.Storage.MemTable.{drain_signal, is_full, iter_all}
use infralens.Storage.MemTable.Order.{row_key_order}
use infralens.Storage.MemTable.Rows
use infralens.Storage.MemTable.Rows.{Row, write_rows, numbered, total_size}

-- The source's test of the range.
time_range_overlap :
    (overlaps_time_range (observe_all (1000000 ∷ 5000000 ∷ []) ZoneMap.new) 0 2000000 ≡ true)
    × (overlaps_time_range (observe_all (1000000 ∷ 5000000 ∷ []) ZoneMap.new) 6000000 9000000
        ≡ false)
unfolding overlaps_time_range observe_all ZoneMap.observe_timestamp ZoneMap.new
time_range_overlap = (refl, refl)

overlaps-within_example :
    overlaps_time_range (observe_all (10 ∷ 90 ∷ 50 ∷ []) ZoneMap.new) 40 60 ≡ true
overlaps-within_example = ZoneMap.overlaps-within (10 ∷ 90 ∷ 50 ∷ []) 40 60 refl

abbrev toy_hash : Bytes → ℕ → ℕ
toy_hash key seed = (sum key * 31 + seed) % 2 ^ 64

abbrev two_keys : List Bytes
two_keys = (1 ∷ 2 ∷ []) ∷ (9 ∷ []) ∷ []

contains-insert_all_example :
    (bf' : BloomFilter) × (insert_all toy_hash two_keys (Bloom.new 100 3) ≡ some bf')
    × All (λ key. contains toy_hash key bf' ≡ some true) two_keys
contains-insert_all_example =
    contains-insert_all toy_hash two_keys (Bloom.new 100 3) (new-IsValid 100 3)

abbrev small_filter : BloomFilter
small_filter = record { bits = 1 ∷ 128 ∷ []; num_bits = 16; num_hashes = 2 }

from_bytes-to_bytes_example : from_bytes (to_bytes small_filter) ≡ some small_filter
from_bytes-to_bytes_example =
    from_bytes-to_bytes small_filter (omega arith) (omega arith) (omega arith)

abbrev row : ℕ → ℕ → Row
row ts signal = record { timestamp_ns = ts; signal_type = signal; bytes = 1 ∷ 2 ∷ [] }

abbrev three_rows : List Row
three_rows = row 3000 0 ∷ row 1000 1 ∷ row 2000 0 ∷ []

drain_signal-write_rows_example :
    let rows = drain_signal 0 (write_rows three_rows (MemTable.new 64)) in
    IsAscending rows × Perm rows (keep (λ e. e.0.signal_type == 0) (numbered 0 three_rows))
drain_signal-write_rows_example = Rows.drain_signal-write_rows 0 64 three_rows

abbrev zone_files : List ZoneFile
zone_files =
    record { stem = some 4; zone_map = some ZoneMap.new }
    ∷ record { stem = none; zone_map = some ZoneMap.new }
    ∷ record { stem = some 9; zone_map = none }
    ∷ []
