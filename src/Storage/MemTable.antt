-- ===== src/Storage/MemTable.antt =====
-- crates/infralens-storage/src/memtable.rs: the sorted in-memory table. The lock and the atomics make
-- each write one step; counters do not reach 2^64.
pub mod Order
pub mod Rows
pub mod Write
use infralens.Prelude.{
  ℕ, ◌+◌, Bool, true, false, List, [], ◌∷◌, Bytes, length, keep, ltb, leb, ◌==◌, if◌then◌else◌,
}
use infralens.Prelude.SortedMap
use infralens.Prelude.SortedMap.{KeyOrder}
use Order.{RowKey, row_key_order}

-- `size_of::<RowKey>()`: two words and a byte, padded to the alignment of a word.
abbrev pub row_key_size : ℕ
row_key_size = 24

pub record MemTable : Type 0 where
  pub inner : List (RowKey × Bytes)
  pub size_bytes : ℕ
  pub max_size : ℕ
  pub sequence : ℕ

unfoldable pub new : ℕ → MemTable
new max_size_bytes = record { inner = []; size_bytes = 0; max_size = max_size_bytes; sequence = 0 }

unfoldable pub insert : ℕ → ℕ → Bytes → MemTable → MemTable
insert timestamp_ns signal_type row mem =
    let key : RowKey = record {
      timestamp_ns = timestamp_ns;
      signal_type = signal_type;
      sequence = mem.sequence;
    } in
    record mem {
      inner = SortedMap.insert key row mem.inner;
      size_bytes = mem.size_bytes + (row_key_size + length row);
      sequence = mem.sequence + 1;
    }

unfoldable pub is_full : MemTable → Bool
is_full mem = leb mem.max_size mem.size_bytes

unfoldable pub len : MemTable → ℕ
len mem = length mem.inner

unfoldable pub is_empty : MemTable → Bool
is_empty mem = length mem.inner == 0

unfoldable pub drain_signal : ℕ → MemTable → List (RowKey × Bytes)
drain_signal signal_type mem = keep (λ e. e.0.signal_type == signal_type) mem.inner

unfoldable pub iter_all : MemTable → List (RowKey × Bytes)
iter_all mem = mem.inner
