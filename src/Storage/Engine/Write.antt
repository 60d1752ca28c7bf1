-- ===== src/Storage/Engine/Write.antt =====
-- The write path: a record that is accepted is in a memtable, in the queue, or dropped with a memtable
-- that the full queue did not take.
use infralens.Prelude.{
  ℕ, ◌+◌, ◌≤◌, ◌≡◌, refl, some, List, [], ◌∷◌, Bytes, length, length-append, All, arith, ltb,
  Bool-cases, Option-cases, inl, inr,
}
use infralens.Prelude.SortedMap
use infralens.Prelude.SortedMap.{ℕ_order, get, All-insert, get-insert_self}
use infralens.Prelude.Totals.{total-append, values, values-insert-none, All-get}
use infralens.Storage.Engine.{
  EngineParams, FlushRequest, StorageEngine, flush_queue_capacity, get_or_create_memtable,
  get_or_create_wal, append_wal, try_send,
}
use infralens.Storage.Engine.Flush.{NoFiles, get_or_create_partition_lem}
use infralens.Storage.Engine.Weight.{
  RowWeights, IsPartition, IsValid, mem_weight, partition_weight, engine_weight,
}
use infralens.Storage.MemTable
use infralens.Storage.MemTable.{MemTable, insert, is_full}
use infralens.Storage.MemTable.Rows
use infralens.Storage.Partition.Stores.{Partition}
use infralens.Storage.Wal.{Wal, append, open_wal}

-- A step from `e` to `e'` that adds rows of a weight.
pub record Kept (params : EngineParams) (w : RowWeights) (e e' : StorageEngine) (added : ℕ)
    : Type 0 where
  pub valid : IsValid e'
  pub weight : engine_weight params w e' ≡ engine_weight params w e + added
  pub closed : e'.closed ≡ e.closed
  pub bounded : length e.queue ≤ flush_queue_capacity → length e'.queue ≤ flush_queue_capacity

pub new_weight :
    (params : EngineParams) (w : RowWeights) (size : ℕ)
    → mem_weight params w (MemTable.new size) ≡ 0
unfolding MemTable.new
new_weight params w size = refl

pub insert-IsValid :
    (timestamp_ns signal : ℕ) (bytes : Bytes) (mem : MemTable)
    → MemTable.Rows.IsValid mem
    → MemTable.Rows.IsValid (insert timestamp_ns signal bytes mem)
insert-IsValid timestamp_ns signal bytes mem v =
    MemTable.Rows.insert-IsValid
      (record { timestamp_ns = timestamp_ns; signal_type = signal; bytes = bytes }) mem v

module _ (params : EngineParams) (w : RowWeights)
    (fresh : (key : ℕ) → NoFiles (params.dirs key)) where
  pub get_or_create_memtable_lem :
      (key : ℕ) (e : StorageEngine)
      → IsValid e
      → (mem : MemTable) × (ms : List (ℕ × MemTable)) × (get_or_create_memtable key e
          ≡ (mem, record e { memtables = ms }))
        × (get key ms ≡ some mem)
        × MemTable.Rows.IsValid mem
        × Kept params w e (record e { memtables = ms }) 0
  unfolding get_or_create_memtable
  get_or_create_memtable_lem key e v = elim (Option-cases (get key e.memtables)) [
    | inl missing ↦
        let mem = MemTable.new e.memtable_size in
        let is = MemTable.Rows.new-IsValid e.memtable_size in
        (
          mem,
          SortedMap.insert key mem e.memtables,
          rw (get_or_create_memtable, missing) refl,
          get-insert_self key mem e.memtables,
          is,
          record {
            valid = record {
              positive = v.positive;
              memtables =
                  All-insert (λ x. MemTable.Rows.IsValid x.1) key mem e.memtables is v.memtables;
              partitions = v.partitions;
            };
            weight = omega (
              arith,
              values-insert-none (mem_weight params w) key mem e.memtables missing,
              new_weight params w e.memtable_size,
            );
            closed = refl;
            bounded = λ h. h;
          },
        )
    | inr (mem, found) ↦ (
      mem,
      e.memtables,
      rw (get_or_create_memtable, found) refl,
      found,
      All-get MemTable.Rows.IsValid key mem e.memtables found v.memtables,
      record { valid = v; weight = omega arith; closed = refl; bounded = λ h. h },
    )
  ]

  -- The log's bytes do not matter here.
  get_or_create_wal_lem :
      (key : ℕ) (e : StorageEngine)
      → All (λ x. IsPartition x.1) e.partitions
      → (wal : Wal) × (ps : List (ℕ × Partition)) × (ws : List (ℕ × Wal)) × (get_or_create_wal
            params key e
          ≡ (wal, record e { partitions = ps; wals = ws }))
        × All (λ x. IsPartition x.1) ps
        × (values (partition_weight params w) ps ≡ values (partition_weight params w) e.partitions)
  unfolding get_or_create_wal
  get_or_create_wal_lem key e v = elim (Option-cases (get key e.wals)) [
    | inl missing ↦
        let (p, ps, opened, _, valid, _, same) =
          get_or_create_partition_lem params w fresh key e v in
        let wal = open_wal (params.dirs key).wal in
        (
          wal,
          ps,
          SortedMap.insert key wal e.wals,
          rw (get_or_create_wal, missing, opened) refl,
          valid,
          same,
        )
    | inr (wal, found) ↦ (wal, e.partitions, e.wals, rw (get_or_create_wal, found) refl, v, refl)
  ]

  pub append_wal_lem :
      (key entry_type : ℕ) (bytes : Bytes) (e : StorageEngine)
      → IsValid e
      → (ps : List (ℕ × Partition)) × (ws : List (ℕ × Wal)) × (append_wal params key entry_type
            bytes e
          ≡ record e { partitions = ps; wals = ws })
        × Kept params w e (record e { partitions = ps; wals = ws }) 0
  unfolding append_wal
  append_wal_lem key entry_type bytes e v =
      let (wal, ps, ws, opened, valid, same) = get_or_create_wal_lem key e v.partitions in
      (
        ps,
        SortedMap.insert key (append params.crc32 entry_type bytes wal).1 ws,
        rw (append_wal, opened) refl,
        record {
          valid = record { positive = v.positive; memtables = v.memtables; partitions = valid };
          weight = omega (arith, same);
          closed = refl;
          bounded = λ h. h;
        },
      )

  -- The request goes to the queue or is dropped.
  pub try_send_lem :
      (req : FlushRequest) (e : StorageEngine)
      → IsValid e
      → Kept params w e (try_send req e) (mem_weight params w req.mem)
  unfolding try_send
  try_send_lem req e v = elim (Bool-cases (ltb (length e.queue) flush_queue_capacity)) [
    | inl room ↦ rw room (record {
      valid = record { positive = v.positive; memtables = v.memtables; partitions = v.partitions };
      weight =
          omega (
            arith,
            total-append (λ r. mem_weight params w (FlushRequest.mem r)) e.queue (req ∷ []),
          );
      closed = refl;
      bounded = λ h. ground (arith, length-append e.queue (req ∷ []));
    })
    | inr full ↦ rw full (record {
      valid = record { positive = v.positive; memtables = v.memtables; partitions = v.partitions };
      weight = omega (arith, total-append (mem_weight params w) e.dropped (req.mem ∷ []));
      closed = refl;
      bounded = λ h. h;
    })
  ]
