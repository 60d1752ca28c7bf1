-- ===== src/Storage/Engine/Accept.antt =====
-- A batch record by record: each is stored, or its serialisation fails and ends the batch.
use infralens.Prelude.{
  ℕ, ◌+◌, ◌≡◌, refl, ap, ◌∙◌, false, Option, some, List, [], ◌∷◌, ◌++◌, Bytes, arith, Result, ok,
  err, Bool-cases, ◌⊎◌, inl, inr, ◌==◌, ◌-◌, ◌%◌,
}
use infralens.Prelude.SortedMap
use infralens.Prelude.SortedMap.{ℕ_order, get, All-insert, get-insert_self}
use infralens.Prelude.Totals.{total, values, values-insert-some}
use infralens.Common.Model.{SignalType, as_u8}
use infralens.Storage.Codec.{Codec}
use infralens.Storage.Errors.{StorageError}
use infralens.Storage.Engine.{
  EngineParams, StorageEngine, WriteResult, freeze, maybe_freeze, store_row, write_keyed,
  write_records,
}
use infralens.Storage.Engine.Flush.{NoFiles, get_or_create_partition_lem}
use infralens.Storage.Engine.Weight.{
  RowWeights, IsValid, mem_weight, mem_weight-insert, bytes_weight,
}
use infralens.Storage.Engine.Write.{
  Kept, new_weight, insert-IsValid, get_or_create_memtable_lem, append_wal_lem, try_send_lem,
}
use infralens.Storage.MemTable
use infralens.Storage.MemTable.{MemTable, insert, is_full}
use infralens.Storage.MemTable.Rows
use infralens.Storage.MemTable.Write.{write_record}
use infralens.Storage.Partition.{for_timestamp}

module _ (params : EngineParams) (w : RowWeights) where
  -- Two steps in a row.
  pub Kept-trans :
      {e e1 e2 : StorageEngine} {a b c : ℕ}
      → Kept params w e e1 a
      → Kept params w e1 e2 b
      → c ≡ a + b
      → Kept params w e e2 c
  Kept-trans k l sum = record {
    valid = l.valid;
    weight = omega (arith, k.weight, l.weight, sum);
    closed = l.closed ∙ k.closed;
    bounded = λ h. l.bounded (k.bounded h);
  }

  -- Another memtable under a key that has one.
  replace_memtable :
      (key : ℕ) (mem old : MemTable) (e : StorageEngine)
      → get key e.memtables ≡ some old
      → IsValid e
      → MemTable.Rows.IsValid mem
      → IsValid (record e { memtables = SortedMap.insert key mem e.memtables })
        × (values (mem_weight params w) (SortedMap.insert key mem e.memtables)
              + mem_weight params w old
            ≡ values (mem_weight params w) e.memtables + mem_weight params w mem)
  replace_memtable key mem old e found v is = (
    record {
      positive = v.positive;
      memtables = All-insert (λ x. MemTable.Rows.IsValid x.1) key mem e.memtables is v.memtables;
      partitions = v.partitions;
    },
    values-insert-some (mem_weight params w) key mem old e.memtables found,
  )

module _ (params : EngineParams) (w : RowWeights)
    (fresh : (key : ℕ) → NoFiles (params.dirs key)) where
  freeze_lem :
      (key : ℕ) (mem : MemTable) (e : StorageEngine)
      → get key e.memtables ≡ some mem
      → IsValid e
      → Kept params w e (freeze params key mem e) 0
  unfolding freeze
  freeze_lem key mem e found v =
      let new = MemTable.new e.memtable_size in
      let (valid, weight) =
        replace_memtable params w key new mem e found v
          (MemTable.Rows.new-IsValid e.memtable_size) in
      let swapped : StorageEngine = record e { memtables = SortedMap.insert key new e.memtables } in
      let (p, ps, opened, _, parts, _, same) =
        get_or_create_partition_lem params w fresh key swapped valid.partitions in
      let sent =
        try_send_lem params w fresh (record { mem = mem; partition = key })
          (record swapped { partitions = ps })
          (record { positive = v.positive; memtables = valid.memtables; partitions = parts }) in
      rw (freeze, opened)
        (record {
          valid = sent.valid;
          weight = omega (arith, sent.weight, weight, same, new_weight params w e.memtable_size);
          closed = sent.closed;
          bounded = sent.bounded;
        })

  maybe_freeze_lem :
      (key : ℕ) (mem : MemTable) (e : StorageEngine)
      → get key e.memtables ≡ some mem
      → IsValid e
      → Kept params w e (maybe_freeze params key mem e) 0
  unfolding maybe_freeze
  maybe_freeze_lem key mem e found v = elim (Bool-cases (is_full mem)) [
    | inl full ↦ rw full (freeze_lem key mem e found v)
    | inr room ↦
        rw room (record { valid = v; weight = omega arith; closed = refl; bounded = λ h. h })
  ]

  -- A row goes into the memtable of its key.
  store_row_lem :
      (signal : SignalType) (timestamp_ns : ℕ) (bytes : Bytes) (key : ℕ) (mem : MemTable)
      (e : StorageEngine)
      → get key e.memtables ≡ some mem
      → IsValid e
      → MemTable.Rows.IsValid mem
      → (e' : StorageEngine) × (store_row params key
            (ok (insert timestamp_ns (as_u8 signal) bytes mem))
            e
          ≡ (ok tt, e'))
        × Kept params w e e' (bytes_weight params w signal bytes)
  unfolding store_row
  store_row_lem signal timestamp_ns bytes key mem e found v is =
      let mem' = insert timestamp_ns (as_u8 signal) bytes mem in
      let is' = insert-IsValid timestamp_ns (as_u8 signal) bytes mem is in
      let (valid, weight) = replace_memtable params w key mem' mem e found v is' in
      let stored : StorageEngine = record e { memtables = SortedMap.insert key mem' e.memtables } in
      let kept : Kept params w e stored (bytes_weight params w signal bytes) = record {
        valid = valid;
        weight = omega (arith, weight, mem_weight-insert params w signal timestamp_ns bytes mem is);
        closed = refl;
        bounded = λ h. h;
      } in
      (
        maybe_freeze params key mem' stored,
        refl,
        Kept-trans params w kept
            (maybe_freeze_lem key mem' stored (get-insert_self key mem' e.memtables) valid)
            (omega arith),
      )

  write_keyed-ok :
      {A : Type 0} (entry_type : ℕ) (signal : SignalType) (timestamp : A → ℕ) (codec : Codec A)
      (r : A) (bytes : Bytes) (key : ℕ) (e : StorageEngine)
      → codec.serialize r ≡ ok bytes
      → IsValid e
      → (e' : StorageEngine) × (write_keyed params entry_type codec
            (λ r. write_record codec signal (timestamp r) r)
            r
            key
            e
          ≡ (ok tt, e'))
        × Kept params w e e' (bytes_weight params w signal bytes)
  unfolding write_keyed write_record
  write_keyed-ok entry_type signal timestamp codec r bytes key e run v =
      let (mem, ms, created, found, is, kept) = get_or_create_memtable_lem params w fresh key e v in
      let e1 : StorageEngine = record e { memtables = ms } in
      let (ps, ws, appended, logged) =
        append_wal_lem params w fresh key entry_type bytes e1 kept.valid in
      let (e', stored, last) =
        store_row_lem signal (timestamp r) bytes key mem (record e1 { partitions = ps; wals = ws })
          found logged.valid is in
      (
        e',
        rw (write_keyed, run, created, appended, write_record, run, created) stored,
        Kept-trans params w kept (Kept-trans params w logged last refl) (omega arith),
      )

  write_keyed-err :
      {A : Type 0} (entry_type : ℕ) (codec : Codec A)
      (write : A → MemTable → Result MemTable StorageError) (r : A) (x : StorageError) (key : ℕ)
      (e : StorageEngine)
      → codec.serialize r ≡ err x
      → IsValid e
      → (e' : StorageEngine) × (write_keyed params entry_type codec write r key e ≡ (err x, e'))
        × Kept params w e e' 0
  unfolding write_keyed
  write_keyed-err entry_type codec write r x key e fails v =
      let (mem, ms, created, _, _, kept) = get_or_create_memtable_lem params w fresh key e v in
      (record e { memtables = ms }, rw (write_keyed, fails, created) refl, kept)

module _ (params : EngineParams) (w : RowWeights) where
  abbrev pub serialized_weight : SignalType → Result Bytes StorageError → ℕ
  serialized_weight signal (err x) = 0
  serialized_weight signal (ok bytes) = bytes_weight params w signal bytes

  -- The row that a flush makes of a record, if bincode can write the record and read it back.
  abbrev pub record_weight : {A : Type 0} → SignalType → Codec A → A → ℕ
  record_weight signal codec r = serialized_weight signal (codec.serialize r)

  pub record Accepted {A : Type 0} (weight : A → ℕ) (rs : List A) (e : StorageEngine)
      (run : Option (WriteResult × StorageEngine)) : Type 0 where
    pub after : StorageEngine
    pub result : run ≡ some (ok tt, after)
    pub kept : Kept params w e after (total weight rs)

  -- The records before the first one that bincode refuses are kept.
  pub record Rejected {A : Type 0} (codec : Codec A) (weight : A → ℕ) (rs : List A)
      (e : StorageEngine) (run : Option (WriteResult × StorageEngine)) : Type 0 where
    pub before : List A
    pub refused : A
    pub rest : List A
    pub error : StorageError
    pub after : StorageEngine
    pub split : rs ≡ before ++ refused ∷ rest
    pub fails : codec.serialize refused ≡ err error
    pub result : run ≡ some (err error, after)
    pub kept : Kept params w e after (total weight before)

Result-cases : {A B : Type 0} (r : Result A B) → ((a : A) × (r ≡ ok a)) ⊎ ((b : B) × (r ≡ err b))
Result-cases (ok a) = inl (a, refl)
Result-cases (err b) = inr (b, refl)

module _ (params : EngineParams) (w : RowWeights) (fresh : (key : ℕ) → NoFiles (params.dirs key))
    {A : Type 0} (entry_type : ℕ) (signal : SignalType) (timestamp : A → ℕ) (codec : Codec A) where
  abbrev write : List A → StorageEngine → Option (WriteResult × StorageEngine)
  write =
      write_records params timestamp entry_type codec
        (λ r. write_record codec signal (timestamp r) r)

  key_of_timestamp :
      (ts : ℕ) (e : StorageEngine)
      → IsValid e
      → (key : ℕ) × (for_timestamp ts e.bucket_ns ≡ some key)
  unfolding for_timestamp
  key_of_timestamp ts e v =
      let positive : (e.bucket_ns == 0) ≡ false = ground (arith, v.positive) in
      (ts - ts % e.bucket_ns, rw positive refl)

  -- On a data directory without SSTables, a well-formed engine is given records: it either returns
  -- success, and for any weight on rows, what is in memtables and queued requests, in SSTables and
  -- in the requests that a full queue dropped grows by all the records; or it returns the error of
  -- the first record that bincode refuses, and the sum grows by exactly the records before it.
  -- Only records that bincode reads back have a weight.
  pub write_records_lem :
      (rs : List A) (e : StorageEngine)
      → IsValid e
      → Accepted params w (record_weight params w signal codec) rs e (write rs e)
        ⊎ Rejected params w codec (record_weight params w signal codec) rs e (write rs e)
  unfolding write_records
  write_records_lem [] e v = inl (record {
    after = e;
    result = refl;
    kept = record { valid = v; weight = omega arith; closed = refl; bounded = λ h. h };
  })
  write_records_lem (r ∷ rs) e v =
      let (key, keyed) = key_of_timestamp (timestamp r) e v in
      elim (Result-cases (codec.serialize r)) [
        | inl (bytes, run) ↦
            let (e1, stored, kept) =
              write_keyed-ok params w fresh entry_type signal timestamp codec r bytes key e run v in
            let first : Kept params w e e1 (record_weight params w signal codec r) = rw run kept in
            elim (write_records_lem rs e1 kept.valid) [
              | inl all ↦ inl (record {
                after = all.after;
                result = rw (keyed, stored) all.result;
                kept = Kept-trans params w first all.kept refl;
              })
              | inr some' ↦ inr (record {
                before = r ∷ some'.before;
                refused = some'.refused;
                rest = some'.rest;
                error = some'.error;
                after = some'.after;
                split = ap (λ l. r ∷ l) some'.split;
                fails = some'.fails;
                result = rw (keyed, stored) some'.result;
                kept = Kept-trans params w first some'.kept refl;
              })
            ]
        | inr (x, fails) ↦
            let (e1, refused, kept) =
              write_keyed-err params w fresh entry_type codec
                (λ r. write_record codec signal (timestamp r) r) r x key e fails v in
            inr (record {
              before = [];
              refused = r;
              rest = rs;
              error = x;
              after = e1;
              split = refl;
              fails = fails;
              result = rw (keyed, refused) refl;
              kept = kept;
            })
      ]
