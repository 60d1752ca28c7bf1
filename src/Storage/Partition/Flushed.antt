-- ===== src/Storage/Partition/Flushed.antt =====
-- The rows that the SSTables of a partition hold: a flush adds its own and loses none.
use infralens.Prelude.{
  ℕ, ◌+◌, ◌<◌, ◌≡◌, refl, ap, Option, none, some, List, [], ◌∷◌, Bytes, map, All, arith,
}
use infralens.Prelude.SortedMap
use infralens.Prelude.SortedMap.{
  ℕ_order, IsAscending, get, insert-IsAscending, get-insert_self, get-insert_ne,
}
use infralens.Prelude.Totals.{total, total-append, total-map}
use infralens.Storage.Codec.{Codec}
use infralens.Storage.MemTable.Order.{RowKey}
use infralens.Storage.Partition.{
  SsTableMeta, open_partition, sort_by_seq, readable, add_sstable, next_seq,
}
use infralens.Storage.Partition.Tables.{Fresh, add_next, add_next-Fresh}
use infralens.Storage.Partition.Stores.{
  SignalDir, SignalStore, open_store, store_table, decode_rows, flush_rows,
}
use infralens.Storage.SsTable.{SsTable}

module _ {R : Type 0} where
  pub record IsStore (sp : SignalStore R) : Type 0 where
    pub fresh : Fresh sp.index
    pub ascending : IsAscending sp.files

  abbrev pub rows_weight : (R → ℕ) → Option (SsTable R) → ℕ
  rows_weight w none = 0
  rows_weight w (some t) = total w t.rows

  -- The weight of the rows in the file that an entry of the index names.
  abbrev pub table_weight : (R → ℕ) → List (ℕ × SsTable R) → SsTableMeta → ℕ
  table_weight w files m = rows_weight w (get m.seq files)

  abbrev pub store_weight : (R → ℕ) → SignalStore R → ℕ
  store_weight w sp = total (table_weight w sp.files) sp.index.sstables

  -- A directory without files.
  abbrev pub empty_dir : SignalDir R
  empty_dir = record { zone_files = []; files = [] }

  pub open_store-IsStore :
      (w : R → ℕ) → IsStore (open_store empty_dir) × (store_weight w (open_store empty_dir) ≡ 0)
  unfolding open_store open_partition sort_by_seq readable
  open_store-IsStore w = (record { fresh = tt; ascending = tt }, refl)

  -- A file with a new number changes none of the older ones.
  older_tables :
      (w : R → ℕ) (seq : ℕ) (t : SsTable R) (files : List (ℕ × SsTable R)) (ms : List SsTableMeta)
      → IsAscending files
      → All (λ m. m.seq < seq) ms
      → total (table_weight w (SortedMap.insert seq t files)) ms ≡ total (table_weight w files) ms
  older_tables w seq t files [] v h = refl
  older_tables w seq t files (m ∷ ms) v h =
      let same : get m.seq (SortedMap.insert seq t files) ≡ get m.seq files =
        get-insert_ne seq m.seq t files (λ e. omega (arith, e, h.0)) v in
      omega (arith, ap (rows_weight w) same, older_tables w seq t files ms v h.1)

  pub store_table-IsStore :
      (w : R → ℕ) (t : SsTable R) (sp : SignalStore R)
      → IsStore sp
      → IsStore (store_table t sp)
        × (store_weight w (store_table t sp) ≡ store_weight w sp + total w t.rows)
  unfolding store_table add_next add_sstable next_seq
  store_table-IsStore w t sp v =
      let seq = sp.index.next_seq in
      let files = SortedMap.insert seq t sp.files in
      let meta : SsTableMeta = record { seq = seq; zone_map = t.zone_map } in
      let own : get seq files ≡ some t = get-insert_self seq t sp.files in
      (
        record {
          fresh = add_next-Fresh t.zone_map sp.index v.fresh;
          ascending = insert-IsAscending seq t sp.files v.ascending;
        },
        omega (
          arith,
          total-append (table_weight w files) sp.index.sstables (meta ∷ []),
          older_tables w seq t sp.files sp.index.sstables v.ascending v.fresh,
          ap (rows_weight w) own,
        ),
      )

  -- A writer that never panics and writes a row for every record.
  abbrev pub Writes : {A : Type 0} → (A → R) → (List A → Option (SsTable R)) → Type 0
  Writes row write = (rs : List _) → (t : SsTable R) × (write rs ≡ some t) × (t.rows ≡ map row rs)

  pub flush_rows-IsStore :
      {A : Type 0} (w : R → ℕ) (row : A → R) (codec : Codec A) (write : List A → Option (SsTable R))
      (rows : List (RowKey × Bytes)) (sp : SignalStore R)
      → Writes row write
      → IsStore sp
      → (sp' : SignalStore R) × (flush_rows codec write rows sp ≡ some sp')
        × IsStore sp'
        × (store_weight w sp' ≡ store_weight w sp + total (λ r. w (row r)) (decode_rows codec rows))
  unfolding flush_rows
  flush_rows-IsStore w row codec write [] sp writes v =
      (sp, refl, v, (unfold decode_rows in omega arith))
  flush_rows-IsStore w row codec write (e ∷ rows) sp writes v =
      let rs = decode_rows codec (e ∷ rows) in
      let (t, run, holds) = writes rs in
      let (valid, weight) = store_table-IsStore w t sp v in
      (
        store_table t sp,
        rw run refl,
        valid,
        omega (arith, weight, ap (total w) holds, total-map w row rs),
      )
