-- ===== src/Storage/Engine/Drain.antt =====
-- The queue and the forced flush: requests wait, the worker takes them in order, and a forced flush
-- leaves no memtable behind.
use infralens.Prelude.{
  ℕ, ◌+◌, ◌-◌, ◌≤◌, ◌≡◌, refl, true, some, List, [], ◌∷◌, ◌++◌, length, length-append, map, All,
  arith, ltb, Bool-cases, inl, inr, ◌==◌,
}
use infralens.Prelude.SortedMap.{ℕ_order, get_first, remove_first}
use infralens.Prelude.Totals.{total, total-append, values}
use infralens.Storage.Engine.{
  EngineParams, FlushRequest, StorageEngine, flush_queue_capacity, flush_next, send, flush_removed,
  flush_key, flush_keys, flush_all,
}
use infralens.Storage.Engine.Flush.{NoFiles, get_or_create_partition_lem, flush_immutable_lem}
use infralens.Storage.Engine.Weight.{
  RowWeights, IsPartition, entry_weight, mem_weight, partition_weight, queue_weight,
}
use infralens.Storage.MemTable.{MemTable, is_empty}
use infralens.Storage.Partition.Stores.{Partition}
use infralens.Storage.Wal.{Wal}

module _ (params : EngineParams) (w : RowWeights) where
  -- The partitions and the queue after steps that added rows of a weight.
  pub record Moved (e : StorageEngine) (ps : List (ℕ × Partition)) (q : List FlushRequest)
      (added : ℕ) : Type 0 where
    pub valid : All (λ x. IsPartition x.1) ps
    pub weight :
        values (partition_weight params w) ps + queue_weight params w q
        ≡ values (partition_weight params w) e.partitions + queue_weight params w e.queue + added
    pub bounded : length e.queue ≤ flush_queue_capacity → length q ≤ flush_queue_capacity

total_of_empty : {A : Type 0} (f : A → ℕ) (xs : List A) → (length xs == 0) ≡ true → total f xs ≡ 0
total_of_empty f [] h = refl
total_of_empty f (x ∷ xs) h = ground arith

module _ (params : EngineParams) (w : RowWeights)
    (fresh : (key : ℕ) → NoFiles (params.dirs key)) where
  next_of :
      (q : List FlushRequest) (e : StorageEngine)
      → All (λ x. IsPartition x.1) e.partitions
      → (ps : List (ℕ × Partition)) × (ws : List (ℕ × Wal)) × (q' : List FlushRequest) × (flush_next
            params
            (record e { queue = q })
          ≡ some (record e { partitions = ps; wals = ws; queue = q' }))
        × Moved params w (record e { queue = q }) ps q' 0
        × (length q' ≡ length q - 1)
  unfolding flush_next
  next_of [] e v = (
    e.partitions,
    e.wals,
    [],
    refl,
    record { valid = v; weight = omega arith; bounded = λ h. h },
    refl,
  )
  next_of (req ∷ q) e v =
      let (ps, ws, run, valid, weight) =
        flush_immutable_lem params w fresh req (record e { queue = q }) v in
      (
        ps,
        ws,
        q,
        run,
        record { valid = valid; weight = omega (arith, weight); bounded = λ h. omega (arith, h) },
        omega arith,
      )

  pub flush_next_lem :
      (e : StorageEngine)
      → All (λ x. IsPartition x.1) e.partitions
      → (ps : List (ℕ × Partition)) × (ws : List (ℕ × Wal)) × (q : List FlushRequest) × (flush_next
            params e
          ≡ some (record e { partitions = ps; wals = ws; queue = q }))
        × Moved params w e ps q 0
        × (length q ≡ length e.queue - 1)
  flush_next_lem e v = next_of e.queue e v

  -- A request that the sender waits to place is in the queue, which stays within its bound.
  send_lem :
      (req : FlushRequest) (e : StorageEngine)
      → All (λ x. IsPartition x.1) e.partitions
      → (ps : List (ℕ × Partition)) × (ws : List (ℕ × Wal)) × (q : List FlushRequest) × (send params
            req e
          ≡ some (record e { partitions = ps; wals = ws; queue = q }))
        × Moved params w e ps q (mem_weight params w req.mem)
  unfolding send
  send_lem req e v = elim (Bool-cases (ltb (length e.queue) flush_queue_capacity)) [
    | inl room ↦ (
      e.partitions,
      e.wals,
      e.queue ++ req ∷ [],
      rw room refl,
      record {
        valid = v;
        weight = omega (
          arith,
          total-append (λ r. mem_weight params w (FlushRequest.mem r)) e.queue (req ∷ []),
        );
        bounded = λ h. ground (arith, length-append e.queue (req ∷ []));
      },
    )
    | inr full ↦
        let (ps, ws, q, run, moved, len) = flush_next_lem e v in
        (
          ps,
          ws,
          q ++ req ∷ [],
          rw (full, run) refl,
          record {
            valid = moved.valid;
            weight = omega (
              arith,
              moved.weight,
              total-append (λ r. mem_weight params w (FlushRequest.mem r)) q (req ∷ []),
            );
            bounded = λ h. ground (arith, len, h, length-append q (req ∷ []));
          },
        )
  ]

  flush_removed_lem :
      (key : ℕ) (mem : MemTable) (e : StorageEngine)
      → All (λ x. IsPartition x.1) e.partitions
      → (ps : List (ℕ × Partition)) × (ws : List (ℕ × Wal)) × (q : List FlushRequest)
        × (flush_removed params key mem e
            ≡ some (record e { partitions = ps; wals = ws; queue = q }))
        × Moved params w e ps q (mem_weight params w mem)
  unfolding flush_removed
  flush_removed_lem key mem e v = elim (Bool-cases (is_empty mem)) [
    | inl empty ↦ (
      e.partitions,
      e.wals,
      e.queue,
      rw empty refl,
      record {
        valid = v;
        weight =
            omega
              (arith, total_of_empty (entry_weight params w) mem.inner (unfold is_empty in empty));
        bounded = λ h. h;
      },
    )
    | inr rows ↦
        let (p, ps, opened, _, valid, _, same) =
          get_or_create_partition_lem params w fresh key e v in
        let (ps', ws, q, run, moved) =
          send_lem (record { mem = mem; partition = key }) (record e { partitions = ps }) valid in
        (
          ps',
          ws,
          q,
          rw (rows, opened) run,
          record {
            valid = moved.valid;
            weight = omega (arith, moved.weight, same);
            bounded = moved.bounded;
          },
        )
  ]

  first_key :
      (key : ℕ) (mem : MemTable) (mems : List (ℕ × MemTable)) (e : StorageEngine)
      → flush_key params key (record e { memtables = (key, mem) ∷ mems })
        ≡ flush_removed params key mem (record e { memtables = mems })
  unfolding flush_key
  first_key key mem mems e = rw (flush_key, get_first key mem mems, remove_first key mem mems) refl

  -- The loop of `flush_all` over the keys of the memtables.
  flush_keys_lem :
      (mems : List (ℕ × MemTable)) (e : StorageEngine)
      → All (λ x. IsPartition x.1) e.partitions
      → (ps : List (ℕ × Partition)) × (ws : List (ℕ × Wal)) × (q : List FlushRequest) × (flush_keys
            params
            (map (λ x. x.0) mems)
            (record e { memtables = mems })
          ≡ some (record e { memtables = []; partitions = ps; wals = ws; queue = q }))
        × Moved params w e ps q (values (mem_weight params w) mems)
  unfolding flush_keys
  flush_keys_lem [] e v = (
    e.partitions,
    e.wals,
    e.queue,
    refl,
    record { valid = v; weight = omega arith; bounded = λ h. h },
  )
  flush_keys_lem ((key, mem) ∷ mems) e v =
      let (ps, ws, q, run, moved) = flush_removed_lem key mem (record e { memtables = mems }) v in
      let (ps', ws', q', rest, later) =
        flush_keys_lem mems (record e { partitions = ps; wals = ws; queue = q }) moved.valid in
      (
        ps',
        ws',
        q',
        rw (flush_keys, first_key key mem mems e, run) rest,
        record {
          valid = later.valid;
          weight = omega (arith, moved.weight, later.weight);
          bounded = λ h. later.bounded (moved.bounded h);
        },
      )

  pub flush_all_lem :
      (e : StorageEngine)
      → All (λ x. IsPartition x.1) e.partitions
      → (ps : List (ℕ × Partition)) × (ws : List (ℕ × Wal)) × (q : List FlushRequest) × (flush_all
            params e
          ≡ some (record e { memtables = []; partitions = ps; wals = ws; queue = q }))
        × Moved params w e ps q (values (mem_weight params w) e.memtables)
  unfolding flush_all
  flush_all_lem e v = flush_keys_lem e.memtables e v
