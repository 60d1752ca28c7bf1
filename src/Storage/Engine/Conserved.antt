-- ===== src/Storage/Engine/Conserved.antt =====
-- Whole runs of the engine: every accepted row is somewhere, and closing brings what is pending to disk.
use infralens.Prelude.{
  ℕ, zero, suc, ◌+◌, ◌*◌, ◌^◌, ◌≤◌, ◌<◌, ◌≡◌, refl, ap, ◌∙◌, false, some, List, [], ◌∷◌, length,
  arith,
}
use infralens.Prelude.Totals.{total, values}
use infralens.Storage.Engine.{
  EngineParams, FlushRequest, StorageEngine, flush_queue_capacity, open_engine, close,
}
use infralens.Storage.Engine.Flush.{NoFiles}
use infralens.Storage.Engine.Runs.{Serializes, Event, handle, run, work_rounds, accepted_weight}
use infralens.Storage.Engine.Weight.{
  RowWeights, IsValid, mem_weight, queue_weight, stored_weight, pending_weight, dropped_weight,
  engine_weight,
}
use infralens.Storage.Engine.Steps.{write_batch_lem, flush_all-Kept, flush_next-Kept, close-Kept}
use infralens.Prelude.SortedMap.{ℕ_order}

module _ (params : EngineParams) (w : RowWeights) (fresh : (key : ℕ) → NoFiles (params.dirs key))
    (logs : Serializes params.log_codec) (metrics : Serializes params.metric_codec)
    (spans : Serializes params.span_codec) where
  -- One event, and what it accepts.
  handle_lem :
      (x : Event) (xs : List Event) (e : StorageEngine)
      → IsValid e
      → (e' : StorageEngine) × (handle params x e ≡ some e')
        × IsValid e'
        × (engine_weight params w e' + accepted_weight params w e'.closed xs
            ≡ engine_weight params w e + accepted_weight params w e.closed (x ∷ xs))
        × (length e.queue ≤ flush_queue_capacity → length e'.queue ≤ flush_queue_capacity)
  unfolding handle
  handle_lem (Event.write batch) xs e v =
      let (e', result, kept) = write_batch_lem params w fresh logs metrics spans batch e v in
      (e', rw result refl, kept.valid, rw kept.closed (omega (arith, kept.weight)), kept.bounded)
  handle_lem Event.work xs e v =
      let (e', result, kept, _, _, _) = flush_next-Kept params w fresh logs metrics spans e v in
      (e', result, kept.valid, rw kept.closed (omega (arith, kept.weight)), kept.bounded)
  handle_lem Event.flush xs e v =
      let (e', result, kept, _, _) = flush_all-Kept params w fresh logs metrics spans e v in
      (e', result, kept.valid, rw kept.closed (omega (arith, kept.weight)), kept.bounded)
  handle_lem Event.shut xs e v =
      let (e', result, valid, weight, shut, _, _, bounded) =
        close-Kept params w fresh logs metrics spans e v in
      (e', result, valid, rw shut (omega (arith, weight)), bounded)

  run_lem :
      (xs : List Event) (e : StorageEngine)
      → IsValid e
      → (e' : StorageEngine) × (run params xs e ≡ some e')
        × IsValid e'
        × (engine_weight params w e'
            ≡ engine_weight params w e + accepted_weight params w e.closed xs)
        × (length e.queue ≤ flush_queue_capacity → length e'.queue ≤ flush_queue_capacity)
  unfolding run
  run_lem [] e v = (e, refl, v, omega arith, λ h. h)
  run_lem (x ∷ xs) e v =
      let (e1, first, valid, weight, bounded) = handle_lem x xs e v in
      let (e2, rest, valid', weight', bounded') = run_lem xs e1 valid in
      (e2, rw first rest, valid', omega (arith, weight, weight'), λ h. bounded' (bounded h))

  pub open_engine-IsValid :
      (partition_hours memtable_size : ℕ)
      → 0 < partition_hours
      → partition_hours * 3600 * 1000000000 < 2 ^ 64
      → IsValid (open_engine partition_hours memtable_size)
        × (engine_weight params w (open_engine partition_hours memtable_size) ≡ 0)
  unfolding open_engine
  open_engine-IsValid partition_hours memtable_size h fits =
      (record { positive = omega (arith, h, fits); memtables = tt; partitions = tt }, refl)

  -- An engine with positive partition hours, few enough that the nanoseconds of a bucket fit 64
  -- bits, is opened on a data directory without SSTables and runs through any events: writes of
  -- batches, rounds of the flush worker, forced flushes and closing. Where bincode writes every
  -- record, nothing panics, the flush queue stays within its capacity, and for any weight on rows,
  -- what is in memtables and queued requests, in SSTables, and in dropped requests makes up
  -- exactly the batches written before the engine was closed. Only records that bincode reads back
  -- have a weight: the others are not followed.
  pub run-open_engine :
      (partition_hours memtable_size : ℕ) (xs : List Event)
      → 0 < partition_hours
      → partition_hours * 3600 * 1000000000 < 2 ^ 64
      → (e : StorageEngine) × (run params xs (open_engine partition_hours memtable_size) ≡ some e)
        × (pending_weight params w e + (stored_weight params w e + dropped_weight params w e)
            ≡ accepted_weight params w false xs)
        × (length e.queue ≤ flush_queue_capacity)
  unfolding open_engine
  run-open_engine partition_hours memtable_size xs h fits =
      let e0 = open_engine partition_hours memtable_size in
      let (valid, empty) = open_engine-IsValid partition_hours memtable_size h fits in
      let (e, result, _, weight, bounded) = run_lem xs e0 valid in
      (e, result, omega (arith, weight, empty), bounded (omega arith))

  work_rounds_lem :
      (n : ℕ) (e : StorageEngine)
      → IsValid e
      → length e.queue ≤ n
      → (e' : StorageEngine) × (work_rounds params n e ≡ some e')
        × (engine_weight params w e' ≡ engine_weight params w e)
        × (e'.memtables ≡ e.memtables)
        × (e'.dropped ≡ e.dropped)
        × (length e'.queue ≡ 0)
  unfolding work_rounds
  work_rounds_lem zero e v h = (e, refl, refl, refl, refl, omega (arith, h))
  work_rounds_lem (suc n) e v h =
      let (e1, first, kept, mems, same, len) =
        flush_next-Kept params w fresh logs metrics spans e v in
      let (e2, rest, weight, mems', same', done) =
        work_rounds_lem n e1 kept.valid (omega (arith, h, len)) in
      (e2, rw first rest, omega (arith, weight, kept.weight), mems' ∙ mems, same' ∙ same, done)

  empty_queue : (q : List FlushRequest) → length q ≡ 0 → q ≡ []
  empty_queue [] h = refl
  empty_queue (x ∷ q) h = absurd (omega (arith, h))

  -- Where bincode writes every record and the data directory had no SSTables, a well-formed engine
  -- whose queue is within its capacity is closed and the flush worker then runs as many rounds as
  -- the queue has places: no memtable and no request is left, and for any weight on rows, the
  -- SSTables hold all that they held and all that was pending of what bincode reads back. Pending
  -- records that bincode cannot read back have no weight and are not in the SSTables.
  pub work_rounds-close :
      (e : StorageEngine)
      → IsValid e
      → length e.queue ≤ flush_queue_capacity
      → (e1 : StorageEngine) × (e2 : StorageEngine) × (close params e ≡ some e1)
        × (work_rounds params flush_queue_capacity e1 ≡ some e2)
        × (e2.memtables ≡ [])
        × (e2.queue ≡ [])
        × (stored_weight params w e2 ≡ stored_weight params w e + pending_weight params w e)
  work_rounds-close e v h =
      let (e1, shut, valid, weight, _, empty, same, bounded) =
        close-Kept params w fresh logs metrics spans e v in
      let (e2, worked, weight', mems, same', done) =
        work_rounds_lem flush_queue_capacity e1 valid (bounded h) in
      let no_mems = mems ∙ empty in
      let no_queue = empty_queue e2.queue done in
      (
        e1,
        e2,
        shut,
        worked,
        no_mems,
        no_queue,
        omega (
          arith,
          weight,
          weight',
          ap (λ ms. values (mem_weight params w) ms) no_mems,
          ap (λ q. queue_weight params w q) no_queue,
          ap (λ d. total (mem_weight params w) d) (same' ∙ same),
        ),
      )
