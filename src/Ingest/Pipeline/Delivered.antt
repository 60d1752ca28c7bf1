-- ===== src/Ingest/Pipeline/Delivered.antt =====
-- Batches that were accepted are in the buffer, or in the engine with every row; the order of the
-- rounds of the two tasks does not matter.
use infralens.Prelude.{
  ℕ, ◌+◌, ◌≤◌, ◌≡◌, refl, ap, ◌∙◌, false, Option, none, some, List, [], ◌∷◌, ◌++◌, length,
  length-append, arith, ok, err, ltb, if◌then◌else◌, Bool-cases, inl, inr, ◌>>=◌,
}
use infralens.Prelude.Totals.{total, total-append}
use infralens.Common.Model.{IngestBatch}
use infralens.Ingest.Pipeline.{IngestPipeline, SubmitResult, submit, writer_round}
use infralens.Storage.Engine.{EngineParams, StorageEngine, flush_next}
use infralens.Storage.Engine.Flush.{NoFiles}
use infralens.Storage.Engine.Runs.{Serializes, batch_weight}
use infralens.Storage.Engine.Steps.{write_batch_lem, flush_next-Kept}
use infralens.Storage.Engine.Weight.{RowWeights, IsValid, engine_weight}

pub data PipelineEvent : Type 0 where
  submitted : IngestBatch → PipelineEvent
  writer : PipelineEvent
  flusher : PipelineEvent

abbrev pub accepted_by : IngestBatch → SubmitResult → List IngestBatch
accepted_by batch (ok _) = batch ∷ []
accepted_by batch (err e) = []

abbrev flushed : IngestPipeline → Option StorageEngine → Option IngestPipeline
flushed p none = none
flushed p (some engine) = some (record p { engine = engine })

-- An event's outcome, with the batch if its submission was accepted.
abbrev noted : List IngestBatch → Option IngestPipeline → Option (List IngestBatch × IngestPipeline)
noted batches none = none
noted batches (some p) = some (batches, p)

module _ (params : EngineParams) where
  unfoldable pub react : PipelineEvent → IngestPipeline → Option (List IngestBatch × IngestPipeline)
  react (submitted batch) p =
      let (result, p') = submit batch p in some (accepted_by batch result, p')
  react writer p = noted [] (writer_round params p)
  react flusher p = noted [] (flushed p (flush_next params p.engine))

  -- The batches accepted, in order, and the state at the end.
  unfoldable pub react_all :
      List PipelineEvent → IngestPipeline → Option (List IngestBatch × IngestPipeline)
  react_all [] p = some ([], p)
  react_all (x ∷ xs) p = do
    (batches, p1) ← react x p
    (more, p2) ← react_all xs p1
    some (batches ++ more, p2)

-- The buffer is within its depth, and the engine is well formed and open.
pub record IsPipeline (p : IngestPipeline) : Type 0 where
  pub bounded : length p.buffer ≤ p.buffer_depth
  pub engine : IsValid p.engine
  pub open_engine : p.engine.closed ≡ false

module _ (params : EngineParams) (w : RowWeights) where
  abbrev pub buffer_weight : List IngestBatch → ℕ
  buffer_weight = total (batch_weight params w)

  abbrev pub pipeline_weight : IngestPipeline → ℕ
  pipeline_weight p = buffer_weight p.buffer + engine_weight params w p.engine

  pub record Delivered (p p' : IngestPipeline) (batches : List IngestBatch) : Type 0 where
    pub valid : IsPipeline p'
    pub weight : pipeline_weight p' ≡ pipeline_weight p + buffer_weight batches
    pub depth : p'.buffer_depth ≡ p.buffer_depth

module _ (params : EngineParams) (w : RowWeights) (fresh : (key : ℕ) → NoFiles (params.dirs key))
    (logs : Serializes params.log_codec) (metrics : Serializes params.metric_codec)
    (spans : Serializes params.span_codec) where
  submit_lem :
      (batch : IngestBatch) (p : IngestPipeline)
      → IsPipeline p
      → let (result, p') = submit batch p in Delivered params w p p' (accepted_by batch result)
  unfolding submit
  submit_lem batch p v = elim (Bool-cases (ltb (length p.buffer) p.buffer_depth)) [
    | inl room ↦ rw room (record {
      valid = record {
        bounded = ground (arith, length-append p.buffer (batch ∷ []));
        engine = v.engine;
        open_engine = v.open_engine;
      };
      weight = omega (arith, total-append (batch_weight params w) p.buffer (batch ∷ []));
      depth = refl;
    })
    | inr full ↦ rw full (record { valid = v; weight = omega arith; depth = refl })
  ]

  writer_of :
      (buffer : List IngestBatch) (p : IngestPipeline)
      → IsPipeline (record p { buffer = buffer })
      → (p' : IngestPipeline) × (writer_round params (record p { buffer = buffer }) ≡ some p')
        × Delivered params w (record p { buffer = buffer }) p' []
  unfolding writer_round
  writer_of [] p v =
      (record p { buffer = [] }, refl, record { valid = v; weight = omega arith; depth = refl })
  writer_of (batch ∷ rest) p v =
      let (engine, run, kept) =
        write_batch_lem params w fresh logs metrics spans batch p.engine v.engine in
      let p' : IngestPipeline = record p { buffer = rest; engine = engine } in
      let added : (if p.engine.closed then 0 else batch_weight params w batch)
          ≡ batch_weight params w batch =
        ap (λ c. if c then 0 else batch_weight params w batch) v.open_engine in
      (
        p',
        rw run refl,
        record {
          valid = record {
            bounded = omega (arith, v.bounded);
            engine = kept.valid;
            open_engine = kept.closed ∙ v.open_engine;
          };
          weight = omega (arith, kept.weight, added);
          depth = refl;
        },
      )

  react_lem :
      (x : PipelineEvent) (p : IngestPipeline)
      → IsPipeline p
      → (batches : List IngestBatch) × (p' : IngestPipeline) × (react params x p
          ≡ some (batches, p'))
        × Delivered params w p p' batches
  unfolding react
  react_lem (submitted batch) p v =
      let (result, p') = submit batch p in
      (accepted_by batch result, p', refl, submit_lem batch p v)
  react_lem writer p v = let (p', run, done) = writer_of p.buffer p v in ([], p', rw run refl, done)
  react_lem flusher p v =
      let (engine, run, kept, _, _, _) =
        flush_next-Kept params w fresh logs metrics spans p.engine v.engine in
      (
        [],
        record p { engine = engine },
        rw run refl,
        record {
          valid = record {
            bounded = v.bounded;
            engine = kept.valid;
            open_engine = kept.closed ∙ v.open_engine;
          };
          weight = omega (arith, kept.weight);
          depth = refl;
        },
      )

  -- Where bincode writes every record and the data directory had no SSTables, a pipeline with a
  -- well-formed open engine and a buffer within its depth runs through any submissions, rounds of
  -- the writer task and rounds of the flush worker: nothing panics, the buffer stays within its
  -- depth, and for any weight on rows, what is in the buffer, in memtables and queued requests, in
  -- SSTables and in the requests that a full queue dropped grows by exactly the batches whose
  -- submission returned success. Only records that bincode reads back have a weight.
  pub react_all_lem :
      (xs : List PipelineEvent) (p : IngestPipeline)
      → IsPipeline p
      → (batches : List IngestBatch) × (p' : IngestPipeline) × (react_all params xs p
          ≡ some (batches, p'))
        × Delivered params w p p' batches
  unfolding react_all
  react_all_lem [] p v = ([], p, refl, record { valid = v; weight = omega arith; depth = refl })
  react_all_lem (x ∷ xs) p v =
      let (batches, p1, first, done) = react_lem x p v in
      let (more, p2, rest, done') = react_all_lem xs p1 done.valid in
      (
        batches ++ more,
        p2,
        rw (first, rest) refl,
        record {
          valid = done'.valid;
          weight =
              omega (
                arith,
                done.weight,
                done'.weight,
                total-append (batch_weight params w) batches more,
              );
          depth = done'.depth ∙ done.depth;
        },
      )
