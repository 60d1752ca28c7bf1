-- ===== src/Ingest/Pipeline.antt =====
-- crates/infralens-ingest/src/processor.rs: the bounded channel between the handlers and the storage
-- engine. The writer task keeps its end open; each of its rounds takes one batch. `none` is a panic.
pub mod Delivered
use infralens.Prelude.{
  ℕ, Option, none, some, List, [], ◌∷◌, ◌++◌, Result, ok, err, length, ltb, ◌==◌, if◌then◌else◌,
  ◌>>=◌,
}
use infralens.Common.Model.{IngestBatch}
use infralens.Ingest.Errors.{IngestError}
use infralens.Storage.Engine.{EngineParams, StorageEngine, WriteResult, write_batch, flush_next}

pub record IngestPipeline : Type 0 where
  pub buffer_depth : ℕ
  pub buffer : List IngestBatch
  pub engine : StorageEngine

abbrev pub SubmitResult : Type 0
SubmitResult = Result {0, 0} Unit IngestError

-- A channel without room panics.
unfoldable pub new : ℕ → StorageEngine → Option IngestPipeline
new buffer_depth engine =
    if buffer_depth == 0
    then none
    else some (record { buffer_depth = buffer_depth; buffer = []; engine = engine })

unfoldable pub submit : IngestBatch → IngestPipeline → SubmitResult × IngestPipeline
submit batch p =
    if ltb (length p.buffer) p.buffer_depth
    then (ok tt, record p { buffer = p.buffer ++ batch ∷ [] })
    else (err IngestError.buffer_full, p)

module _ (params : EngineParams) where
  -- Errors of the engine are logged only.
  abbrev pub stored :
      List IngestBatch
      → IngestPipeline
      → Option (WriteResult × StorageEngine)
      → Option IngestPipeline
  stored rest p none = none
  stored rest p (some (result, engine)) = some (record p { buffer = rest; engine = engine })

  -- One round of `writer_task`, if there is a batch.
  unfoldable pub writer_round : IngestPipeline → Option IngestPipeline
  writer_round p = elim p.buffer [
    | [] ↦ some p
    | batch ∷ rest ↦ stored rest p (write_batch params batch p.engine)
  ]
