-- ===== src/Ingest/Errors.antt =====
-- crates/infralens-ingest/src/error.rs.
use infralens.Prelude.{Bool, true, false, Bytes}
use infralens.Storage.Errors.{StorageError}

pub data IngestError : Type 0 where
  buffer_full : IngestError
  storage : StorageError → IngestError
  normalisation : Bytes → IngestError

unfoldable pub is_retriable : IngestError → Bool
is_retriable buffer_full = true
is_retriable (storage e) = false
is_retriable (normalisation msg) = false
