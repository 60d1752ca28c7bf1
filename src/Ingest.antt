-- ===== src/Ingest.antt =====
-- crates/infralens-ingest: from the requests of a client to the storage engine.
pub mod Proto
pub mod Normalizer
pub mod Errors
pub mod Pipeline
pub mod Json
pub mod Handlers
mod Tests
