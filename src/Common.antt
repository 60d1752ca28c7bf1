-- ===== src/Common.antt =====
-- crates/infralens-common: the data model and the schemas that ingest, storage and query share.
pub mod Model
pub mod Schema
