-- ===== src/Storage.antt =====
-- crates/infralens-storage: the engine, its memtables, partitions and SSTables with their zone maps and
-- Bloom filters, compaction, and the write-ahead log.
pub mod Errors
pub mod Wal
pub mod ZoneMap
pub mod Bloom
pub mod MemTable
pub mod Partition
pub mod Codec
pub mod SsTable
pub mod Engine
pub mod Compaction
mod Tests
