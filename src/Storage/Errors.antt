-- ===== src/Storage/Errors.antt =====
-- crates/infralens-storage/src/error.rs. A message of another crate is its text.
use infralens.Prelude.{ℕ, Bytes}

pub data StorageError : Type 0 where
  io : Bytes → StorageError
  wal_crc_mismatch : ℕ → ℕ → ℕ → StorageError
  wal_truncated : ℕ → StorageError
  serialisation : Bytes → StorageError
  arrow : Bytes → StorageError
  parquet : Bytes → StorageError
  partition_not_found : Bytes → StorageError
  closed : StorageError
  compaction : Bytes → StorageError
