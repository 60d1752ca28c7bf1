-- ===== src/Storage/Codec.antt =====
-- The serialiser bincode, as far as the storage crate relies on it: an interface per type of record.
use infralens.Prelude.{Option, Bytes, Result}
use infralens.Storage.Errors.{StorageError}

pub record Codec (A : Type 0) : Type 0 where
  pub serialize : A → Result Bytes StorageError
  pub deserialize : Bytes → Option A
