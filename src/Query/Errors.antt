-- ===== src/Query/Errors.antt =====
-- crates/infralens-query/src/error.rs. A message of another crate is its text.
use infralens.Prelude.{Bytes}
use infralens.Storage.Errors.{StorageError}

pub data QueryError : Type 0 where
  lex : Bytes → QueryError
  parse : Bytes → QueryError
  bind : Bytes → QueryError
  optimizer : Bytes → QueryError
  execution : Bytes → QueryError
  storage : StorageError → QueryError
  arrow : Bytes → QueryError
  io : Bytes → QueryError
