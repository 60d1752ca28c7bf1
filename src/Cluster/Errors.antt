-- ===== src/Cluster/Errors.antt =====
-- crates/infralens-cluster/src/error.rs: the errors that the ring and a replica return.
use infralens.Prelude.{Bytes}

pub data ClusterError : Type 0 where
  empty_ring : ClusterError
  replication_failed : Bytes → Bytes → ClusterError
