-- ===== src/Cluster.antt =====
-- crates/infralens-cluster: the hash ring, the membership view, the shard router and
-- the queues to replicas.
pub mod Errors
pub mod Ring
pub mod Membership
pub mod Router
pub mod Replication
mod Tests
