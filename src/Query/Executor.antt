-- ===== src/Query/Executor.antt =====
-- crates/infralens-query/src/executor: the operators that pull batches, and the tree that a plan makes.
pub mod Filter
pub mod Scan
pub mod Limit
pub mod Aggregate
pub mod Polls
pub mod Sort
pub mod Tree
