-- ===== src/Lib.antt =====
-- InfraLens: an observability store. This library models its data model and its ingest, storage,
-- cluster and query crates.
--
-- Prelude holds the shared names: numbers and Boolean tests, lists, machine words as bytes, results,
-- signed integers, sums of weights (Prelude.Totals), and Prelude.SortedMap, the model of a `BTreeMap`
-- as an ascending association list. Decimal prints numbers.
--
-- Common (crates/infralens-common/src). Common.Model is model.rs: the records of logs, metrics and
-- spans. Common.Schema is schema.rs: the schemas of their files.
--
-- Ingest (crates/infralens-ingest/src). A handler normalises a client's message and submits the records
-- to a bounded channel; a writer task takes batches from it and hands them to the storage engine.
-- - Ingest.Proto is the part of the OTLP messages that is read.
-- - Ingest.Normalizer is normalizer.rs: `normalise_logs`, `normalise_metrics` and `normalise_spans`.
--   Normalizer.Metrics are the points of metrics, Normalizer.Attributes is about attribute maps, Normalizer.Records about number and order of the
--   records, Normalizer.Spans about the shape of spans.
-- - Ingest.Pipeline is processor.rs: submissions and the rounds of the writer task as events over the
--   channel and the engine of Storage.Engine; Pipeline.Delivered follows the batches. Ingest.Errors is error.rs.
-- - Ingest.Json is json_decoder.rs: values of JSON, attributes and ids; Json.Records are `decode_logs`,
--   `decode_metrics` and `decode_spans`, Json.Ids is about ids, Json.Spans about the shape of spans,
--   Json.Agreement, Json.Messages and Json.Logs compare the decoder with the normaliser.
-- - Ingest.Handlers is http.rs and grpc.rs: one handler over its signal, and its instances;
--   Handlers.Answers is about the status, Handlers.Formats about the three ways of the same logs.
--
-- Storage (crates/infralens-storage/src). A record is written to a memtable of its time bucket; a full
-- memtable is frozen, waits in the flush queue, and becomes an SSTable with a zone map and a Bloom filter
-- in the partition of its bucket; compaction makes one SSTable of all those of a signal.
-- - Storage.Engine is engine.rs: memtables by bucket, the flush queue, the partitions and what was dropped.
--   Engine.Weight counts the rows of each place, Engine.Write follows a row through the write path,
--   Engine.Flush and Engine.Drain through the flush worker and the forced flush, Engine.Steps each
--   operation, Engine.Accept a batch record by record, and Engine.Runs and Engine.Conserved any sequence
--   of events.
-- - Storage.MemTable is memtable.rs: MemTable.Order is the derived order of `RowKey`, MemTable.Write the
--   typed writers, MemTable.Rows what any writes leave.
-- - Storage.Partition is partition.rs: buckets and the SSTables of a signal, with Partition.Tables;
--   Partition.Stores are the directories of the three signals, Partition.Flushed the rows in them.
-- - Storage.SsTable is the writers of sstable.rs: SsTable.Rows builds the values of a row, SsTable.Columns
--   the columns of a batch, SsTable.Written says what is on disk afterwards.
-- - Storage.Compaction is compaction.rs, one pass over a partition; Compaction.Merged follows the rows.
-- - Storage.Wal is wal.rs: `Wal` is the file, the buffer of its writer and the offset; `append`, `sync`,
--   `checkpoint` and `recover` are the functions of those names. Wal.Entries and Wal.Loop read one
--   entry and one round, Wal.Recovery whole files, damaged and cut ones, Wal.Writer any sequence of
--   calls before a crash.
-- - Storage.ZoneMap is zone_map.rs, Storage.Bloom is bloom.rs: Bloom.Bits are the bits of a byte array,
--   Bloom.Membership says what is a member, Bloom.Serialised is the byte format. Storage.Codec is the
--   interface of bincode, Storage.Errors is error.rs.
--
-- Cluster (crates/infralens-cluster/src). The router asks the ring of the membership's view for the
-- nodes of a series key.
-- - Cluster.Ring is ring.rs: Ring.Owners is the invariant of the positions, Ring.Replicas the walk for
--   replicas, Ring.Removal the removal of a node.
-- - Cluster.Membership is membership.rs: the view and how the events of etcd change it;
--   Membership.Alive is its invariant.
-- - Cluster.Router is router.rs: the decision for one key; Router.Decision says what it promises,
--   Router.Keys is about the keys of series.
-- - Cluster.Replication is replication.rs: the queues of a primary to its replicas, which look up addresses
--   in the view of the membership, and the entries that a replica writes to its storage engine.
--   Replication.Senders is about one queue, Replication.Queues about whole runs. Cluster.Errors is error.rs.
--
-- Query (crates/infralens-query/src). A statement is planned, the plan is rewritten by rules that ask the
-- catalog for partitions, and operators pull batches, whose expressions the evaluator computes.
-- - Query.Lexer is lexer.rs: Lexer.Total is its end on every source, Lexer.Strings its string literals.
-- - Query.Parser is parser.rs: one function for each rule; Parser.Interval reads intervals, Parser.Chains
--   is about chains of one operator.
-- - Query.Ast is ast.rs, Query.Plan and Query.Planner are planner.rs: one helper for each clause of a
--   statement; Planner.Stages reads the stages of a plan, Planner.Having the case of a lost WHERE.
-- - Query.Optimizer is optimizer/rules.rs, mod.rs and cost.rs: Optimizer.TimeRange is the pruning of
--   partitions, Optimizer.Pushdown that of predicates, over any operators.
-- - Query.Catalog is catalog.rs.
-- - Query.Functions is functions/eval.rs and functions/temporal.rs: Functions.Values the values and helpers,
--   Functions.Temporal the functions over time, Functions.Eval the evaluator, Functions.Like the patterns
--   of LIKE; Functions.Sized, Functions.Operands, Functions.Window and Functions.Rows are about lengths.
-- - Query.Executor.Limit, Filter and Scan are executor/limit.rs, filter.rs and scan.rs, with Limit.Rows,
--   Filter.Rows and Scan.Limited for whole runs.
-- - Query.Executor.Aggregate is executor/aggregate.rs: Aggregate.Columns are names and values of columns,
--   Aggregate.Scalar the aggregates without GROUP BY, Aggregate.Groups those with it; Aggregate.Grouped,
--   Aggregate.Reads and Aggregate.Answers are about groups and what is computed of them, Aggregate.Extremes
--   about the aggregates without groups, Aggregate.Typed about the types of the columns.
-- - Query.Executor.Sort is executor/sort.rs. Query.Executor.Polls and Query.Executor.Tree are
--   executor/mod.rs: an operator is the list of what its polls return, and a plan builds a tree of them;
--   Tree.Rows and Tree.Plans follow the rows.
-- - Query.Execute is lib.rs, from a text to batches; Execute.Joined is about joins.
--
-- Bytes and characters are numbers, texts are lists of them, a floating-point number is its 64 bits.
-- Machine integers are natural numbers; where the code can wrap, the wrap-around is written out, and
-- counters that count calls are taken not to reach 2^64. Tasks and timers are events, and a theorem about
-- runs is about every order of them.
--
-- Fuel: the recovery loop has one unit more than the file has bytes, since every round but the last
-- consumes at least the nine bytes of a header; `trim_start_matches` has the length of the text, since
-- each removed prefix is not empty; `decimal` has more than digits; a caller of the limit or the filter
-- operator polls once more than the child has batches,
-- one of the sort operator twice more; the lexer has one unit more than bytes;
-- `work_rounds` is given as many rounds as the flush queue has places; the parser's fuel bounds the depth
-- of its calls and is given by its caller.
--
-- Parameters: the serialiser bincode, the texts of serde_json, the Parquet reader, the arrow kernels and
-- the operations on floats, the checksum of crc32fast, the keyed hash of the Bloom filter and the hash of
-- the ring (both the standard library's DefaultHasher), the two floating-point formulas of the Bloom
-- filter, the readers of serde_json and of floats, the standard library's parsing and trimming of texts,
-- arrow's constructor of a batch and its sort kernels, the texts of its types, the order of a hash map, the readers of bodies and
-- headers in axum and prost, the clock, the derived texts of tokens. A value of JSON is serde_json's,
-- with `get`, `as_str` and the like as documented.
--
-- Not modelled: disk and network errors other than those named, etcd's connection and lease, locks (each
-- operation is one step), the bytes of Parquet files, metrics and logging, the rpc and
-- server crates (tasks and sockets over the parts above), and the Kubernetes operator.
pub mod Prelude
pub mod Decimal
pub mod Common
pub mod Storage
pub mod Cluster
pub mod Ingest
pub mod Query
