-- ===== src/Cluster/Replication.antt =====
-- crates/infralens-cluster/src/replication.rs: the queues of a primary to its replicas, and what a
-- replica does with an entry. `view` is what the membership holds at the call. The sequence counter
-- does not reach 2^64; the number of queued copies is only logged and is left out. `none` is a panic
-- of the storage engine.
pub mod Senders
pub mod Queues
mod Tests
use infralens.Prelude.{
  ℕ, suc, ◌+◌, Bool, true, false, not, Option, none, some, List, [], ◌∷◌, ◌++◌, map, Bytes, codes,
  Result, ok, err, length, keep, list_eq, ltb, ◌==◌, if◌then◌else◌, ◌>>=◌,
}
use infralens.Cluster.Errors.{ClusterError}
use infralens.Cluster.Membership.{ClusterView, grpc_addr}
use infralens.Common.Model.{IngestBatch}
use infralens.Storage.Codec.{Codec}
use infralens.Storage.Engine.{StorageEngine, EngineParams, WriteResult, write_batch}
use infralens.Storage.Errors.{StorageError}

abbrev pub buffer_per_replica : ℕ
buffer_per_replica = 4096

pub record ReplicationEntry : Type 0 where
  pub sequence : ℕ
  pub partition_key : Bytes
  pub signal : Bytes
  pub wal_bytes : Bytes

-- The channel of one replica: what waits in it, what its send loop has taken from it, and whether the
-- loop is gone. `addr` is the address that the loop was started with.
pub record ReplicaSender : Type 0 where
  pub node_id : Bytes
  pub addr : Bytes
  pub queue : List ReplicationEntry
  pub taken : List ReplicationEntry
  pub closed : Bool

pub record ReplicationEngine : Type 0 where
  pub senders : List ReplicaSender
  pub sequence : ℕ

unfoldable pub new : ReplicationEngine
new = record { senders = []; sequence = 0 }

abbrev pub find_sender : Bytes → List ReplicaSender → Option ReplicaSender
find_sender node_id [] = none
find_sender node_id (s ∷ ss) = if list_eq s.node_id node_id then some s else find_sender node_id ss

unfoldable pub fresh_sender : Bytes → Bytes → ReplicaSender
fresh_sender node_id addr = record {
  node_id = node_id;
  addr = addr;
  queue = [];
  taken = [];
  closed = false;
}

unfoldable pub get_or_create_sender :
    Bytes → Bytes → List ReplicaSender → ReplicaSender × List ReplicaSender
get_or_create_sender node_id addr senders = elim (find_sender node_id senders) [
  | some s ↦ (s, senders)
  | none ↦ (fresh_sender node_id addr, senders ++ fresh_sender node_id addr ∷ [])
]

pub data Sending : Type 0 where
  queued : ReplicaSender → Sending
  full : Sending
  gone : Sending

unfoldable pub try_send : ReplicationEntry → ReplicaSender → Sending
try_send entry s =
    if s.closed
    then gone
    else if ltb (length s.queue) buffer_per_replica
    then queued (record s { queue = s.queue ++ entry ∷ [] })
    else full

abbrev pub put_sender : Bytes → ReplicaSender → List ReplicaSender → List ReplicaSender
put_sender node_id s senders = map (λ t. if list_eq t.node_id node_id then s else t) senders

unfoldable pub after_sending : Bytes → Sending → List ReplicaSender → List ReplicaSender
after_sending node_id (queued s) senders = put_sender node_id s senders
after_sending node_id full senders = senders
after_sending node_id gone senders = keep (λ t. not (list_eq t.node_id node_id)) senders

-- One round of the loop over the replicas.
unfoldable pub send_to :
    ClusterView → ReplicationEntry → Bytes → List ReplicaSender → List ReplicaSender
send_to view entry node_id senders = elim (grpc_addr node_id view) [
  | none ↦ senders
  | some addr ↦
      let (s, senders') = get_or_create_sender node_id addr senders in
      after_sending node_id (try_send entry s) senders'
]

unfoldable pub send_to_all :
    ClusterView → ReplicationEntry → List Bytes → List ReplicaSender → List ReplicaSender
send_to_all view entry [] senders = senders
send_to_all view entry (node_id ∷ ids) senders =
    send_to_all view entry ids (send_to view entry node_id senders)

unfoldable pub replicate_entry :
    ClusterView → List Bytes → Bytes → Bytes → Bytes → ReplicationEngine → ReplicationEngine
replicate_entry view replica_node_ids partition_key signal wal_bytes r = record {
  senders =
      send_to_all view
        (record {
          sequence = r.sequence;
          partition_key = partition_key;
          signal = signal;
          wal_bytes = wal_bytes;
        })
        replica_node_ids r.senders;
  sequence = r.sequence + 1;
}

-- A round of a replica's send loop takes the next entry.
abbrev pub receive : ReplicaSender → List ReplicationEntry → ReplicaSender
receive s [] = s
receive s (e ∷ es) = record s { queue = es; taken = s.taken ++ e ∷ [] }

unfoldable pub replica_send_loop_round : Bytes → ReplicationEngine → ReplicationEngine
replica_send_loop_round node_id r = record r {
  senders = map (λ s. if list_eq s.node_id node_id then receive s s.queue else s) r.senders;
}

module _ (params : EngineParams) (display : StorageError → Bytes) where
  unfoldable pub replication_result :
      WriteResult × StorageEngine → Result {0, 0} Unit ClusterError × StorageEngine
  replication_result (ok u, e) = (ok u, e)
  replication_result (err x, e) =
      (err (ClusterError.replication_failed (codes "local") (display x)), e)

  -- The record that was read, alone in a batch.
  unfoldable pub write_one :
      Option IngestBatch → StorageEngine → Option (Result {0, 0} Unit ClusterError × StorageEngine)
  write_one none e = some (ok tt, e)
  write_one (some batch) e = do
    written ← write_batch params batch e
    some (replication_result written)

  unfoldable pub read_record : ℕ → Bytes → Option IngestBatch
  read_record entry_type bytes =
      if entry_type == 1
      then (do r ← params.log_codec.deserialize bytes; some (IngestBatch.logs (r ∷ [])))
      else if entry_type == 2
      then (do r ← params.metric_codec.deserialize bytes; some (IngestBatch.metrics (r ∷ [])))
      else if entry_type == 3
      then (do r ← params.span_codec.deserialize bytes; some (IngestBatch.spans (r ∷ [])))
      else none

  abbrev pub apply_bytes :
      Bytes → StorageEngine → Option (Result {0, 0} Unit ClusterError × StorageEngine)
  apply_bytes [] e = some (ok tt, e)
  apply_bytes (entry_type ∷ bytes) e = write_one (read_record entry_type bytes) e

  unfoldable pub apply_replica_entry :
      ReplicationEntry → StorageEngine → Option (Result {0, 0} Unit ClusterError × StorageEngine)
  apply_replica_entry entry e = apply_bytes entry.wal_bytes e
