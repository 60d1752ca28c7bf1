-- ===== src/Cluster/Replication/Tests.antt =====
-- A primary with one replica at concrete inputs.
use infralens.Prelude.{◌≡◌, refl, List, [], ◌∷◌, ◌++◌, map, Bytes, codes, length}
use infralens.Cluster.Membership.{ClusterView, grpc_addr}
use infralens.Cluster.Ring
use infralens.Cluster.Replication
use infralens.Cluster.Replication.{ReplicaSender, ReplicationEngine, new}
use infralens.Cluster.Replication.Queues
use infralens.Cluster.Replication.Queues.{PrimaryEvent, run_primary, run_primary-new}

abbrev replica : Bytes
replica = 1 ∷ []

abbrev one_replica : ClusterView
one_replica = record {
  nodes =
      record {
        node_id = replica;
        internal_grpc_addr = codes "a:1";
        version = [];
        started_at_ns = 0;
      }
      ∷ [];
  ring = Ring.new 1;
}

abbrev write_one : PrimaryEvent
write_one = PrimaryEvent.write one_replica (replica ∷ (2 ∷ []) ∷ []) [] [] (1 ∷ [])

-- Two writes to a known and an unknown replica; the loop takes the first entry.
abbrev some_events : List PrimaryEvent
some_events = write_one ∷ write_one ∷ PrimaryEvent.loop_round replica ∷ []

-- The loop ends, the next write removes the channel, and the one after it makes another.
abbrev more_events : List PrimaryEvent
more_events = some_events ++ PrimaryEvent.loop_end replica ∷ write_one ∷ write_one ∷ []

one_waits :
    map
      (λ s. length (ReplicaSender.queue s))
      (ReplicationEngine.senders (run_primary some_events new))
    ≡ 1 ∷ []
unfolding run_primary Queues.primary_step Replication.replicate_entry Replication.send_to_all
    Replication.send_to grpc_addr Replication.get_or_create_sender Replication.fresh_sender
    Replication.try_send Replication.after_sending Replication.replica_send_loop_round new
one_waits = refl

run_primary-new_example : Queues.IsValid (run_primary more_events new)
run_primary-new_example = run_primary-new more_events
