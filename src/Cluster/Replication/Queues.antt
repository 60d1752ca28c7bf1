-- ===== src/Cluster/Replication/Queues.antt =====
-- Whole runs of a primary: the queues to its replicas are bounded and in order.
use infralens.Prelude.{
  ℕ, ◌+◌, ◌≡◌, refl, sym, ap, true, List, [], ◌∷◌, append_assoc, map, Bytes, length, list_eq,
  if◌then◌else◌, All, arith, inl, inr, Option-cases,
}
use infralens.Cluster.Membership.{ClusterView, grpc_addr}
use infralens.Cluster.Replication.{
  ReplicationEntry, ReplicaSender, ReplicationEngine, new, send_to, send_to_all, replicate_entry,
  receive, replica_send_loop_round,
}
use infralens.Cluster.Replication.Senders.{
  IsSender, All-weaken, All-change, older, get_or_create_sender_lem, after_sending_lem,
}

abbrev pub IsValid : ReplicationEngine → Type 0
IsValid r = All (IsSender r.sequence) r.senders

send_to_lem :
    (view : ClusterView) (n : ℕ) (entry : ReplicationEntry) (node_id : Bytes)
    (ss : List ReplicaSender)
    → entry.sequence ≡ n
    → All (IsSender (n + 1)) ss
    → All (IsSender (n + 1)) (send_to view entry node_id ss)
unfolding send_to
send_to_lem view n entry node_id ss is_n h = elim (Option-cases (grpc_addr node_id view)) [
  | inl no' ↦ rw (send_to, no') h
  | inr (addr, yes') ↦
      let made = get_or_create_sender_lem (n + 1) node_id addr ss h in
      rw (send_to, yes') (after_sending_lem n entry node_id _ _ is_n made.0 made.1)
]

send_to_all_lem :
    (view : ClusterView) (n : ℕ) (entry : ReplicationEntry) (ids : List Bytes)
    (ss : List ReplicaSender)
    → entry.sequence ≡ n
    → All (IsSender (n + 1)) ss
    → All (IsSender (n + 1)) (send_to_all view entry ids ss)
unfolding send_to_all
send_to_all_lem view n entry [] ss is_n h = h
send_to_all_lem view n entry (node_id ∷ ids) ss is_n h =
    send_to_all_lem view n entry ids _ is_n (send_to_lem view n entry node_id ss is_n h)

replicate_entry-IsValid :
    (view : ClusterView) (ids : List Bytes) (partition_key signal wal_bytes : Bytes)
    (r : ReplicationEngine)
    → IsValid r
    → IsValid (replicate_entry view ids partition_key signal wal_bytes r)
unfolding replicate_entry
replicate_entry-IsValid view ids partition_key signal wal_bytes r h =
    send_to_all_lem view r.sequence _ ids r.senders refl
      (All-weaken _ _ r.senders (older r.sequence) h)

receive-IsSender :
    (n : ℕ) (s : ReplicaSender) (waiting : List ReplicationEntry)
    → s.queue ≡ waiting
    → IsSender n s
    → IsSender n (receive s waiting)
receive-IsSender n s [] same h = h
receive-IsSender n s (e ∷ es) same h =
    let moved = append_assoc s.taken (e ∷ []) es in
    (ground (arith, h.0, ap length same), rw (moved, sym same) h.1, rw (moved, sym same) h.2)

replica_send_loop_round-IsValid :
    (node_id : Bytes) (r : ReplicationEngine)
    → IsValid r
    → IsValid (replica_send_loop_round node_id r)
unfolding replica_send_loop_round
replica_send_loop_round-IsValid node_id r h =
    All-change (IsSender r.sequence) (λ s. list_eq s.node_id node_id) (λ s. receive s s.queue)
      r.senders (λ s hs. receive-IsSender r.sequence s s.queue refl hs) h

-- A call of `replicate` with the view of that moment, a round of a send loop, or the end of a send loop's task.
pub data PrimaryEvent : Type 0 where
  write : ClusterView → List Bytes → Bytes → Bytes → Bytes → PrimaryEvent
  loop_round : Bytes → PrimaryEvent
  loop_end : Bytes → PrimaryEvent

-- The task of a send loop is gone, and its end of the channel with it.
unfoldable pub end_loop : Bytes → ReplicationEngine → ReplicationEngine
end_loop node_id r = record r {
  senders =
      map (λ s. if list_eq s.node_id node_id then record s { closed = true } else s) r.senders;
}

unfoldable pub primary_step : PrimaryEvent → ReplicationEngine → ReplicationEngine
primary_step (write view ids partition_key signal wal_bytes) r =
    replicate_entry view ids partition_key signal wal_bytes r
primary_step (loop_round node_id) r = replica_send_loop_round node_id r
primary_step (loop_end node_id) r = end_loop node_id r

unfoldable pub run_primary : List PrimaryEvent → ReplicationEngine → ReplicationEngine
run_primary [] r = r
run_primary (event ∷ events) r = run_primary events (primary_step event r)

primary_step-IsValid :
    (event : PrimaryEvent) (r : ReplicationEngine) → IsValid r → IsValid (primary_step event r)
unfolding primary_step end_loop
primary_step-IsValid (write view ids partition_key signal wal_bytes) r h =
    replicate_entry-IsValid view ids partition_key signal wal_bytes r h
primary_step-IsValid (loop_round node_id) r h = replica_send_loop_round-IsValid node_id r h
primary_step-IsValid (loop_end node_id) r h =
    All-change (IsSender r.sequence) (λ s. list_eq s.node_id node_id)
      (λ s. record s { closed = true }) r.senders (λ s hs. hs) h

run_primary-IsValid :
    (events : List PrimaryEvent) (r : ReplicationEngine)
    → IsValid r
    → IsValid (run_primary events r)
unfolding run_primary
run_primary-IsValid [] r h = h
run_primary-IsValid (event ∷ events) r h =
    run_primary-IsValid events (primary_step event r) (primary_step-IsValid event r h)

-- After any sequence of calls of `replicate`, rounds of send loops and ends of their tasks, at
-- most 4096 entries wait for a replica, and what its loop has taken followed by what waits is in
-- the order of the calls, each entry with a number below the next one to be given.
pub run_primary-new : (events : List PrimaryEvent) → IsValid (run_primary events new)
unfolding new
run_primary-new events = run_primary-IsValid events new tt
