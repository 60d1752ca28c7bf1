-- ===== src/Cluster/Tests.antt =====
-- The ring, the membership view and the router at concrete inputs.
use infralens.Prelude.{
  ℕ, ◌≡◌, ◌≢◌, refl, ap, Option, some, List, [], ◌∷◌, Bytes, ok, codes, list_eq, sum, take, arith,
  from_le_bytes,
}
use infralens.Prelude.SortedMap
use infralens.Cluster.Ring
use infralens.Cluster.Ring.{
  ConsistentHashRing, primary_for, replica_nodes, clockwise, add_node, remove_node,
}
use infralens.Cluster.Ring.Replicas.{Distinct, names, firsts, replica_nodes-firsts}
use infralens.Cluster.Ring.Owners
use infralens.Cluster.Ring.Removal
use infralens.Cluster.Ring.Removal.{
  remove_node-gone, primary_for-remove_node, primary_for-remove_node_ne,
}
use infralens.Cluster.Membership
use infralens.Cluster.Membership.{
  NodeMeta, ClusterView, Event, put, delete, watch, load_view, grpc_addr,
}
use infralens.Cluster.Membership.Alive
use infralens.Cluster.Router.{ShardRouter, route}
use infralens.Cluster.Router.Decision.{route_lem}

-- A hash without collisions on short texts.
abbrev toy_hash : Bytes → ℕ
toy_hash bs = from_le_bytes bs

abbrev node_a : Bytes
node_a = 1 ∷ []

abbrev node_b : Bytes
node_b = 2 ∷ []

abbrev one_node : ConsistentHashRing
one_node = add_node toy_hash node_a (Ring.new 2)

abbrev two_nodes : ConsistentHashRing
two_nodes = add_node toy_hash node_b one_node

two_nodes-IsValid : Owners.IsValid toy_hash two_nodes
two_nodes-IsValid =
    Owners.add_node-IsValid toy_hash node_b one_node
      (Owners.add_node-IsValid toy_hash node_a (Ring.new 2) (Owners.new-IsValid toy_hash 2))

abbrev first_shard : ℕ
first_shard = 1

primary_a : primary_for first_shard two_nodes ≡ ok node_a
unfolding primary_for clockwise add_node Ring.add_from Ring.new Ring.position Ring.virtual_key
    SortedMap.insert
primary_a = refl

replica_nodes_two : replica_nodes first_shard 3 two_nodes ≡ ok (node_a ∷ node_b ∷ [])
unfolding replica_nodes Ring.collect clockwise add_node Ring.add_from Ring.new Ring.position
    Ring.virtual_key SortedMap.insert
replica_nodes_two = refl

two_nodes_some : two_nodes.ring ≢ []
unfolding add_node Ring.add_from Ring.new Ring.position Ring.virtual_key SortedMap.insert
two_nodes_some h = cc

replica_nodes-firsts_example :
    replica_nodes first_shard 3 two_nodes
    ≡ ok (take 3 (firsts [] (names (clockwise first_shard two_nodes))))
replica_nodes-firsts_example = replica_nodes-firsts first_shard 3 two_nodes two_nodes_some

primary_without_b : primary_for first_shard (remove_node toy_hash node_b two_nodes) ≡ ok node_a
unfolding primary_for clockwise remove_node Ring.remove_from SortedMap.remove add_node Ring.add_from
    Ring.new Ring.position Ring.virtual_key SortedMap.insert
primary_without_b = refl

two_nodes_apart : Removal.NoCollision toy_hash node_b two_nodes
unfolding add_node Ring.add_from Ring.new Ring.position Ring.virtual_key SortedMap.insert
two_nodes_apart = (
  λ ne j lt same. omega (arith, same),
  (
    λ ne j lt same. absurd (ne refl),
    (λ ne j lt same. omega (arith, same), (λ ne j lt same. absurd (ne refl), tt)),
  ),
)

primary_for-remove_node_example :
    primary_for first_shard (remove_node toy_hash node_b two_nodes) ≡ ok node_a
primary_for-remove_node_example =
    primary_for-remove_node toy_hash first_shard node_b node_a two_nodes two_nodes_apart primary_a
      (λ same. omega (arith, ap sum same))

abbrev node_of : Bytes → Option NodeMeta
node_of value =
    some (record {
      node_id = value;
      internal_grpc_addr = codes "a:1";
      version = [];
      started_at_ns = 0;
    })

abbrev some_events : List Event
some_events = put [] node_b ∷ delete (codes "/infralens/nodes/b") ∷ []

primary_loaded :
    primary_for first_shard
      (watch toy_hash node_of some_events (load_view toy_hash node_of (node_a ∷ []) 2)).ring
    ≡ ok node_a
unfolding watch load_view Membership.load_from Membership.handle_event Membership.put_node
    Membership.delete_node Membership.trim_start_matches Membership.trim_from
    Membership.strip_prefix Membership.nodes_prefix primary_for clockwise remove_node
    Ring.remove_from SortedMap.remove add_node Ring.add_from Ring.new Ring.position Ring.virtual_key
    SortedMap.insert
primary_loaded = refl

grpc_addr-primary_for_example :
    (addr : Bytes) × (grpc_addr node_a
        (watch toy_hash node_of some_events (load_view toy_hash node_of (node_a ∷ []) 2))
      ≡ some addr)
grpc_addr-primary_for_example =
    Alive.grpc_addr-primary_for toy_hash node_of (node_a ∷ []) 2 some_events first_shard node_a
      primary_loaded

abbrev router_a : ShardRouter
router_a = record { local_id = node_a; rep_factor = 2 }

-- The series key whose position is `first_shard`.
abbrev series : Bytes
series = 1 ∷ []

route_lem_example :
    let decision = route toy_hash router_a two_nodes series in
    (decision.primary ≡ node_a)
    × (replica_nodes (Ring.for_key toy_hash series) 2 two_nodes ≡ ok (node_a ∷ decision.replicas))
    × Distinct (node_a ∷ []) decision.replicas
    × (decision.is_local ≡ list_eq node_a node_a)
unfolding Ring.for_key
route_lem_example =
    route_lem toy_hash router_a two_nodes series node_a (omega arith) (omega arith) primary_a
