-- ===== src/Cluster/Membership.antt =====
-- crates/infralens-cluster/src/membership.rs: the cluster view, and how the etcd watch changes it. An
-- event carries the key and value that etcd sent; `from_str` is serde's JSON reader, a parameter. The
-- connection, the lease and the spawned tasks are I/O and are not modelled.
pub mod Alive
use infralens.Prelude.{
  ℕ, zero, suc, Bool, true, false, not, Option, none, some, List, [], ◌∷◌, ◌++◌, map, Bytes, codes,
  length, keep, any, list_eq, if◌then◌else◌,
}
use infralens.Cluster.Ring
use infralens.Cluster.Ring.{ConsistentHashRing}

pub record NodeMeta : Type 0 where
  pub node_id : Bytes
  pub internal_grpc_addr : Bytes
  pub version : Bytes
  pub started_at_ns : ℕ

pub record ClusterView : Type 0 where
  pub nodes : List NodeMeta
  pub ring : ConsistentHashRing

unfoldable pub nodes_prefix : Bytes
nodes_prefix = codes "/infralens/nodes/"

unfoldable pub is_alive : Bytes → ClusterView → Bool
is_alive node_id view = any (λ n. list_eq n.node_id node_id) view.nodes

abbrev pub find_node : Bytes → List NodeMeta → Option NodeMeta
find_node node_id [] = none
find_node node_id (n ∷ ns) = if list_eq n.node_id node_id then some n else find_node node_id ns

unfoldable pub grpc_addr : Bytes → ClusterView → Option Bytes
grpc_addr node_id view = elim (find_node node_id view.nodes) [
  | none ↦ none
  | some n ↦ some n.internal_grpc_addr
]

-- The text without one leading `prefix`, if it has it.
unfoldable pub strip_prefix : Bytes → Bytes → Option Bytes
strip_prefix [] text = some text
strip_prefix (p ∷ ps) [] = none
strip_prefix (p ∷ ps) (c ∷ cs) = if list_eq (p ∷ []) (c ∷ []) then strip_prefix ps cs else none

-- `str::trim_start_matches` removes the prefix as often as it stands there.
unfoldable pub trim_from : ℕ → Bytes → Bytes → Bytes
trim_from zero pre text = text
trim_from (suc fuel) pre text = elim (strip_prefix pre text) [
  | none ↦ text
  | some rest ↦ trim_from fuel pre rest
]

unfoldable pub trim_start_matches : Bytes → Bytes → Bytes
trim_start_matches pre text = trim_from (length text) pre text

pub data Event : Type 0 where
  put : Bytes → Bytes → Event
  delete : Bytes → Event

module _ (hash64 : Bytes → ℕ) where
  unfoldable pub put_node : NodeMeta → ClusterView → ClusterView
  put_node meta view = record {
    nodes = keep (λ n. not (list_eq n.node_id meta.node_id)) view.nodes ++ meta ∷ [];
    ring = Ring.add_node hash64 meta.node_id view.ring;
  }

  unfoldable pub delete_node : Bytes → ClusterView → ClusterView
  delete_node node_id view = record {
    nodes = keep (λ n. not (list_eq n.node_id node_id)) view.nodes;
    ring = Ring.remove_node hash64 node_id view.ring;
  }

  module _ (from_str : Bytes → Option NodeMeta) where
    -- One event of the watch; a value that is no `NodeMeta` is passed over. Keys are in UTF-8, as the nodes
    -- write them.
    unfoldable pub handle_event : Event → ClusterView → ClusterView
    handle_event (put key value) view = elim (from_str value) [
      | none ↦ view
      | some meta ↦ put_node meta view
    ]
    handle_event (delete key) view = delete_node (trim_start_matches nodes_prefix key) view

    unfoldable pub watch : List Event → ClusterView → ClusterView
    watch [] view = view
    watch (e ∷ es) view = watch es (handle_event e view)

    -- The loop of `load_view` over the values that etcd returned.
    unfoldable pub load_from : List Bytes → ClusterView → ClusterView
    load_from [] view = view
    load_from (value ∷ values) view = load_from values (elim (from_str value) [
      | none ↦ view
      | some meta ↦ record {
        nodes = view.nodes ++ meta ∷ [];
        ring = Ring.add_node hash64 meta.node_id view.ring;
      }
    ])

    unfoldable pub load_view : List Bytes → ℕ → ClusterView
    load_view values virtual_nodes =
        load_from values (record { nodes = []; ring = Ring.new virtual_nodes })
