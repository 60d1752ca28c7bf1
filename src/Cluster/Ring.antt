-- ===== src/Cluster/Ring.antt =====
-- crates/infralens-cluster/src/ring.rs: the consistent hash ring. Node ids are texts, a position is a
-- 64-bit hash. `hash64` is the standard library's `DefaultHasher`, a parameter.
pub mod Owners
pub mod Replicas
pub mod Removal
use infralens.Prelude.{
  ℕ, zero, suc, ◌+◌, Bool, true, false, not, Option, none, some, List, [], ◌∷◌, ◌++◌, map, Bytes,
  Result, ok, err, length, any, list_eq, leb, if◌then◌else◌,
}
use infralens.Prelude.SortedMap
use infralens.Prelude.SortedMap.{ℕ_order}
use infralens.Decimal.{decimal}
use infralens.Cluster.Errors.{ClusterError, empty_ring}

pub record ConsistentHashRing : Type 0 where
  pub ring : List (ℕ × Bytes)
  pub virtual_nodes : ℕ
  pub version : ℕ

unfoldable pub new : ℕ → ConsistentHashRing
new virtual_nodes = record { ring = []; virtual_nodes = virtual_nodes; version = 0 }

-- `format!("{node_id}#{i}")`
unfoldable pub virtual_key : Bytes → ℕ → Bytes
unfolding decimal
virtual_key node_id i = node_id ++ b'#' ∷ decimal i

module _ (hash64 : Bytes → ℕ) where
  -- `ShardId::for_key`
  unfoldable pub for_key : Bytes → ℕ
  for_key key = hash64 key

  unfoldable pub position : Bytes → ℕ → ℕ
  position node_id i = hash64 (virtual_key node_id i)

  -- The loops over the virtual nodes, from `i` on.
  unfoldable pub add_from : ℕ → ℕ → Bytes → List (ℕ × Bytes) → List (ℕ × Bytes)
  add_from zero i node_id ring = ring
  add_from (suc rounds) i node_id ring =
      add_from rounds (i + 1) node_id (SortedMap.insert (position node_id i) node_id ring)

  unfoldable pub remove_from : ℕ → ℕ → Bytes → List (ℕ × Bytes) → List (ℕ × Bytes)
  remove_from zero i node_id ring = ring
  remove_from (suc rounds) i node_id ring =
      remove_from rounds (i + 1) node_id (SortedMap.remove (position node_id i) ring)

  -- The version counts topology changes and does not reach 2^64.
  unfoldable pub add_node : Bytes → ConsistentHashRing → ConsistentHashRing
  add_node node_id r = record r {
    ring = add_from r.virtual_nodes 0 node_id r.ring;
    version = r.version + 1;
  }

  unfoldable pub remove_node : Bytes → ConsistentHashRing → ConsistentHashRing
  remove_node node_id r = record r {
    ring = remove_from r.virtual_nodes 0 node_id r.ring;
    version = r.version + 1;
  }

-- `BTreeMap::range(position..)`
unfoldable pub range_from : ℕ → List (ℕ × Bytes) → List (ℕ × Bytes)
range_from pos [] = []
range_from pos ((p, n) ∷ m) = if leb pos p then (p, n) ∷ m else range_from pos m

-- The entries clockwise from a position: those from it on, then all.
unfoldable pub clockwise : ℕ → ConsistentHashRing → List (ℕ × Bytes)
unfolding range_from
clockwise shard r = range_from shard r.ring ++ r.ring

-- `.range(..).next().or_else(|| iter().next())` is the first entry clockwise.
abbrev pub first_node : List (ℕ × Bytes) → Result Bytes ClusterError
first_node [] = err empty_ring
first_node ((p, n) ∷ m) = ok n

unfoldable pub primary_for : ℕ → ConsistentHashRing → Result Bytes ClusterError
primary_for shard r = first_node (clockwise shard r)

abbrev pub member : Bytes → List Bytes → Bool
member n ns = any (list_eq n) ns

-- The loop of `replica_nodes`: `seen` is the hash set, `result` the vector.
unfoldable pub collect : List (ℕ × Bytes) → ℕ → List Bytes → List Bytes → List Bytes
collect [] count seen result = result
collect ((p, node) ∷ rest) count seen result =
    let fresh = not (member node seen) in
    let seen' = if fresh then seen ++ node ∷ [] else seen in
    let result' = if fresh then result ++ node ∷ [] else result in
    let more = collect rest count seen' result' in
    if leb count (length result') then result' else more

abbrev pub non_empty :
    List (ℕ × Bytes) → Result (List Bytes) ClusterError → Result (List Bytes) ClusterError
non_empty [] r = err empty_ring
non_empty (_ ∷ _) r = r

unfoldable pub replica_nodes : ℕ → ℕ → ConsistentHashRing → Result (List Bytes) ClusterError
replica_nodes shard count r = non_empty r.ring (ok (collect (clockwise shard r) count [] []))
