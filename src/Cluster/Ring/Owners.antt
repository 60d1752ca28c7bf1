-- ===== src/Cluster/Ring/Owners.antt =====
-- The invariant of a ring that was built by additions and removals.
use infralens.Prelude.{ℕ, zero, suc, ◌+◌, ◌<◌, ◌≡◌, refl, List, Bytes, All, arith}
use infralens.Prelude.SortedMap
use infralens.Prelude.SortedMap.{IsAscending, ℕ_order}
use infralens.Cluster.Ring.{
  ConsistentHashRing, new, position, add_from, remove_from, add_node, remove_node,
}

module _ (hash64 : Bytes → ℕ) where
  -- A position on the ring is a virtual position of the node that holds it.
  abbrev pub Owned : ℕ → ℕ × Bytes → Type 0
  Owned n e = (i : ℕ) × (i < n) × (e.0 ≡ position hash64 e.1 i)

  pub record IsValid (r : ConsistentHashRing) : Type 0 where
    pub ascending : IsAscending r.ring
    pub owned : All (Owned r.virtual_nodes) r.ring

  pub new-IsValid : (virtual_nodes : ℕ) → IsValid (new virtual_nodes)
  unfolding new
  new-IsValid virtual_nodes = record { ascending = tt; owned = tt }

  add_from-IsAscending :
      (rounds i : ℕ) (node_id : Bytes) (ring : List (ℕ × Bytes))
      → IsAscending ring
      → IsAscending (add_from hash64 rounds i node_id ring)
  unfolding add_from
  add_from-IsAscending zero i node_id ring h = h
  add_from-IsAscending (suc rounds) i node_id ring h =
      add_from-IsAscending rounds (i + 1) node_id _ (SortedMap.insert-IsAscending _ node_id ring h)

  pub All-add_from {μ} :
      (P : ℕ × Bytes → Type μ) (rounds i : ℕ) (node_id : Bytes) (ring : List (ℕ × Bytes))
      → ((j : ℕ) → j < i + rounds → P (position hash64 node_id j, node_id))
      → All P ring
      → All P (add_from hash64 rounds i node_id ring)
  unfolding add_from
  All-add_from P zero i node_id ring mine h = h
  All-add_from P (suc rounds) i node_id ring mine h =
      All-add_from P rounds (i + 1) node_id _ (λ j lt. mine j (omega arith))
        (SortedMap.All-insert P _ node_id ring (mine i (omega arith)) h)

  remove_from-IsAscending :
      (rounds i : ℕ) (node_id : Bytes) (ring : List (ℕ × Bytes))
      → IsAscending ring
      → IsAscending (remove_from hash64 rounds i node_id ring)
  unfolding remove_from
  remove_from-IsAscending zero i node_id ring h = h
  remove_from-IsAscending (suc rounds) i node_id ring h =
      remove_from-IsAscending rounds (i + 1) node_id _ (SortedMap.remove-IsAscending _ ring h)

  pub All-remove_from {μ} :
      (P : ℕ × Bytes → Type μ) (rounds i : ℕ) (node_id : Bytes) (ring : List (ℕ × Bytes))
      → All P ring
      → All P (remove_from hash64 rounds i node_id ring)
  unfolding remove_from
  All-remove_from P zero i node_id ring h = h
  All-remove_from P (suc rounds) i node_id ring h =
      All-remove_from P rounds (i + 1) node_id _ (SortedMap.All-remove P _ ring h)

  -- Adding a node keeps the ring in order and every position with an owner.
  pub add_node-IsValid :
      (node_id : Bytes) (r : ConsistentHashRing) → IsValid r → IsValid (add_node hash64 node_id r)
  unfolding add_node
  add_node-IsValid node_id r v = record {
    ascending = add_from-IsAscending r.virtual_nodes 0 node_id r.ring v.ascending;
    owned =
        All-add_from (Owned r.virtual_nodes) r.virtual_nodes 0 node_id r.ring
          (λ j lt. (j, omega arith, refl)) v.owned;
  }

  pub remove_node-IsValid :
      (node_id : Bytes) (r : ConsistentHashRing)
      → IsValid r
      → IsValid (remove_node hash64 node_id r)
  unfolding remove_node
  remove_node-IsValid node_id r v = record {
    ascending = remove_from-IsAscending r.virtual_nodes 0 node_id r.ring v.ascending;
    owned = All-remove_from (Owned r.virtual_nodes) r.virtual_nodes 0 node_id r.ring v.owned;
  }
