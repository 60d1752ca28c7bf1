-- ===== src/Cluster/Membership/Alive.antt =====
-- Every node that holds a position on the ring is a live node of the view, through every event.
use mathlib.Core.Path.{subst}
use infralens.Prelude.{
  ℕ, ◌≡◌, ◌≢◌, refl, sym, ◌∙◌, ap, true, false, not, Option, some, List, [], ◌∷◌, ◌++◌, Bytes, ok,
  keep, any, list_eq, list_eq_refl, eq_of_list_eq, All, arith, Bool-cases, Option-cases, inl, inr,
}
use infralens.Cluster.Ring
use infralens.Cluster.Ring.{ConsistentHashRing, primary_for}
use infralens.Cluster.Ring.Owners
use infralens.Cluster.Ring.Owners.{All-add_from, All-remove_from}
use infralens.Cluster.Ring.Removal.{remove_node-gone, primary_for-All}
use infralens.Cluster.Membership.{
  NodeMeta, ClusterView, Event, put, delete, is_alive, find_node, grpc_addr, put_node, delete_node,
  handle_event, watch, load_from, load_view,
}

abbrev Has : List NodeMeta → Bytes → Type 0
Has nodes node_id = any (λ n. list_eq n.node_id node_id) nodes ≡ true

Has-append_left : (xs ys : List NodeMeta) (id : Bytes) → Has xs id → Has (xs ++ ys) id
Has-append_left [] ys id h = cc
Has-append_left (x ∷ xs) ys id h = ground (arith, Has-append_left xs ys id)

Has-append_right : (xs ys : List NodeMeta) (id : Bytes) → Has ys id → Has (xs ++ ys) id
Has-append_right [] ys id h = h
Has-append_right (x ∷ xs) ys id h = ground (arith, Has-append_right xs ys id)

-- Dropping the nodes with one id keeps those with another.
Has-keep :
    (nodes : List NodeMeta) (gone id : Bytes)
    → gone ≢ id
    → Has nodes id
    → Has (keep (λ n. not (list_eq n.node_id gone)) nodes) id
Has-keep [] gone id ne h = h
Has-keep (n ∷ nodes) gone id ne h = elim (Bool-cases (list_eq n.node_id gone)) [
  | inl drop ↦
      let other : list_eq n.node_id id ≡ false = elim (Bool-cases (list_eq n.node_id id)) [
        | inl same ↦
            absurd (ne (sym (eq_of_list_eq n.node_id gone drop) ∙ eq_of_list_eq n.node_id id same))
        | inr e ↦ e
      ] in
      rw drop (Has-keep nodes gone id ne (rw other at h))
  | inr stay ↦ rw stay (ground (arith, Has-keep nodes gone id ne))
]

ne_of_list_eq : (xs ys : Bytes) → list_eq xs ys ≡ false → xs ≢ ys
ne_of_list_eq xs ys h e = cc (h, list_eq_refl xs, ap (list_eq xs) e)

All-imp :
    {P Q : ℕ × Bytes → Type 0} (m : List (ℕ × Bytes))
    → ((e : ℕ × Bytes) → P e → Q e)
    → All P m
    → All Q m
All-imp [] f h = tt
All-imp (e ∷ m) f h = (f e h.0, All-imp m f h.1)

All-and :
    (P Q : ℕ × Bytes → Type 0) (m : List (ℕ × Bytes)) → All P m → All Q m → All (λ e. P e × Q e) m
All-and P Q [] p q = tt
All-and P Q (e ∷ m) p q = ((p.0, q.0), All-and P Q m p.1 q.1)

module _ (hash64 : Bytes → ℕ) where
  pub record IsValid (view : ClusterView) : Type 0 where
    pub ring_valid : Owners.IsValid hash64 view.ring
    pub alive : All (λ e. is_alive e.1 view ≡ true) view.ring.ring

  -- The entry with the id of `meta` replaces an older one, and all others stay.
  put_node-IsValid :
      (meta : NodeMeta) (view : ClusterView) → IsValid view → IsValid (put_node hash64 meta view)
  unfolding put_node is_alive Ring.add_node
  put_node-IsValid meta view v =
      let others = keep (λ n. not (list_eq n.node_id meta.node_id)) view.nodes in
      let there : Has (others ++ meta ∷ []) meta.node_id =
        Has-append_right others (meta ∷ []) meta.node_id (rw (list_eq_refl meta.node_id) refl) in
      record {
        ring_valid = Owners.add_node-IsValid hash64 meta.node_id view.ring v.ring_valid;
        alive =
            All-add_from hash64 (λ e. Has (others ++ meta ∷ []) e.1) view.ring.virtual_nodes 0
              meta.node_id view.ring.ring (λ j lt. there)
              (All-imp view.ring.ring
                (λ e h. elim (Bool-cases (list_eq meta.node_id e.1)) [
                  | inl same ↦
                      subst (Has (others ++ meta ∷ [])) (eq_of_list_eq meta.node_id e.1 same) there
                  | inr other ↦ Has-append_left others (meta ∷ []) e.1 (
                      Has-keep view.nodes meta.node_id e.1 (ne_of_list_eq meta.node_id e.1 other) h)
                ])
                v.alive);
      }

  All-remove_node :
      (P : ℕ × Bytes → Type 0) (node_id : Bytes) (r : ConsistentHashRing)
      → All P r.ring
      → All P (Ring.remove_node hash64 node_id r).ring
  unfolding Ring.remove_node
  All-remove_node P node_id r h = All-remove_from hash64 P r.virtual_nodes 0 node_id r.ring h

  -- The deleted node loses its entry and its positions.
  delete_node-IsValid :
      (node_id : Bytes) (view : ClusterView)
      → IsValid view
      → IsValid (delete_node hash64 node_id view)
  unfolding delete_node is_alive
  delete_node-IsValid node_id view v = record {
    ring_valid = Owners.remove_node-IsValid hash64 node_id view.ring v.ring_valid;
    alive =
        All-imp _ (λ e h. Has-keep view.nodes node_id e.1 (λ same. h.1 (sym same)) h.0)
          (All-and (λ e. Has view.nodes e.1) (λ e. e.1 ≢ node_id) _
            (All-remove_node (λ e. Has view.nodes e.1) node_id view.ring v.alive)
            (remove_node-gone hash64 node_id view.ring v.ring_valid));
  }

  module _ (from_str : Bytes → Option NodeMeta) where
    handle_event-IsValid :
        (e : Event) (view : ClusterView)
        → IsValid view
        → IsValid (handle_event hash64 from_str e view)
    unfolding handle_event
    handle_event-IsValid (put key value) view v = elim (Option-cases (from_str value)) [
      | inl bad ↦ rw (bad, handle_event) v
      | inr (meta, good) ↦ rw (good, handle_event) (put_node-IsValid meta view v)
    ]
    handle_event-IsValid (delete key) view v = delete_node-IsValid _ view v

    -- Any events of the watch keep the ring well formed and every node on it alive.
    pub watch-IsValid :
        (es : List Event) (view : ClusterView)
        → IsValid view
        → IsValid (watch hash64 from_str es view)
    unfolding watch
    watch-IsValid [] view v = v
    watch-IsValid (e ∷ es) view v = watch-IsValid es _ (handle_event-IsValid e view v)

  load_node-IsValid :
      (meta : NodeMeta) (view : ClusterView)
      → IsValid view
      → IsValid (record {
        nodes = view.nodes ++ meta ∷ [];
        ring = Ring.add_node hash64 meta.node_id view.ring;
      })
  unfolding is_alive Ring.add_node
  load_node-IsValid meta view v =
      let there : Has (view.nodes ++ meta ∷ []) meta.node_id =
        Has-append_right view.nodes (meta ∷ []) meta.node_id
          (rw (list_eq_refl meta.node_id) refl) in
      record {
        ring_valid = Owners.add_node-IsValid hash64 meta.node_id view.ring v.ring_valid;
        alive =
            All-add_from hash64 (λ e. Has (view.nodes ++ meta ∷ []) e.1) view.ring.virtual_nodes 0
              meta.node_id view.ring.ring (λ j lt. there)
              (All-imp view.ring.ring (λ e h. Has-append_left view.nodes (meta ∷ []) e.1 h)
                v.alive);
      }

  load_from-IsValid :
      (from_str : Bytes → Option NodeMeta) (values : List Bytes) (view : ClusterView)
      → IsValid view
      → IsValid (load_from hash64 from_str values view)
  unfolding load_from
  load_from-IsValid from_str [] view v = v
  load_from-IsValid from_str (value ∷ values) view v = elim (Option-cases (from_str value)) [
    | inl bad ↦ rw bad (load_from-IsValid from_str values view v)
    | inr (meta, good) ↦
        rw good (load_from-IsValid from_str values _ (load_node-IsValid meta view v))
  ]

  pub load_view-IsValid :
      (from_str : Bytes → Option NodeMeta) (values : List Bytes) (virtual_nodes : ℕ)
      → IsValid (load_view hash64 from_str values virtual_nodes)
  unfolding load_view Ring.new
  load_view-IsValid from_str values virtual_nodes = load_from-IsValid from_str values _ (record {
    ring_valid = unfold Ring.new in Owners.new-IsValid hash64 virtual_nodes;
    alive = tt;
  })

  Has-find_node :
      (nodes : List NodeMeta) (id : Bytes)
      → Has nodes id
      → (n : NodeMeta) × (find_node id nodes ≡ some n)
  Has-find_node [] id h = cc
  Has-find_node (n ∷ nodes) id h = elim (Bool-cases (list_eq n.node_id id)) [
    | inl same ↦ (n, rw same)
    | inr other ↦ rw other (Has-find_node nodes id (rw other at h))
  ]

  -- After the initial load and any events of the watch, the node that the ring names as a primary
  -- has an address in the view.
  pub grpc_addr-primary_for :
      (from_str : Bytes → Option NodeMeta) (values : List Bytes) (virtual_nodes : ℕ)
      (es : List Event) (shard : ℕ) (p : Bytes)
      → primary_for shard
          (watch hash64 from_str es (load_view hash64 from_str values virtual_nodes)).ring
        ≡ ok p
      → (addr : Bytes) × (grpc_addr p
            (watch hash64 from_str es (load_view hash64 from_str values virtual_nodes))
          ≡ some addr)
  unfolding grpc_addr is_alive
  grpc_addr-primary_for from_str values virtual_nodes es shard p h =
      let view = watch hash64 from_str es (load_view hash64 from_str values virtual_nodes) in
      let v = watch-IsValid from_str es _ (load_view-IsValid from_str values virtual_nodes) in
      let (n, found) =
        Has-find_node view.nodes p
          (primary_for-All (λ id. Has view.nodes id) shard view.ring p h v.alive) in
      (n.internal_grpc_addr, rw (found, grpc_addr))
