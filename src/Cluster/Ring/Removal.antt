-- ===== src/Cluster/Ring/Removal.antt =====
-- A removed node is gone from the ring, and the keys of other nodes stay where they were.
use mathlib.Core.Path.{subst}
use native.Mathlib.Decide.{dec_lt}
use infralens.Prelude.{
  ℕ, zero, suc, ◌+◌, ◌≤◌, ◌<◌, ◌≡◌, ◌≢◌, refl, ◌∙◌, ap, List, [], ◌∷◌, ◌++◌, Bytes, Result, ok, All,
  All-append, arith, leb, ltb, ltb→lt, Bool-cases, inl, inr,
}
use infralens.Prelude.SortedMap
use infralens.Prelude.SortedMap.{IsAscending, Above, ℕ_order}
use infralens.Cluster.Errors.{ClusterError}
use infralens.Cluster.Ring.{
  ConsistentHashRing, position, remove_from, remove_node, primary_for, clockwise, first_node,
  range_from,
}
use infralens.Cluster.Ring.Replicas.{first_node_inv}
use infralens.Cluster.Ring.Owners.{Owned, IsValid, All-remove_from}

Above-ne : (p q : ℕ) (m : List (ℕ × Bytes)) → p ≤ q → Above q m → All (λ e. e.0 ≢ p) m
Above-ne p q [] le h = tt
Above-ne p q (e ∷ m) le h =
    (λ same. absurd (omega (arith, ltb→lt q e.0 h.0, same)), Above-ne p q m le h.1)

-- Removing a position of an ascending map leaves no entry there.
remove-gone :
    (p : ℕ) (m : List (ℕ × Bytes)) → IsAscending m → All (λ e. e.0 ≢ p) (SortedMap.remove p m)
unfolding SortedMap.remove
remove-gone p [] h = tt
remove-gone p ((q, n) ∷ m) h = elim (Bool-cases (ltb p q)) [
  | inl below ↦ rw below (ground arith, Above-ne p q m (ground arith) h.0)
  | inr other ↦ elim (Bool-cases (ltb q p)) [
    | inl above ↦ rw (other, above) (ground arith, remove-gone p m h.1)
    | inr same ↦ rw (other, same) (Above-ne p q m (ground arith) h.0)
  ]
]

All-of : {P : ℕ × Bytes → Type 0} (m : List (ℕ × Bytes)) → ((e : ℕ × Bytes) → P e) → All P m
All-of [] f = tt
All-of (e ∷ m) f = (f e, All-of m f)

All-zip :
    {P Q R : ℕ × Bytes → Type 0} (m : List (ℕ × Bytes))
    → ((e : ℕ × Bytes) → P e → Q e → R e)
    → All P m
    → All Q m
    → All R m
All-zip [] f p q = tt
All-zip (e ∷ m) f p q = (f e p.0 q.0, All-zip m f p.1 q.1)

ok_inj : (x y : Bytes) → ◌≡◌ {A = Result Bytes ClusterError} (ok x) (ok y) → x ≡ y
ok_inj x y h = cc

-- What holds of every entry holds of every entry met clockwise.
All-range_from :
    (P : ℕ × Bytes → Type 0) (shard : ℕ) (m : List (ℕ × Bytes))
    → All P m
    → All P (range_from shard m)
unfolding range_from
All-range_from P shard [] h = tt
All-range_from P shard ((q, n) ∷ m) h = ground (arith, All-range_from P shard m)

first_node-All :
    (P : Bytes → Type 0) (es : List (ℕ × Bytes)) (p : Bytes)
    → first_node es ≡ ok p
    → All (λ e. P e.1) es
    → P p
first_node-All P [] p h a = cc
first_node-All P ((q, n) ∷ es) p h a = subst P (ok_inj n p h) a.0

-- What holds of every node on the ring holds of a primary.
pub primary_for-All :
    (P : Bytes → Type 0) (shard : ℕ) (r : ConsistentHashRing) (p : Bytes)
    → primary_for shard r ≡ ok p
    → All (λ e. P e.1) r.ring
    → P p
unfolding primary_for clockwise
primary_for-All P shard r p h a = first_node-All P _ p h (
    All-append (λ e. P e.1) (range_from shard r.ring) r.ring
      (All-range_from (λ e. P e.1) shard r.ring a) a)

-- Removing another position does not change which entry comes first.
remove-first :
    (q : ℕ) (e : ℕ × Bytes) (es : List (ℕ × Bytes))
    → e.0 ≢ q
    → (es' : List (ℕ × Bytes)) × (SortedMap.remove q (e ∷ es) ≡ e ∷ es')
unfolding SortedMap.remove
remove-first q (p, n) es ne = elim (Bool-cases (ltb q p)) [
  | inl below ↦ (es, rw below)
  | inr other ↦ elim (Bool-cases (ltb p q)) [
    | inl above ↦ (SortedMap.remove q es, rw (other, above))
    | inr same ↦ absurd (ne (ground arith))
  ]
]

range_from-remove_some :
    (shard q : ℕ) (m : List (ℕ × Bytes)) (e : ℕ × Bytes) (es : List (ℕ × Bytes))
    → e.0 ≢ q
    → range_from shard m ≡ e ∷ es
    → (es' : List (ℕ × Bytes)) × (range_from shard (SortedMap.remove q m) ≡ e ∷ es')
unfolding range_from SortedMap.remove
range_from-remove_some shard q [] e es ne h = cc
range_from-remove_some shard q ((p, n) ∷ m) e es ne h = elim (Bool-cases (ltb q p)) [
  | inl below ↦ (es, rw below h)
  | inr other ↦ elim (Bool-cases (ltb p q)) [
    | inl above ↦ elim (Bool-cases (leb shard p)) [
      | inl here ↦ (SortedMap.remove q m, rw (other, above, here, range_from) (ground arith))
      | inr later ↦
          let (es', eq) = range_from-remove_some shard q m e es ne (ground arith) in
          (es', rw (other, above, later, range_from) eq)
    ]
    | inr same ↦ (es, rw (other, same) (ground arith))
  ]
]

range_from-remove_none :
    (shard q : ℕ) (m : List (ℕ × Bytes))
    → range_from shard m ≡ []
    → range_from shard (SortedMap.remove q m) ≡ []
unfolding range_from SortedMap.remove
range_from-remove_none shard q [] h = refl
range_from-remove_none shard q ((p, n) ∷ m) h = ground (arith, range_from-remove_none shard q m)

abbrev around : ℕ → List (ℕ × Bytes) → List (ℕ × Bytes)
around shard m = range_from shard m ++ m

-- The first entry clockwise, by what stands from the position on.
around-first :
    (shard q : ℕ) (m ahead : List (ℕ × Bytes)) (e : ℕ × Bytes) (es : List (ℕ × Bytes))
    → e.0 ≢ q
    → range_from shard m ≡ ahead
    → ahead ++ m ≡ e ∷ es
    → (es' : List (ℕ × Bytes)) × (around shard (SortedMap.remove q m) ≡ e ∷ es')
around-first shard q [] [] e es ne h eq = cc
around-first shard q (f ∷ m) [] e es ne h eq =
    let same : f ≡ e = cc in
    let (es', first) = remove-first q e m ne in
    (
      es',
      rw (range_from-remove_none shard q (f ∷ m) h)
          (ap (λ f. SortedMap.remove q (f ∷ m)) same ∙ first),
    )
around-first shard q m (f ∷ ahead) e es ne h eq =
    let (es', first) = range_from-remove_some shard q m e ahead ne (h ∙ ap (λ f. f ∷ ahead) (cc)) in
    (es' ++ SortedMap.remove q m, ap (λ l. l ++ SortedMap.remove q m) first)

around-remove :
    (shard q : ℕ) (m : List (ℕ × Bytes)) (e : ℕ × Bytes) (es : List (ℕ × Bytes))
    → e.0 ≢ q
    → around shard m ≡ e ∷ es
    → (es' : List (ℕ × Bytes)) × (around shard (SortedMap.remove q m) ≡ e ∷ es')
around-remove shard q m e es ne h = around-first shard q m (range_from shard m) e es ne refl h

module _ (hash64 : Bytes → ℕ) where
  -- After the loop no entry stands at a virtual position of the node.
  remove_from-gone :
      (rounds i : ℕ) (node_id : Bytes) (ring : List (ℕ × Bytes))
      → IsAscending ring
      → All
          (λ e. (j : ℕ) → i ≤ j → j < i + rounds → e.0 ≢ position hash64 node_id j)
          (remove_from hash64 rounds i node_id ring)
  unfolding remove_from
  remove_from-gone zero i node_id ring h = All-of ring (λ e j le lt. absurd (omega arith))
  remove_from-gone (suc rounds) i node_id ring h =
      let p = position hash64 node_id i in
      let ring' = SortedMap.remove p ring in
      All-zip (remove_from hash64 rounds (i + 1) node_id ring')
        (λ e here later j le lt. elim (dec_lt i j) [
          | yes after ↦ later j (omega arith) (omega arith)
          | no at ↦ λ same. here (same ∙ ap (position hash64 node_id) (omega arith))
        ])
        (All-remove_from hash64 (λ e. e.0 ≢ p) rounds (i + 1) node_id ring' (remove-gone p ring h))
        (remove_from-gone rounds (i + 1) node_id ring' (SortedMap.remove-IsAscending p ring h))

  -- No entry of a well-formed ring belongs to a node that was removed, whether positions collide
  -- or not.
  pub remove_node-gone :
      (node_id : Bytes) (r : ConsistentHashRing)
      → IsValid hash64 r
      → All (λ e. e.1 ≢ node_id) (remove_node hash64 node_id r).ring
  unfolding remove_node
  remove_node-gone node_id r v =
      All-zip _
        (λ e owned gone same.
          gone owned.0 (omega arith) (omega (arith, owned.1))
            (owned.2 ∙ ap (λ n. position hash64 n owned.0) same))
        (All-remove_from hash64 (Owned hash64 r.virtual_nodes) r.virtual_nodes 0 node_id r.ring
          v.owned)
        (remove_from-gone r.virtual_nodes 0 node_id r.ring v.ascending)

  around-remove_from :
      (shard rounds i : ℕ) (node_id : Bytes) (m : List (ℕ × Bytes)) (e : ℕ × Bytes)
      (es : List (ℕ × Bytes))
      → ((j : ℕ) → j < i + rounds → e.0 ≢ position hash64 node_id j)
      → around shard m ≡ e ∷ es
      → (es' : List (ℕ × Bytes)) × (around shard (remove_from hash64 rounds i node_id m) ≡ e ∷ es')
  unfolding remove_from
  around-remove_from shard zero i node_id m e es ne h = (es, h)
  around-remove_from shard (suc rounds) i node_id m e es ne h =
      let (es', h') =
        around-remove shard (position hash64 node_id i) m e es (ne i (omega arith)) h in
      around-remove_from shard rounds (i + 1) node_id _ e es' (λ j lt. ne j (omega arith)) h'

  -- The virtual positions of a node collide with no position that another node holds.
  abbrev pub NoCollision : Bytes → ConsistentHashRing → Type 0
  NoCollision node_id r =
      All (λ e. e.1 ≢ node_id → (j : ℕ) → j < r.virtual_nodes → e.0 ≢ position hash64 node_id j)
        r.ring

  -- A node that was removed from a well-formed ring is no primary any more.
  pub primary_for-remove_node_ne :
      (shard : ℕ) (node_id p : Bytes) (r : ConsistentHashRing)
      → IsValid hash64 r
      → primary_for shard (remove_node hash64 node_id r) ≡ ok p
      → p ≢ node_id
  primary_for-remove_node_ne shard node_id p r v h =
      primary_for-All (λ n. n ≢ node_id) shard (remove_node hash64 node_id r) p h
        (remove_node-gone node_id r v)

  -- Removing a node moves only its own keys: where its positions do not collide with those of
  -- other nodes, a key whose primary is another node keeps that primary.
  pub primary_for-remove_node :
      (shard : ℕ) (node_id p : Bytes) (r : ConsistentHashRing)
      → NoCollision node_id r
      → primary_for shard r ≡ ok p
      → p ≢ node_id
      → primary_for shard (remove_node hash64 node_id r) ≡ ok p
  unfolding primary_for clockwise remove_node
  primary_for-remove_node shard node_id p r apart h other =
      let Apart : ℕ × Bytes → Type 0 =
        λ e. e.1 ≢ node_id → (j : ℕ) → j < r.virtual_nodes → e.0 ≢ position hash64 node_id j in
      let (q, es, eq) = first_node_inv (around shard r.ring) p h in
      let all : All Apart ((q, p) ∷ es) = subst (All Apart) eq (
        All-append Apart (range_from shard r.ring) r.ring (All-range_from Apart shard r.ring apart)
          apart) in
      let (es', eq') =
        around-remove_from shard r.virtual_nodes 0 node_id r.ring (q, p) es
          (λ j lt. all.0 other j (omega arith)) eq in
      ap first_node eq'
