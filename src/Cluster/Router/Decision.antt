-- ===== src/Cluster/Router/Decision.antt =====
-- What a routing decision promises: the primary is not among the replicas, and a replication factor
-- of `n` gives the first `n` distinct nodes, one of them the primary.
use mathlib.Core.Path.{subst}
use infralens.Prelude.{
  ℕ, ◌^◌, ◌<◌, ◌≡◌, refl, sym, ◌∙◌, ap, true, not, List, [], ◌∷◌, ◌++◌, Bytes, ok, keep, take,
  list_eq, list_eq_refl, eq_of_list_eq, any-append_left, take_all, arith, Bool-cases, inl, inr,
}
use infralens.Cluster.Ring
use infralens.Cluster.Ring.{ConsistentHashRing, member}
use infralens.Cluster.Ring.Replicas.{Distinct, replica_nodes-Distinct, replica_nodes-primary_for}
use infralens.Cluster.Router.{ShardRouter, route, others}

-- Names that differ from those seen pass the test unchanged.
keep-Distinct :
    (p : Bytes) (seen ns : List Bytes)
    → member p seen ≡ true
    → Distinct seen ns
    → keep (λ n. not (list_eq n p)) ns ≡ ns
keep-Distinct p seen [] h d = refl
keep-Distinct p seen (n ∷ ns) h d = elim (Bool-cases (list_eq n p)) [
  | inl same ↦ absurd (cc (d.0, h, ap (λ x. member x seen) (eq_of_list_eq n p same)))
  | inr other ↦ rw other (
      ap (λ l. n ∷ l)
        (keep-Distinct p (seen ++ n ∷ []) ns (any-append_left (list_eq p) seen (n ∷ []) h) d.1))
]

-- On a ring with nodes and a positive 32-bit replication factor, the decision names the primary of
-- the series key, the other replicas in the order of `replica_nodes`, distinct and none of them
-- the primary, and is local exactly when the primary is this node.
pub route_lem :
    (hash64 : Bytes → ℕ) (router : ShardRouter) (ring : ConsistentHashRing) (key p : Bytes)
    → 0 < router.rep_factor
    → router.rep_factor < 2 ^ 32
    → Ring.primary_for (Ring.for_key hash64 key) ring ≡ ok p
    → let decision = route hash64 router ring key in
      (decision.primary ≡ p)
      × (Ring.replica_nodes (Ring.for_key hash64 key) router.rep_factor ring
          ≡ ok (p ∷ decision.replicas))
      × Distinct (p ∷ []) decision.replicas
      × (decision.is_local ≡ list_eq p router.local_id)
unfolding route
route_lem hash64 router ring key p pos small h =
    let shard = Ring.for_key hash64 key in
    let (ns, found) = replica_nodes-primary_for shard router.rep_factor ring p h in
    let (distinct, short) = replica_nodes-Distinct shard router.rep_factor ring (p ∷ ns) found in
    let same : keep (λ n. not (list_eq n p)) ns ≡ ns =
      keep-Distinct p (p ∷ []) ns (rw (list_eq_refl p) refl) distinct.1 in
    let whole : take (others router.rep_factor) ns ≡ ns =
      take_all (others router.rep_factor) ns (omega arith) in
    let chosen : take (others router.rep_factor) (keep (λ n. not (list_eq n p)) (p ∷ ns)) ≡ ns =
      rw (list_eq_refl p, same) whole in
    (
      rw h,
      found ∙ ap (λ l. ok (p ∷ l)) (sym (rw (h, found) chosen)),
      subst (Distinct (p ∷ [])) (sym (rw (h, found) chosen)) distinct.1,
      rw h,
    )
