-- ===== src/Cluster/Router.antt =====
-- crates/infralens-cluster/src/router.rs: the routing decision for a write, and the keys of its series.
pub mod Decision
pub mod Keys
use infralens.Prelude.{
  ℕ, ◌+◌, ◌-◌, ◌%◌, ◌^◌, Bool, not, Option, none, some, List, [], ◌∷◌, ◌++◌, Bytes, codes, ℤ, pos,
  negsuc, Result, ok, err, keep, take, list_eq,
}
use infralens.Decimal.{decimal}
use infralens.Cluster.Errors.{ClusterError}
use infralens.Cluster.Ring
use infralens.Cluster.Ring.{ConsistentHashRing}

pub record RoutingDecision : Type 0 where
  pub primary : Bytes
  pub replicas : List Bytes
  pub is_local : Bool

pub record ShardRouter : Type 0 where
  pub local_id : Bytes
  pub rep_factor : ℕ

abbrev pub unwrap_or {ℓ} : {A : Type ℓ} → Result A ClusterError → A → A
unwrap_or (ok a) d = a
unwrap_or (err e) d = d

-- `rep_factor - 1` of a u32 wraps at 0, as it does in a release build.
abbrev pub others : ℕ → ℕ
others rep_factor = (rep_factor + 2 ^ 32 - 1) % 2 ^ 32

-- `ring` is the ring of the membership's current view.
unfoldable pub route : (Bytes → ℕ) → ShardRouter → ConsistentHashRing → Bytes → RoutingDecision
route hash64 router ring series_key =
    let shard = Ring.for_key hash64 series_key in
    let primary = unwrap_or (Ring.primary_for shard ring) router.local_id in
    let replicas = unwrap_or (Ring.replica_nodes shard router.rep_factor ring) [] in
    record {
      primary = primary;
      replicas = take (others router.rep_factor) (keep (λ n. not (list_eq n primary)) replicas);
      is_local = list_eq primary router.local_id;
    }

-- `{}` of a signed integer.
abbrev pub signed : ℤ → Bytes
signed (pos n) = decimal n
signed (negsuc n) = 45 ∷ decimal (n + 1)

unfoldable pub log_series_key : Bytes → ℤ → Bytes
log_series_key partition severity =
    codes "logs|" ++ (partition ++ (codes "|sev=" ++ signed severity))

unfoldable pub metric_series_key : Bytes → Bytes → Bytes
metric_series_key partition name = codes "metrics|" ++ (partition ++ (codes "|" ++ name))

unfoldable pub span_series_key : Bytes → Bytes → Bytes
span_series_key partition service = codes "traces|" ++ (partition ++ (codes "|" ++ service))
