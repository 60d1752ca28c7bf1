-- ===== src/Query/Optimizer.antt =====
-- crates/infralens-query/src/optimizer/rules.rs, mod.rs and cost.rs: the rewrites of a plan. `clock` is
-- what the system clock reads, in nanoseconds as an i64.
pub mod TimeRange
pub mod Pushdown
use infralens.Prelude.{
  ℕ, ◌+◌, ◌-◌, ◌^◌, Bool, true, false, ◌&&◌, ◌||◌, Option, none, some, List, [], ◌∷◌, Bytes, codes,
  list_eq, leb, ◌==◌, map, if◌then◌else◌, ℤ, pos, negsuc, ◌+ℤ◌, ◌-ℤ◌, ◌*ℤ◌, quot, rem, in_i64,
  as_u64, sum,
}
use infralens.Storage.ZoneMap.{u64_max}
use infralens.Query.Ast.{
  Expr, Exprs, nil, cons, BinOp, Literal, int, column, literal, bin_op, between, function, add, sub,
  mul, div, mod', gt_eq, lt_eq, and,
}
use infralens.Query.Catalog.{Catalog, TableDesc, overlapping_partitions}
use infralens.Query.Plan.{
  ScanOp, LogicalPlan, JoinStrategy, scan, filter, project, aggregate, sort, limit, join,
  nested_loop, hash, sort_merge,
}

unfoldable pub estimated_rows : TableDesc → ℕ
estimated_rows desc = sum (map (λ s. s.row_count) desc.stats)

unfoldable pub choose_join_strategy : ℕ → ℕ → JoinStrategy
choose_join_strategy left_rows right_rows =
    let small : ℕ = 10000 in
    let medium : ℕ = 1000000 in
    if leb left_rows small || leb right_rows small
    then nested_loop
    else if leb left_rows medium && leb right_rows medium
    then hash
    else sort_merge

abbrev pub as_int : Expr → Option ℤ
as_int (literal (int n)) = some n
as_int _ = none

abbrev is_zero : ℤ → Bool
is_zero (pos n) = n == 0
is_zero (negsuc n) = false

-- The checked operation on two literals; `none` folds nothing.
abbrev pub checked : BinOp → ℤ → ℤ → Option ℤ
checked add a b = in_i64 (a +ℤ b)
checked sub a b = in_i64 (a -ℤ b)
checked mul a b = in_i64 (a *ℤ b)
checked div a b = if is_zero b then none else in_i64 (quot a b)
checked mod' a b =
    if is_zero b then none else elim (in_i64 (quot a b)) [ none ↦ none | some q ↦ some (rem a b) ]
checked _ a b = none

abbrev pub folded : BinOp → Expr → Expr → Option ℤ
folded op l r = elim (as_int l) [
  | none ↦ none
  | some a ↦ elim (as_int r) [ none ↦ none | some b ↦ checked op a b ]
]

unfoldable pub fold_expr : ℤ → Expr → Expr
fold_expr clock (function name nil) =
    if list_eq name (codes "now") then literal (int clock) else function name nil
fold_expr clock (bin_op op left right) =
    let l = fold_expr clock left in
    let r = fold_expr clock right in
    elim (folded op l r) [ some v ↦ literal (int v) | none ↦ bin_op op l r ]
fold_expr clock other = other

abbrev pub map_option {ℓ} : {A B : Type ℓ} → (A → B) → Option A → Option B
map_option f none = none
map_option f (some a) = some (f a)

unfoldable pub transform_plan : (Expr → Expr) → LogicalPlan → LogicalPlan
transform_plan f (filter predicate input) = filter (f predicate) (transform_plan f input)
transform_plan f (scan s) = scan (record s { predicate = map_option f s.predicate })
transform_plan f (project columns input) = project columns (transform_plan f input)
transform_plan f (aggregate keys aggregates input) =
    aggregate keys aggregates (transform_plan f input)
transform_plan f (sort keys input) = sort keys (transform_plan f input)
transform_plan f (limit n offset input) = limit n offset (transform_plan f input)
transform_plan f (join kind left right condition) =
    join kind (transform_plan f left) (transform_plan f right) condition

unfoldable pub fold_constants : ℤ → LogicalPlan → LogicalPlan
fold_constants clock plan = transform_plan (fold_expr clock) plan

-- The predicate goes into a scan, and stays a filter over any other input.
abbrev pub push_predicate : Expr → LogicalPlan → LogicalPlan
push_predicate predicate (scan s) = scan (record s { predicate = some predicate })
push_predicate predicate other = filter predicate other

unfoldable pub predicate_pushdown : LogicalPlan → LogicalPlan
predicate_pushdown (filter predicate input) = push_predicate predicate (predicate_pushdown input)
predicate_pushdown (scan s) = scan s
predicate_pushdown (project columns input) = project columns (predicate_pushdown input)
predicate_pushdown (aggregate keys aggregates input) =
    aggregate keys aggregates (predicate_pushdown input)
predicate_pushdown (sort keys input) = sort keys (predicate_pushdown input)
predicate_pushdown (limit n offset input) = limit n offset (predicate_pushdown input)
predicate_pushdown (join kind left right condition) =
    join kind (predicate_pushdown left) (predicate_pushdown right) condition

abbrev pub push_projection : List Bytes → LogicalPlan → LogicalPlan
push_projection columns (scan s) = project columns (
    scan
      (record s { projection = elim s.projection [ none ↦ some columns | some cols ↦ some cols ] }))
push_projection columns other = project columns other

unfoldable pub projection_pushdown : LogicalPlan → LogicalPlan
projection_pushdown (project columns input) = push_projection columns (projection_pushdown input)
projection_pushdown (scan s) = scan s
projection_pushdown (filter predicate input) = filter predicate (projection_pushdown input)
projection_pushdown (aggregate keys aggregates input) =
    aggregate keys aggregates (projection_pushdown input)
projection_pushdown (sort keys input) = sort keys (projection_pushdown input)
projection_pushdown (limit n offset input) = limit n offset (projection_pushdown input)
projection_pushdown (join kind left right condition) =
    join kind (projection_pushdown left) (projection_pushdown right) condition

abbrev pub is_ts : Expr → Bool
is_ts (column table name) = list_eq name (codes "timestamp_ns")
is_ts _ = false

abbrev pub literal_u64 : Expr → Option ℕ
literal_u64 e = map_option as_u64 (as_int e)

-- Both ends where both sides have a range: the start of the left one, the end of the right one.
abbrev pub both : Option (ℕ × ℕ) → Option (ℕ × ℕ) → Option (ℕ × ℕ)
both (some l) (some r) = some (l.0, r.1)
both (some l) none = some l
both none r = r

unfoldable pub extract_time_range : Expr → Option (ℕ × ℕ)
extract_time_range (bin_op and left right) =
    both (extract_time_range left) (extract_time_range right)
extract_time_range (bin_op gt_eq left right) =
    if is_ts left then map_option (λ v. (v, u64_max)) (literal_u64 right) else none
extract_time_range (bin_op lt_eq left right) =
    if is_ts left then map_option (λ v. (0, v)) (literal_u64 right) else none
extract_time_range (between e low high) =
    if is_ts e
    then elim (literal_u64 low) [
      | none ↦ none
      | some lo ↦ map_option (λ hi. (lo, hi)) (literal_u64 high)
    ]
    else none
extract_time_range _ = none

abbrev pub restrict : Catalog → ScanOp → Option (ℕ × ℕ) → ScanOp
restrict catalog s none = s
restrict catalog s (some range) = record s {
  partition_filter = overlapping_partitions s.table range.0 range.1 catalog;
}

abbrev pub prune_by : Catalog → ScanOp → Option Expr → ScanOp
prune_by catalog s none = s
prune_by catalog s (some pred) = restrict catalog s (extract_time_range pred)

abbrev pub prune_scan : Catalog → ScanOp → ScanOp
prune_scan catalog s = prune_by catalog s s.predicate

unfoldable pub partition_prune : Catalog → LogicalPlan → LogicalPlan
partition_prune catalog (scan s) = scan (prune_scan catalog s)
partition_prune catalog (filter predicate input) = filter predicate (partition_prune catalog input)
partition_prune catalog (project columns input) = project columns (partition_prune catalog input)
partition_prune catalog (aggregate keys aggregates input) =
    aggregate keys aggregates (partition_prune catalog input)
partition_prune catalog (sort keys input) = sort keys (partition_prune catalog input)
partition_prune catalog (limit n offset input) = limit n offset (partition_prune catalog input)
partition_prune catalog (join kind left right condition) =
    join kind (partition_prune catalog left) (partition_prune catalog right) condition

unfoldable pub optimize : ℤ → Catalog → LogicalPlan → LogicalPlan
optimize clock catalog plan =
    partition_prune catalog (projection_pushdown (predicate_pushdown (fold_constants clock plan)))
