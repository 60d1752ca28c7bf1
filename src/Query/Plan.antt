-- ===== src/Query/Plan.antt =====
-- crates/infralens-query/src/planner.rs: the plans.
use infralens.Prelude.{ℕ, Bool, Option, List, Bytes}
use infralens.Query.Ast.{Expr, JoinKind}

pub record ScanOp : Type 0 where
  pub table : Bytes
  pub predicate : Option Expr
  pub projection : Option (List Bytes)
  pub partition_filter : List ℕ
  pub limit : Option ℕ

pub data JoinStrategy : Type 0 where
  nested_loop : JoinStrategy
  hash : JoinStrategy
  sort_merge : JoinStrategy

pub record AggExpr : Type 0 where
  pub func : Bytes
  pub arg : Option Expr
  pub alias : Bytes

pub data LogicalPlan : Type 0 where
  scan : ScanOp → LogicalPlan
  filter : Expr → LogicalPlan → LogicalPlan
  project : List Bytes → LogicalPlan → LogicalPlan
  aggregate : List Expr → List AggExpr → LogicalPlan → LogicalPlan
  sort : List (Expr × Bool) → LogicalPlan → LogicalPlan
  limit : ℕ → ℕ → LogicalPlan → LogicalPlan
  join : JoinKind → LogicalPlan → LogicalPlan → Expr → LogicalPlan

pub record PhysicalPlan : Type 0 where
  pub logical : LogicalPlan
  pub join_strategy : Option JoinStrategy
  pub batch_size : ℕ
