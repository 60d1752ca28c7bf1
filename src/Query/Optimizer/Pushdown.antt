-- ===== src/Query/Optimizer/Pushdown.antt =====
-- Pushing predicates into scans does not change the rows of a plan whose scans are fresh.
use infralens.Prelude.{ℕ, ◌≡◌, refl, ◌∙◌, ap, Bool, Option, none, some, List, Bytes, keep}
use infralens.Query.Ast.{Expr, JoinKind}
use infralens.Query.Optimizer.{predicate_pushdown, push_predicate}
use infralens.Query.Plan.{LogicalPlan, AggExpr, scan, filter, project, aggregate, sort, limit, join}

-- What the executor's operators do with rows: `source` reads the files of a scan, `cut` is the limit of
-- a scan, and the others are the operators of a plan.
pub record Operators (Row : Type 0) : Type 0 where
  pub source : Bytes → List ℕ → List Row
  pub cut : ℕ → List Row → List Row
  pub holds : Expr → Row → Bool
  pub projected : List Bytes → List Row → List Row
  pub grouped : List Expr → List AggExpr → List Row → List Row
  pub sorted : List (Expr × Bool) → List Row → List Row
  pub limited : ℕ → ℕ → List Row → List Row
  pub joined : JoinKind → Expr → List Row → List Row → List Row

module _ {Row : Type 0} (ops : Operators Row) where
  abbrev filter_by : Option Expr → List Row → List Row
  filter_by none rows = rows
  filter_by (some predicate) rows = keep (ops.holds predicate) rows

  abbrev cut_to : Option ℕ → List Row → List Row
  cut_to none rows = rows
  cut_to (some n) rows = ops.cut n rows

  -- The rows of a plan: a scan tests its predicate, then applies its limit.
  abbrev pub rows : LogicalPlan → List Row
  rows (scan s) = cut_to s.limit (filter_by s.predicate (ops.source s.table s.partition_filter))
  rows (filter predicate input) = keep (ops.holds predicate) (rows input)
  rows (project columns input) = ops.projected columns (rows input)
  rows (aggregate keys aggregates input) = ops.grouped keys aggregates (rows input)
  rows (sort keys input) = ops.sorted keys (rows input)
  rows (limit n offset input) = ops.limited n offset (rows input)
  rows (join kind left right condition) = ops.joined kind condition (rows left) (rows right)

  -- A scan that has no predicate and no limit yet.
  abbrev pub FreshScan : LogicalPlan → Type 0
  FreshScan (scan s) = (s.predicate ≡ none) × (s.limit ≡ none)
  FreshScan _ = Unit

  -- Every predicate that reaches a scan reaches a fresh one.
  abbrev pub Pushable : LogicalPlan → Type 0
  Pushable (scan s) = Unit
  Pushable (filter predicate input) = Pushable input × FreshScan (predicate_pushdown input)
  Pushable (project columns input) = Pushable input
  Pushable (aggregate keys aggregates input) = Pushable input
  Pushable (sort keys input) = Pushable input
  Pushable (limit n offset input) = Pushable input
  Pushable (join kind left right condition) = Pushable left × Pushable right

  rows-push_predicate :
      (predicate : Expr) (plan : LogicalPlan)
      → FreshScan plan
      → rows (push_predicate predicate plan) ≡ keep (ops.holds predicate) (rows plan)
  rows-push_predicate predicate (scan s) (no_predicate, no_limit) = rw (no_predicate, no_limit) refl
  rows-push_predicate predicate (filter p input) h = refl
  rows-push_predicate predicate (project columns input) h = refl
  rows-push_predicate predicate (aggregate keys aggregates input) h = refl
  rows-push_predicate predicate (sort keys input) h = refl
  rows-push_predicate predicate (limit n offset input) h = refl
  rows-push_predicate predicate (join kind left right condition) h = refl

  -- Whatever the operators do, pushing predicates down does not change the rows of a plan in which
  -- every predicate that reaches a scan reaches one without a predicate and a limit.
  pub rows-predicate_pushdown :
      (plan : LogicalPlan) → Pushable plan → rows (predicate_pushdown plan) ≡ rows plan
  unfolding predicate_pushdown
  rows-predicate_pushdown (scan s) h = refl
  rows-predicate_pushdown (filter predicate input) (h, fresh) =
      rows-push_predicate predicate (predicate_pushdown input) fresh
      ∙ ap (keep (ops.holds predicate)) (rows-predicate_pushdown input h)
  rows-predicate_pushdown (project columns input) h =
      ap (ops.projected columns) (rows-predicate_pushdown input h)
  rows-predicate_pushdown (aggregate keys aggregates input) h =
      ap (ops.grouped keys aggregates) (rows-predicate_pushdown input h)
  rows-predicate_pushdown (sort keys input) h =
      ap (ops.sorted keys) (rows-predicate_pushdown input h)
  rows-predicate_pushdown (limit n offset input) h =
      ap (ops.limited n offset) (rows-predicate_pushdown input h)
  rows-predicate_pushdown (join kind left right condition) (hl, hr) =
      ap (λ l. ops.joined kind condition l (rows (predicate_pushdown right)))
        (rows-predicate_pushdown left hl)
      ∙ ap (ops.joined kind condition (rows left)) (rows-predicate_pushdown right hr)
