-- ===== src/Query/Planner/Stages.antt =====
-- The stages of a planned statement, from the scan outwards.
use infralens.Prelude.{ℕ, Bool, Option, none, some, List, [], ◌∷◌, ◌++◌, Bytes, get_or_else}
use infralens.Query.Ast.{Expr, JoinKind, JoinClause, OrderByItem}
use infralens.Query.Plan.{LogicalPlan, AggExpr, scan, filter, project, aggregate, sort, limit, join}
use infralens.Query.Planner.{sort_keys}

-- What one stage of a statement does to the rows of the stages before it.
pub data Stage : Type 0 where
  from : Bytes → Option ℕ → Stage
  joined : JoinKind → Bytes → Expr → Stage
  where' : Expr → Stage
  grouped : List Expr → List AggExpr → Stage
  projected : List Bytes → Stage
  sorted : List (Expr × Bool) → Stage
  limited : ℕ → ℕ → Stage

abbrev table_of : LogicalPlan → Bytes
table_of (scan s) = s.table
table_of _ = []

abbrev pub stages : LogicalPlan → List Stage
stages (scan s) = from s.table s.limit ∷ []
stages (filter predicate input) = stages input ++ where' predicate ∷ []
stages (project columns input) = stages input ++ projected columns ∷ []
stages (aggregate keys aggregates input) = stages input ++ grouped keys aggregates ∷ []
stages (sort keys input) = stages input ++ sorted keys ∷ []
stages (limit n offset input) = stages input ++ limited n offset ∷ []
stages (join kind left right condition) = stages left ++ joined kind (table_of right) condition ∷ []

abbrev pub join_stage : JoinClause → Stage
join_stage j = joined j.kind j.table.name j.condition

abbrev pub filter_stages : Option Expr → List Stage
filter_stages none = []
filter_stages (some predicate) = where' predicate ∷ []

abbrev pub group_stages : List Expr → List AggExpr → List Stage
group_stages [] [] = []
group_stages keys aggregates = grouped keys aggregates ∷ []

abbrev pub project_stages : List Bytes → List Stage
project_stages [] = []
project_stages (c ∷ cs) = projected (c ∷ cs) ∷ []

abbrev pub sort_stages : List OrderByItem → List Stage
sort_stages [] = []
sort_stages (o ∷ os) = sorted (sort_keys (o ∷ os)) ∷ []

abbrev pub limit_stages : Option ℕ → Option ℕ → List Stage
limit_stages none offset = []
limit_stages (some n) offset = limited n (get_or_else offset 0) ∷ []
