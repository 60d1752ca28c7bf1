-- ===== src/Query/Executor/Tree/Tests.antt =====
-- A whole plan at concrete inputs: rows are numbers.
use infralens.Prelude.{ℕ, ◌≡◌, refl, true, false, none, some, List, [], ◌∷◌, map, codes, ok, ltb}
use infralens.Query.Ast.{Expr}
use infralens.Query.Executor.Limit.Rows.{concat}
use infralens.Query.Executor.Scan
use infralens.Query.Executor.Sort
use infralens.Query.Executor.Tree
use infralens.Query.Executor.Tree.{Executor, execute_plan}
use infralens.Query.Executor.Tree.Plans.{scanned, filtered, sorted, limited, execute_plan_lem}
use infralens.Query.Plan.{ScanOp, LogicalPlan}

-- Two files of the logs; the kernel turns the rows around.
abbrev turned : List ℕ → List ℕ → List ℕ
turned [] done = done
turned (r ∷ rows) done = turned rows (r ∷ done)

abbrev env : Executor ℕ
env = record {
  files = λ signal batch_size parts.
      ok (ok (1 ∷ 2 ∷ []) ∷ []) ∷ ok (ok (9 ∷ []) ∷ ok (3 ∷ []) ∷ []) ∷ [];
  mask = λ predicate rows. ok (map (λ r. some (ltb r 5)) rows);
  aggregated = λ keys aggregates child. ok [];
  columns = λ rows. codes "ts" ∷ [];
  lexsort = λ columns rows. ok (turned rows []);
}

abbrev ts : Expr
ts = Expr.column none (codes "ts")

abbrev logs : ScanOp
logs = record {
  table = codes "logs";
  predicate = none;
  projection = none;
  partition_filter = [];
  limit = none;
}

abbrev plan : LogicalPlan
plan =
    LogicalPlan.limit 1 1
      (LogicalPlan.sort ((ts, false) ∷ []) (LogicalPlan.filter ts (LogicalPlan.scan logs)))

loaded : Tree.load env 2 logs ≡ ok ((1 ∷ 2 ∷ []) ∷ (9 ∷ []) ∷ (3 ∷ []) ∷ [])
unfolding Tree.load Scan.load_batches Scan.signal_for_table Scan.read_files Scan.scanned_batches
loaded = refl

execute_plan_lem_example :
    (bs : List (List ℕ)) × (execute_plan env
        (record { logical = plan; join_strategy = none; batch_size = 2 })
      ≡ ok bs)
    × (concat bs ≡ 2 ∷ [])
unfolding Sort.sort_columns Sort.sort_column
execute_plan_lem_example = execute_plan_lem env 2 plan none (2 ∷ []) (
    limited 1 1 _ (3 ∷ 2 ∷ 1 ∷ []) (
      sorted ((ts, false) ∷ []) (codes "ts" ∷ []) _ (1 ∷ 2 ∷ 3 ∷ []) (3 ∷ 2 ∷ 1 ∷ []) (λ rs. refl)
        (refl, refl)
        (filtered ts (λ r. ltb r 5) _ (1 ∷ 2 ∷ 9 ∷ 3 ∷ []) (λ rs. refl) (scanned logs _ loaded))))

-- A key that is no column leaves the rows as they come.
unsorted :
    Sort.sort_batches env.columns env.lexsort
      ((Expr.column none (codes "b"), true) ∷ [])
      ((1 ∷ 2 ∷ []) ∷ [])
    ≡ ok ((1 ∷ 2 ∷ []) ∷ [])
unfolding Sort.sort_batches Sort.sort_columns Sort.sort_column
unsorted = refl
