-- ===== src/Query/Executor/Tree/Plans.antt =====
-- Whole plans: what an executed plan returns is what its operators name, one after the other.
use mathlib.Core.Path.{subst}
use infralens.Prelude.{
  ℕ, suc, ◌≡◌, refl, sym, ap, Bool, Option, some, List, [], ◌∷◌, append-nil, map, Bytes, keep,
  length, length-map, take, drop, ok, arith,
}
use infralens.Query.Ast.{Expr}
use infralens.Query.Executor.Limit.Rows.{concat}
use infralens.Query.Executor.Polls
use infralens.Query.Executor.Polls.{Polls, unroll, collect_polls_lem}
use infralens.Query.Executor.Sort
use infralens.Query.Executor.Sort.{SortColumn, sort_columns, sort_batches, sorted_by}
use infralens.Query.Executor.Tree.{
  Executor, load, filter_polls, limit_polls, sort_polls, Built, over, build_logical, build,
  execute_plan,
}
use infralens.Query.Executor.Tree.Rows.{Yields, filter_lem, limit_lem}
use infralens.Query.Plan.{ScanOp, LogicalPlan, JoinStrategy}

module _ {Row : Type 0} (env : Executor Row) (batch_size : ℕ) where
  -- Rows in the order of ORDER BY: the kernel's order by the keys that are columns, if any are.
  abbrev pub IsSortedBy : List SortColumn → List Row → List Row → Type 0
  IsSortedBy [] rows sorted = rows ≡ sorted
  IsSortedBy (c ∷ cs) rows sorted =
      (env.lexsort (c ∷ cs) rows ≡ ok sorted) × (length sorted ≡ length rows)

  -- The rows that a plan of one table names, without batches and operators. A scan that can be read gives
  -- its rows, a filter answers each row by itself, a projection keeps the rows as they are.
  pub data PlanRows : LogicalPlan → List Row → Type 0 where
    scanned :
        (op : ScanOp) (bs : List (List Row))
        → load env batch_size op ≡ ok bs
        → PlanRows (LogicalPlan.scan op) (concat bs)
    filtered :
        (predicate : Expr) (holds : Row → Bool) (input : LogicalPlan) (rows : List Row)
        → ((rs : List Row) → env.mask predicate rs ≡ ok (map (λ r. some (holds r)) rs))
        → PlanRows input rows
        → PlanRows (LogicalPlan.filter predicate input) (keep holds rows)
    projected :
        (columns : List Bytes) (input : LogicalPlan) (rows : List Row)
        → PlanRows input rows
        → PlanRows (LogicalPlan.project columns input) rows
    sorted :
        (keys : List (Expr × Bool)) (names : List Bytes) (input : LogicalPlan)
        (rows rows' : List Row)
        → ((rs : List Row) → env.columns rs ≡ names)
        → IsSortedBy (sort_columns names keys) rows rows'
        → PlanRows input rows
        → PlanRows (LogicalPlan.sort keys input) rows'
    limited :
        (n offset : ℕ) (input : LogicalPlan) (rows : List Row)
        → PlanRows input rows
        → PlanRows (LogicalPlan.limit n offset input) (take n (drop offset rows))

  no_rows : (cs : List SortColumn) (rows : List Row) → IsSortedBy cs [] rows → rows ≡ []
  no_rows [] rows h = sym h
  no_rows (c ∷ cs) [] h = refl
  no_rows (c ∷ cs) (r ∷ rows) h = absurd (omega (arith, h.1))

  sorted_by_lem :
      (cs : List SortColumn) (rows rows' : List Row)
      → IsSortedBy cs rows rows'
      → sorted_by env.columns env.lexsort cs rows ≡ ok (rows' ∷ [])
  sorted_by_lem [] rows rows' h = ap (λ r. ok (r ∷ [])) h
  sorted_by_lem (c ∷ cs) rows rows' h = rw h.0 refl

  sort_lem :
      (keys : List (Expr × Bool)) (names : List Bytes) (bs : List (List Row)) (rows' : List Row)
      → ((rs : List Row) → env.columns rs ≡ names)
      → IsSortedBy (sort_columns names keys) (concat bs) rows'
      → Yields (sort_polls env keys (map ok bs)) rows'
  unfolding sort_polls unroll Sort.poll_next Sort.new Sort.materialize sort_batches
      Polls.collect_polls
  sort_lem keys names [] rows' same h = ([], refl, sym (no_rows (sort_columns names keys) rows' h))
  sort_lem keys names (b ∷ bs) rows' same h =
      rw
        (
          Sort.materialize,
          collect_polls_lem (b ∷ bs),
          same b,
          sorted_by_lem (sort_columns names keys) (concat (b ∷ bs)) rows' h,
        )
        (rows' ∷ [], refl, append-nil rows')

  -- The operators of a plan could be made, and yield these rows.
  abbrev Makes : Built env → List Row → Type 0
  Makes built rows = (polls : Polls (List Row)) × (built ≡ ok polls) × Yields polls rows

  over_lem :
      (built : Built env) (f : Polls (List Row) → Polls (List Row)) (rows rows' : List Row)
      → Makes built rows
      → ((bs : List (List Row)) → concat bs ≡ rows → Yields (f (map ok bs)) rows')
      → Makes (over env built f) rows'
  over_lem built f rows rows' (polls, made, (bs, same, all)) k =
      (f polls, rw made refl, subst (λ p. Yields (f p) rows') (sym same) (k bs all))

  limit_polls_lem :
      (n offset : ℕ) (bs : List (List Row))
      → Yields (limit_polls env n offset (map ok bs)) (take n (drop offset (concat bs)))
  unfolding limit_polls
  limit_polls_lem n offset bs = rw (length-map ok bs) (limit_lem n offset bs)

  filter_polls_lem :
      (predicate : Expr) (holds : Row → Bool) (bs : List (List Row))
      → ((rs : List Row) → env.mask predicate rs ≡ ok (map (λ r. some (holds r)) rs))
      → Yields (filter_polls env predicate (map ok bs)) (keep holds (concat bs))
  unfolding filter_polls
  filter_polls_lem predicate holds bs answers =
      rw (length-map ok bs)
        (filter_lem (env.mask predicate) holds bs (suc (length bs)) answers (omega arith))

  build_logical_lem :
      (plan : LogicalPlan) (rows : List Row)
      → PlanRows plan rows
      → Makes (build_logical env batch_size plan) rows
  unfolding build_logical
  build_logical_lem plan rows (scanned op bs h) = (map ok bs, rw h refl, (bs, refl, refl))
  build_logical_lem plan rows (filtered predicate holds input rs answers h) =
      over_lem _ (filter_polls env predicate) rs (keep holds rs) (build_logical_lem input rs h)
        (λ bs all.
          subst (λ r. Yields (filter_polls env predicate (map ok bs)) (keep holds r)) all
            (filter_polls_lem predicate holds bs answers))
  build_logical_lem plan rows (projected columns input rs h) = build_logical_lem input rs h
  build_logical_lem plan rows (sorted keys names input rs rs' same is h) =
      over_lem _ (sort_polls env keys) rs rs' (build_logical_lem input rs h) (λ bs all.
        sort_lem keys names bs rs' same
          (subst (λ r. IsSortedBy (sort_columns names keys) r rs') (sym all) is))
  build_logical_lem plan rows (limited n offset input rs h) =
      over_lem _ (limit_polls env n offset) rs (take n (drop offset rs))
        (build_logical_lem input rs h)
        (λ bs all.
          subst (λ r. Yields (limit_polls env n offset (map ok bs)) (take n (drop offset r))) all
            (limit_polls_lem n offset bs))

  -- Executing a plan of scans that can be read, filters that answer each row by itself,
  -- projections, sorts and limits, in batches of any size, returns batches without an error, and
  -- their rows are exactly the rows that the plan names.
  pub execute_plan_lem :
      (plan : LogicalPlan) (strategy : Option JoinStrategy) (rows : List Row)
      → PlanRows plan rows
      → (bs : List (List Row)) × (execute_plan env
            (record { logical = plan; join_strategy = strategy; batch_size = batch_size })
          ≡ ok bs)
        × (concat bs ≡ rows)
  unfolding execute_plan build
  execute_plan_lem plan strategy rows h =
      let (polls, made, (bs, same, all)) = build_logical_lem plan rows h in
      (bs, rw (made, same, collect_polls_lem bs) refl, all)
