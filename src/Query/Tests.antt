-- ===== src/Query/Tests.antt =====
-- The planner, the optimizer and the limit operator at concrete inputs.
use infralens.Prelude.{
  false, ℕ, ◌≡◌, refl, true, Option, none, some, List, [], ◌∷◌, ◌++◌, map, ok, codes, take, drop,
  leb, arith, pos, Bool, ◌%◌, ◌==◌,
}
use infralens.Storage.ZoneMap.{ZoneMap}
use infralens.Query.Ast.{
  Expr, int, column, literal, bin_op, gt_eq, lt_eq, and, expression, SelectStatement, nil, function,
}
use infralens.Common.Schema.{log_schema}
use infralens.Query.Catalog
use infralens.Query.Catalog.{
  Catalog, TableDesc, from_schema, update_stats, overlapping_partitions, table_stats, lookup,
}
use infralens.Query.Executor.Scan.{retain_rows}
use infralens.Query.Executor.Scan.Limited
use infralens.Query.Executor.Scan.Limited.{take-retain_rows}
use infralens.Query.Executor.Limit
use infralens.Query.Executor.Limit.Rows.{drain}
use infralens.Query.Optimizer.{predicate_pushdown, extract_time_range, prune_scan}
use infralens.Query.Optimizer.Pushdown.{Operators, rows, rows-predicate_pushdown}
use infralens.Query.Optimizer.TimeRange.{admits, selected, bounds_ok, prune_scan-selected}
use infralens.Query.Plan.{ScanOp, LogicalPlan, filter, limit}
use infralens.Query.Planner.{plan_select, base_scan, extract_aggregates}
use infralens.Query.Planner.Stages.{from}
use infralens.Query.Planner.Having.{ungrouped, having-replaces-where}

abbrev batches : List (List ℕ)
batches = (1 ∷ 2 ∷ 3 ∷ []) ∷ [] ∷ (4 ∷ 5 ∷ []) ∷ (6 ∷ []) ∷ []

drain-batches : drain 5 (Limit.new (map ok batches) 2 2) ≡ some (ok (3 ∷ 4 ∷ []))
unfolding drain Limit.new Limit.poll_next Limit.pull
drain-batches = refl

abbrev ts : Expr
ts = column none (codes "timestamp_ns")

abbrev in_range : Expr
in_range =
    bin_op and (bin_op gt_eq ts (literal (int (pos 100))))
      (bin_op lt_eq ts (literal (int (pos 200))))

in_range_found : extract_time_range in_range ≡ some (100, 200)
unfolding extract_time_range
in_range_found = refl

in_range_ok : bounds_ok in_range ≡ true
unfolding bounds_ok
in_range_ok = refl

in_range-admits : admits 150 in_range ≡ true
unfolding admits
in_range-admits = refl

abbrev zone : ℕ → ℕ → ZoneMap
zone low high = record { min_timestamp_ns = low; max_timestamp_ns = high; row_count = 10 }

abbrev two_partitions : Catalog
two_partitions =
    update_stats (codes "logs") ((1, zone 120 180) ∷ (2, zone 300 400) ∷ []) Catalog.new

abbrev logs : TableDesc
logs = record (from_schema (codes "logs") log_schema) {
  stats = table_stats (1, zone 120 180) ∷ table_stats (2, zone 300 400) ∷ [];
}

logs_found : lookup (codes "logs") two_partitions.tables ≡ some logs
unfolding update_stats Catalog.new
logs_found = refl

-- The source's test of the columns.
logs_resolved :
    Catalog.column (codes "timestamp_ns") logs
    ≡ some (record {
      name = codes "timestamp_ns";
      data_type = infralens.Common.Schema.uint64_type;
      nullable = false;
    })
logs_resolved = refl

abbrev scan_logs : ScanOp
scan_logs = record {
  table = codes "logs";
  predicate = some in_range;
  projection = none;
  partition_filter = [];
  limit = none;
}

prune_scan-selected_example :
    selected 1 (prune_scan two_partitions scan_logs).partition_filter ≡ true
prune_scan-selected_example =
    prune_scan-selected two_partitions scan_logs in_range logs (table_stats (1, zone 120 180)) []
      (table_stats (2, zone 300 400) ∷ []) 150 refl refl logs_found refl (omega arith) (omega arith)
      (omega arith) in_range_ok in_range-admits

-- Rows are numbers, a predicate holds of those up to 4, and the operators do nothing.
abbrev toy_operators : Operators ℕ
toy_operators = record {
  source = λ table keys. 1 ∷ 9 ∷ 3 ∷ [];
  cut = take;
  holds = λ e n. leb n 4;
  projected = λ columns l. l;
  grouped = λ keys aggregates l. l;
  sorted = λ keys l. l;
  limited = λ n offset l. take n (drop offset l);
  joined = λ kind condition l r. l ++ r;
}

abbrev filtered_plan : LogicalPlan
filtered_plan = limit 1 0 (filter in_range (base_scan (codes "logs") none))

rows-predicate_pushdown_example :
    rows toy_operators (predicate_pushdown filtered_plan) ≡ rows toy_operators filtered_plan
unfolding predicate_pushdown
rows-predicate_pushdown_example =
    rows-predicate_pushdown toy_operators filtered_plan (tt, (refl, refl))

abbrev some_select : SelectStatement
some_select = record {
  projections = expression ts none ∷ expression (function (codes "COUNT") nil) none ∷ [];
  from = record { name = codes "logs"; alias = none };
  joins = [];
  filter = some in_range;
  group_by = ts ∷ [];
  having = none;
  order_by = [];
  limit = some 10;
  offset = none;
}

no_aggregates : extract_aggregates (expression ts none ∷ []) ≡ []
unfolding extract_aggregates
no_aggregates = refl

having-replaces-where_example :
    let planned = λ (condition : Option Expr). plan_select (
      ungrouped
        (expression ts none ∷ [])
        (record { name = codes "logs"; alias = none })
        condition
        (some ts)
        []
        (some 5)
        none) in
    predicate_pushdown (planned (some in_range)) ≡ predicate_pushdown (planned none)
having-replaces-where_example =
    having-replaces-where (expression ts none ∷ []) (record { name = codes "logs"; alias = none })
      in_range ts [] (some 5) none no_aggregates

-- The rows that are answered with true are the even ones.
abbrev even_rows : List ℕ → List (Option Bool)
even_rows = map (λ n. some (n % 2 == 0))

take-retain_rows_example :
    take 4 (Limited.rows_of (retain_rows 4 0 batches)) ≡ take 4 (Limited.rows_of batches)
take-retain_rows_example = take-retain_rows 4 batches
