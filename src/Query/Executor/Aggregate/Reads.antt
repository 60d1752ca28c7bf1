-- ===== src/Query/Executor/Aggregate/Reads.antt =====
-- Batches as rows of a key and a value, and what the aggregate operator reads of them.
use mathlib.Core.Path.{subst}
use infralens.Prelude.{
  ℕ, ◌+◌, ◌≡◌, refl, sym, ◌∙◌, ap, Option, none, some, List, [], ◌∷◌, ◌++◌, map, Bytes, list_eq,
  length, length-append, append_assoc, keep, All, arith,
}
use infralens.Decimal.{decimal}
use infralens.Query.Ast.{Expr}
use infralens.Query.Functions.{ArrayData, RecordBatch, uint64_array, float64_array, number_values}
use infralens.Query.Executor.Aggregate.Columns.{AggregateParams, find_column, value, column_name}
use infralens.Query.Executor.Aggregate.Grouped.{Row, row_list}
use infralens.Query.Executor.Aggregate.Groups.{extract_group_key, row_range, float_at, extract_f64}

-- The key and the value of each row.
abbrev pub Pairs : Type 0
Pairs = List (ℕ × ℕ)

-- A batch with these rows: the keys are its first column.
pub record HasPairs (name : Bytes) (b : RecordBatch) (rows : Pairs) : Type 0 where
  pub label : Bytes
  pub others : List (Bytes × ArrayData)
  pub keys : b.columns ≡ (label, uint64_array (map (λ r. some r.0) rows)) ∷ others
  pub floats : find_column name b.columns ≡ some (float64_array (map (λ r. some r.1) rows))
  pub sized : b.num_rows ≡ length rows

abbrev pub all_pairs : List (RecordBatch × Pairs) → Pairs
all_pairs [] = []
all_pairs (p ∷ ps) = p.1 ++ all_pairs ps

-- The values of the rows whose key has this text.
abbrev pub values_of : Bytes → Pairs → List ℕ
values_of key rows = map (λ r. r.1) (keep (λ r. list_eq (decimal r.0) key) rows)

value_at :
    (f : ℕ × ℕ → ℕ) (before after : Pairs) (r : ℕ × ℕ)
    → value 0 (number_values (map (λ x. some (f x)) (before ++ r ∷ after))) (length before) ≡ f r
value_at f [] after r = refl
value_at f (x ∷ before) after r = value_at f before after r

module _ (params : AggregateParams) (table : Option Bytes) (name : Bytes) where
  -- What the operator reads of a row.
  abbrev pub Reads : Row → ℕ × ℕ → Type 0
  Reads r p =
      (extract_group_key r.0 r.1 ≡ some (decimal p.0))
      × (extract_f64 params r.0 r.1 (some (Expr.column table name)) ≡ some p.1)

  abbrev pub AllRead : List Row → Pairs → Type 0
  AllRead [] [] = Unit
  AllRead (r ∷ rs) (p ∷ ps) = Reads r p × AllRead rs ps
  AllRead _ _ = ⊥

  AllRead-append :
      (rs rs' : List Row) (ps ps' : Pairs)
      → AllRead rs ps
      → AllRead rs' ps'
      → AllRead (rs ++ rs') (ps ++ ps')
  AllRead-append [] rs' [] ps' h k = k
  AllRead-append [] rs' (p ∷ ps) ps' h k = absurd h
  AllRead-append (r ∷ rs) rs' [] ps' h k = absurd h
  AllRead-append (r ∷ rs) rs' (p ∷ ps) ps' h k = (h.0, AllRead-append rs rs' ps ps' h.1 k)

  read_lem :
      (b : RecordBatch) (before after : Pairs) (r : ℕ × ℕ)
      → HasPairs name b (before ++ r ∷ after)
      → Reads (b, length before) r
  unfolding extract_group_key extract_f64 column_name
  read_lem b before after r h = (
    rw h.keys (ap (λ k. some (decimal k)) (value_at (λ x. x.0) before after r)),
    ap (λ o. elim o [ none ↦ none | some array ↦ float_at params array (length before) ]) h.floats
        ∙ ap some (value_at (λ x. x.1) before after r),
  )

  range_lem :
      (b : RecordBatch) (before after : Pairs)
      → HasPairs name b (before ++ after)
      → AllRead (map (λ row. (b, row)) (row_range (length before) (length after))) after
  unfolding row_range
  range_lem b before [] h = tt
  range_lem b before (r ∷ after) h =
      let longer : length (before ++ r ∷ []) ≡ length before + 1 =
        omega (arith, length-append before (r ∷ [])) in
      (
        read_lem b before after r h,
        subst (λ n. AllRead (map (λ row. (b, row)) (row_range n (length after))) after) longer
            (range_lem b (before ++ r ∷ []) after
              (subst (HasPairs name b) (sym (append_assoc before (r ∷ []) after)) h)),
      )

  pub batches_read :
      (ps : List (RecordBatch × Pairs))
      → All (λ p. HasPairs name p.0 p.1) ps
      → AllRead (row_list (map (λ p. p.0) ps)) (all_pairs ps)
  batches_read [] h = tt
  batches_read ((b, rows) ∷ ps) h =
      AllRead-append _ _ rows (all_pairs ps)
        (subst (λ n. AllRead (map (λ row. (b, row)) (row_range 0 n)) rows) (sym h.0.sized)
          (range_lem b [] rows h.0))
        (batches_read ps h.1)
