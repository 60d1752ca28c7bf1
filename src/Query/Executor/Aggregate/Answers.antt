-- ===== src/Query/Executor/Aggregate/Answers.antt =====
-- What a query with GROUP BY computes of one aggregate, key by key, where keys are unsigned numbers and
-- values are floats.
use mathlib.Core.Path.{subst}
use infralens.Prelude.{
  ℕ, ◌+◌, ◌<◌, ◌≡◌, refl, sym, ◌∙◌, ap, true, false, Option, none, some, List, [], ◌∷◌, map, Bytes,
  codes, list_eq, length, keep, All, ◌==◌, if◌then◌else◌, arith, Bool-cases, inl, inr,
}
use infralens.Decimal.{decimal}
use infralens.Query.Ast.{Expr}
use infralens.Query.Functions.{RecordBatch, done}
use infralens.Query.Executor.Aggregate.Columns.{
  GroupState, default_state, GroupMap, AggregateParams,
}
use infralens.Query.Executor.Aggregate.Extremes.{
  pick, IsExtreme, pick-IsExtreme, later, total_from, total,
}
use infralens.Query.Executor.Aggregate.Grouped.{
  Row, find_group, row_list, has_key, has_key_lem, or_default, state_after, group_batches_lem,
}
use infralens.Query.Executor.Aggregate.Groups.{
  count_up, accumulate, finalize, accumulate_all, add_row, group_batches,
}
use infralens.Query.Plan.{AggExpr}
use infralens.Query.Executor.Aggregate.Reads.{
  Pairs, HasPairs, all_pairs, values_of, Reads, AllRead, batches_read,
}

module _ (params : AggregateParams) (table : Option Bytes) (name : Bytes) where
  abbrev pub agg_of : Bytes → Bytes → AggExpr
  agg_of func alias = record { func = func; arg = some (Expr.column table name); alias = alias }

  module _ (func alias : Bytes) where
    abbrev absorb : ℕ → GroupState → GroupState
    absorb v s = count_up (accumulate params func (some v) s)

    abbrev absorbed : Option GroupState → List ℕ → Option GroupState
    absorbed o [] = o
    absorbed o (v ∷ vs) = absorbed (some (absorb v (or_default o))) vs

    abbrev absorb_all : GroupState → List ℕ → GroupState
    absorb_all s [] = s
    absorb_all s (v ∷ vs) = absorb_all (absorb v s) vs

    absorbed-some : (vs : List ℕ) (s : GroupState) → absorbed (some s) vs ≡ some (absorb_all s vs)
    absorbed-some [] s = refl
    absorbed-some (v ∷ vs) s = absorbed-some vs _

    add_row_lem :
        (r : Row) (p : ℕ × ℕ) (s : GroupState)
        → Reads params table name r p
        → add_row params (agg_of func alias ∷ []) r.0 r.1 s ≡ absorb p.1 s
    unfolding add_row accumulate_all
    add_row_lem r p s h = ap (λ o. count_up (accumulate params func o s)) h.1

    state_lem :
        (key : Bytes) (rs : List Row) (ps : Pairs) (o : Option GroupState)
        → AllRead params table name rs ps
        → state_after params (agg_of func alias ∷ []) o (keep (has_key key) rs)
          ≡ absorbed o (values_of key ps)
    state_lem key [] [] o h = refl
    state_lem key [] (p ∷ ps) o h = absurd h
    state_lem key (r ∷ rs) [] o h = absurd h
    state_lem key (r ∷ rs) (p ∷ ps) o h =
        let matched = has_key_lem key (decimal p.0) r.0 r.1 h.0.0 in
        elim (Bool-cases (list_eq (decimal p.0) key)) [
          | inl yes' ↦
              rw (matched, yes')
                (ap
                    (λ s.
                      state_after params (agg_of func alias ∷ []) (some s) (keep (has_key key) rs))
                    (add_row_lem r p (or_default o) h.0)
                  ∙ state_lem key rs ps _ h.1)
          | inr no' ↦ rw (matched, no') (state_lem key rs ps o h.1)
        ]

    -- What the operator answers for a key: nothing without values.
    abbrev pub Answered : (List ℕ → ℕ → Type 0) → List ℕ → Option GroupState → Type 0
    Answered Answer [] o = o ≡ none
    Answered Answer (v ∷ vs) o =
        (s : GroupState) × (o ≡ some s) × Answer (v ∷ vs) (finalize params func s)

    abbrev pub Computes : (List ℕ → ℕ → Type 0) → List (RecordBatch × Pairs) → Type 0
    Computes Answer ps =
        (groups : GroupMap) × (group_batches params (agg_of func alias ∷ []) (map (λ p. p.0) ps) []
          ≡ done groups)
        × ((key : Bytes) → Answered Answer (values_of key (all_pairs ps)) (find_group key groups))

    computes_lem :
        (Answer : List ℕ → ℕ → Type 0) (ps : List (RecordBatch × Pairs))
        → All (λ p. HasPairs name p.0 p.1) ps
        → ((v : ℕ) (vs : List ℕ)
            → Answer (v ∷ vs) (finalize params func (absorb_all (absorb v default_state) vs)))
        → Computes Answer ps
    computes_lem Answer ps h answers =
        let batches = map (λ p. p.0) ps in
        let (groups, run, found) =
          group_batches_lem params (agg_of func alias ∷ []) batches (filled ps h) in
        (
          groups,
          run,
          λ key. answered (values_of key (all_pairs ps)) (find_group key groups) (
              found key
              ∙ state_lem key (row_list batches) (all_pairs ps) none
                  (batches_read params table name ps h)),
        )
      where
        filled :
            (ps : List (RecordBatch × Pairs))
            → All (λ p. HasPairs name p.0 p.1) ps
            → All (λ b. 0 < length b.columns) (map (λ p. p.0) ps)
        filled [] h = tt
        filled (p ∷ ps) h = (rw h.0.keys (omega arith), filled ps h.1)

        answered :
            (vs : List ℕ) (o : Option GroupState) → o ≡ absorbed none vs → Answered Answer vs o
        answered [] o e = e
        answered (v ∷ vs) o e =
            (absorb_all (absorb v default_state) vs, e ∙ absorbed-some vs _, answers v vs)

  accumulate-count :
      (func : Bytes) (v : ℕ) (s : GroupState) → (accumulate params func (some v) s).count ≡ s.count
  unfolding accumulate
  accumulate-count func v s = ground arith

  absorb_count :
      (func : Bytes) (vs : List ℕ) (s : GroupState)
      → (absorb_all func [] s vs).count ≡ s.count + length vs
  absorb_count func [] s = omega arith
  absorb_count func (v ∷ vs) s = omega (
    arith,
    absorb_count func vs (count_up (accumulate params func (some v) s)),
    accumulate-count func v s,
  )

  absorb_sum :
      (vs : List ℕ) (s : GroupState)
      → (absorb_all (codes "sum") [] s vs).sum ≡ total_from params s.sum vs
  unfolding accumulate
  absorb_sum [] s = refl
  absorb_sum (v ∷ vs) s = absorb_sum vs _

  absorb_avg :
      (vs : List ℕ) (s : GroupState)
      → (absorb_all (codes "avg") [] s vs).sum ≡ total_from params s.sum vs
  unfolding accumulate
  absorb_avg [] s = refl
  absorb_avg (v ∷ vs) s = absorb_avg vs _

  min_step :
      (v : ℕ) (s : GroupState)
      → 0 < s.count
      → (accumulate params (codes "min") (some v) s).min
        ≡ (if params.float_lt v s.min then v else s.min)
  unfolding accumulate
  min_step v s h =
      let seen : (s.count == 0) ≡ false = ground (arith, h) in
      elim (Bool-cases (params.float_lt v s.min)) [
        | inl yes' ↦ rw yes' refl
        | inr no' ↦ rw (no', seen) refl
      ]

  absorb_min :
      (vs : List ℕ) (s : GroupState)
      → 0 < s.count
      → (absorb_all (codes "min") [] s vs).min ≡ pick params.float_lt s.min vs
  absorb_min [] s h = refl
  absorb_min (v ∷ vs) s h =
      absorb_min vs _ (omega arith) ∙ ap (λ m. pick params.float_lt m vs) (min_step v s h)

  max_step :
      (v : ℕ) (s : GroupState)
      → 0 < s.count
      → (accumulate params (codes "max") (some v) s).max
        ≡ (if params.float_lt s.max v then v else s.max)
  unfolding accumulate
  max_step v s h =
      let seen : (s.count == 0) ≡ false = ground (arith, h) in
      elim (Bool-cases (params.float_lt s.max v)) [
        | inl yes' ↦ rw yes' refl
        | inr no' ↦ rw (no', seen) refl
      ]

  absorb_max :
      (vs : List ℕ) (s : GroupState)
      → 0 < s.count
      → (absorb_all (codes "max") [] s vs).max ≡ pick (later params) s.max vs
  absorb_max [] s h = refl
  absorb_max (v ∷ vs) s h =
      absorb_max vs _ (omega arith) ∙ ap (λ m. pick (later params) m vs) (max_step v s h)

  -- The first row of a group.
  abbrev first_state : Bytes → ℕ → GroupState
  first_state func v = count_up (accumulate params func (some v) default_state)

  counted :
      (func : Bytes) (v : ℕ) (vs : List ℕ)
      → (absorb_all func [] (first_state func v) vs).count ≡ length (v ∷ vs)
  unfolding default_state
  counted func v vs = omega (arith, absorb_count func (v ∷ vs) default_state)

  summed :
      (v : ℕ) (vs : List ℕ)
      → (absorb_all (codes "sum") [] (first_state (codes "sum") v) vs).sum ≡ total params (v ∷ vs)
  unfolding default_state
  summed v vs = absorb_sum (v ∷ vs) default_state

  averaged :
      (v : ℕ) (vs : List ℕ)
      → (absorb_all (codes "avg") [] (first_state (codes "avg") v) vs).sum ≡ total params (v ∷ vs)
  unfolding default_state
  averaged v vs = absorb_avg (v ∷ vs) default_state

  -- The first value is taken, whatever it is compared with.
  least :
      (v : ℕ) (vs : List ℕ)
      → (absorb_all (codes "min") [] (first_state (codes "min") v) vs).min
        ≡ pick params.float_lt v vs
  unfolding default_state accumulate
  least v vs =
      absorb_min vs (first_state (codes "min") v)
        (omega (arith, accumulate-count (codes "min") v default_state))
      ∙ ap (λ m. pick params.float_lt m vs) (ground arith)

  greatest :
      (v : ℕ) (vs : List ℕ)
      → (absorb_all (codes "max") [] (first_state (codes "max") v) vs).max
        ≡ pick (later params) v vs
  unfolding default_state accumulate
  greatest v vs =
      absorb_max vs (first_state (codes "max") v)
        (omega (arith, accumulate-count (codes "max") v default_state))
      ∙ ap (λ m. pick (later params) m vs) (ground arith)

  module _ (irrefl : (a : ℕ) → params.float_lt a a ≡ false)
      (trans : (a b c : ℕ)
        → params.float_lt a b ≡ true
        → params.float_lt b c ≡ true
        → params.float_lt a c ≡ true) where
    -- Where the comparison of floats is irreflexive and transitive, over batches whose first
    -- column are unsigned keys and whose aggregated column are floats, both without nulls,
    -- grouping by one aggregate never panics, and for every key: a key without rows has no group,
    -- and otherwise count is the number of its rows, sum adds their values in order to 0, avg is
    -- that sum divided by their number, min is one of the values and none is below it, and max is
    -- one of them and none is above it.
    pub group_batches-finalize :
        (alias : Bytes) (ps : List (RecordBatch × Pairs))
        → All (λ p. HasPairs name p.0 p.1) ps
        → Computes (codes "count") alias (λ vs n. n ≡ params.float_of_nat (length vs)) ps
          × Computes (codes "sum") alias (λ vs n. n ≡ total params vs) ps
          × Computes
              (codes "avg")
              alias
              (λ vs n. n ≡ params.float_div (total params vs) (params.float_of_nat (length vs)))
              ps
          × Computes (codes "min") alias (IsExtreme params.float_lt) ps
          × Computes (codes "max") alias (IsExtreme (later params)) ps
    unfolding finalize
    group_batches-finalize alias ps h = (
      computes_lem (codes "count") alias (λ vs n. n ≡ params.float_of_nat (length vs)) ps h
          (λ v vs. ap params.float_of_nat (counted (codes "count") v vs)),
      computes_lem (codes "sum") alias (λ vs n. n ≡ total params vs) ps h summed,
      computes_lem (codes "avg") alias
          (λ vs n. n ≡ params.float_div (total params vs) (params.float_of_nat (length vs))) ps h
          (λ v vs. rw (counted (codes "avg") v vs, averaged v vs) (ground arith)),
      computes_lem (codes "min") alias (IsExtreme params.float_lt) ps h (λ v vs.
          subst (IsExtreme params.float_lt (v ∷ vs)) (sym (least v vs))
            (pick-IsExtreme params.float_lt irrefl trans vs v)),
      computes_lem (codes "max") alias (IsExtreme (later params)) ps h (λ v vs.
          subst (IsExtreme (later params) (v ∷ vs)) (sym (greatest v vs))
            (pick-IsExtreme (later params) irrefl (λ a b c x y. trans c b a y x) vs v)),
    )
