-- ===== src/Query/Executor/Aggregate/Grouped.antt =====
-- The state of a group is what its own rows give, in their order, and no row is counted elsewhere.
use mathlib.Core.Path.{subst}
use infralens.Prelude.{
  ℕ, ◌<◌, ◌≡◌, refl, sym, ◌∙◌, ap, Bool, true, false, Option, none, some, List, [], ◌∷◌, ◌++◌, map,
  Bytes, list_eq, eq_of_list_eq, list_eq_refl, length, keep, keep-append, All, get_or_else,
  if◌then◌else◌, arith, Bool-cases, inl, inr,
}
use infralens.Query.Functions.{ArrayData, uint64_array, RecordBatch, done}
use infralens.Query.Executor.Aggregate.Columns.{
  GroupState, default_state, GroupMap, AggregateParams,
}
use infralens.Query.Executor.Aggregate.Groups.{
  update_group, extract_group_key, key_of_column, row_range, add_row, group_rows, group_batches,
}
use infralens.Query.Plan.{AggExpr}

abbrev pub Row : Type 0
Row = RecordBatch × ℕ

abbrev pub find_group : Bytes → GroupMap → Option GroupState
find_group key [] = none
find_group key ((k, s) ∷ groups) = if list_eq k key then some s else find_group key groups

-- All rows of the batches, in order.
abbrev pub row_list : List RecordBatch → List Row
row_list [] = []
row_list (b ∷ bs) = map (λ row. (b, row)) (row_range 0 b.num_rows) ++ row_list bs

abbrev pub key_matches : Bytes → Option Bytes → Bool
key_matches key none = false
key_matches key (some k) = list_eq k key

abbrev pub has_key : Bytes → Row → Bool
has_key key r = key_matches key (extract_group_key r.0 r.1)

pub has_key_lem :
    (key k : Bytes) (b : RecordBatch) (row : ℕ)
    → extract_group_key b row ≡ some k
    → has_key key (b, row) ≡ list_eq k key
has_key_lem key k b row h = ap (key_matches key) h

abbrev pub or_default : Option GroupState → GroupState
or_default o = get_or_else o default_state

found_same :
    (key : Bytes) (f : GroupState → GroupState) (groups : GroupMap)
    → find_group key (update_group key f groups) ≡ some (f (or_default (find_group key groups)))
found_same key f [] = rw (list_eq_refl key) refl
found_same key f ((k, s) ∷ groups) = elim (Bool-cases (list_eq k key)) [
  | inl yes' ↦ rw (yes', yes') refl
  | inr no' ↦ rw (no', no') (found_same key f groups)
]

found_at :
    (k key : Bytes) (f : GroupState → GroupState) (groups : GroupMap)
    → list_eq k key ≡ true
    → find_group key (update_group k f groups) ≡ some (f (or_default (find_group key groups)))
found_at k key f groups h =
    subst
      (λ x. find_group x (update_group k f groups) ≡ some (f (or_default (find_group x groups))))
      (eq_of_list_eq k key h) (found_same k f groups)

found_other :
    (key other : Bytes) (f : GroupState → GroupState) (groups : GroupMap)
    → list_eq key other ≡ false
    → find_group other (update_group key f groups) ≡ find_group other groups
found_other key other f [] h = rw h refl
found_other key other f ((k, s) ∷ groups) h = elim (Bool-cases (list_eq k key)) [
  | inl yes' ↦ rw (yes', eq_of_list_eq k key yes', h) refl
  | inr no' ↦ elim (Bool-cases (list_eq k other)) [
    | inl same ↦ rw (no', same) refl
    | inr apart ↦ rw (no', apart) (found_other key other f groups h)
  ]
]

key_exists :
    (b : RecordBatch) (row : ℕ)
    → 0 < length b.columns
    → (k : Bytes) × (extract_group_key b row ≡ some k)
unfolding extract_group_key
key_exists b row h = key_of b.columns row h
  where
    key_of :
        (cs : List (Bytes × ArrayData)) (row : ℕ)
        → 0 < length cs
        → (k : Bytes) × (key_of_column cs row ≡ some k)
    key_of [] row h = absurd (omega (arith, h))
    key_of ((n, uint64_array xs) ∷ cs) row h = (_, refl)
    key_of ((n, array) ∷ cs) row h = (_, refl)

module _ (params : AggregateParams) (aggs : List AggExpr) where
  -- The state after some rows of one group.
  abbrev pub state_after : Option GroupState → List Row → Option GroupState
  state_after o [] = o
  state_after o (r ∷ rs) = state_after (some (add_row params aggs r.0 r.1 (or_default o))) rs

  state_after-append :
      (rs ts : List Row) (o : Option GroupState)
      → state_after o (rs ++ ts) ≡ state_after (state_after o rs) ts
  state_after-append [] ts o = refl
  state_after-append (r ∷ rs) ts o = state_after-append rs ts _

  -- What grouping makes of the state of every key.
  abbrev Grouped : GroupMap → List Row → GroupMap → Type 0
  Grouped before rows after =
      (key : Bytes)
      → find_group key after ≡ state_after (find_group key before) (keep (has_key key) rows)

  -- A row of the key `k` changes the group of `k` alone.
  row_lem :
      (b : RecordBatch) (row : ℕ) (k : Bytes) (groups : GroupMap)
      → extract_group_key b row ≡ some k
      → Grouped groups ((b, row) ∷ []) (update_group k (add_row params aggs b row) groups)
  row_lem b row k groups h key = elim (Bool-cases (list_eq k key)) [
    | inl yes' ↦
        rw (has_key_lem key k b row h, yes')
          (found_at k key (add_row params aggs b row) groups yes')
    | inr no' ↦
        rw (has_key_lem key k b row h, no')
          (found_other k key (add_row params aggs b row) groups no')
  ]

  then_rows :
      (before middle after : GroupMap) (rs ts : List Row)
      → Grouped before rs middle
      → Grouped middle ts after
      → Grouped before (rs ++ ts) after
  then_rows before middle after rs ts h k key =
      k key
      ∙ ap (λ o. state_after o (keep (has_key key) ts)) (h key)
      ∙ sym (
          state_after-append (keep (has_key key) rs) (keep (has_key key) ts)
            (find_group key before))
      ∙ ap (state_after (find_group key before)) (sym (keep-append (has_key key) rs ts))

  rows_lem :
      (b : RecordBatch) (rows : List ℕ) (groups : GroupMap)
      → 0 < length b.columns
      → (after : GroupMap) × (group_rows params aggs b rows groups ≡ done after)
        × Grouped groups (map (λ row. (b, row)) rows) after
  unfolding group_rows
  rows_lem b [] groups h = (groups, refl, λ key. refl)
  rows_lem b (row ∷ rows) groups h =
      let (k, is_key) = key_exists b row h in
      let rest = rows_lem b rows (update_group k (add_row params aggs b row) groups) h in
      (
        rest.0,
        rw (group_rows, is_key) rest.1,
        then_rows groups _ rest.0 ((b, row) ∷ []) _ (row_lem b row k groups is_key) rest.2,
      )

  batches_lem :
      (batches : List RecordBatch) (groups : GroupMap)
      → All (λ b. 0 < length b.columns) batches
      → (after : GroupMap) × (group_batches params aggs batches groups ≡ done after)
        × Grouped groups (row_list batches) after
  unfolding group_batches
  batches_lem [] groups h = (groups, refl, λ key. refl)
  batches_lem (b ∷ bs) groups h =
      let first = rows_lem b (row_range 0 b.num_rows) groups h.0 in
      let rest = batches_lem bs first.0 h.1 in
      (rest.0, rw (first.1) rest.1, then_rows groups first.0 rest.0 _ _ first.2 rest.2)

  -- Over batches that have a column, grouping never panics, and the state of each key is that of
  -- its own rows, one after the other in the order of the batches; a key without rows has no
  -- group.
  pub group_batches_lem :
      (batches : List RecordBatch)
      → All (λ b. 0 < length b.columns) batches
      → (groups : GroupMap) × (group_batches params aggs batches [] ≡ done groups)
        × ((key : Bytes)
            → find_group key groups ≡ state_after none (keep (has_key key) (row_list batches)))
  group_batches_lem batches h = batches_lem batches [] h
