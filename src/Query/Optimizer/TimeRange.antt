-- ===== src/Query/Optimizer/TimeRange.antt =====
-- The time range of a predicate holds every row that meets it, and pruning by it drops no partition
-- with such a row.
use mathlib.Core.Path.{subst}
use infralens.Prelude.{
  ℕ, ◌^◌, ◌≤◌, ◌≡◌, refl, sym, ◌∙◌, ap, Bool, true, false, ◌&&◌, Option, none, some, List, [], ◌∷◌,
  ◌++◌, map, Bytes, any, keep, arith, ltb, ◌==◌, if◌then◌else◌, Bool-cases, Option-cases, inl, inr,
  ℤ, pos, negsuc, leb_ℤ, as_u64,
}
use infralens.Storage.ZoneMap.{u64_max}
use infralens.Query.Ast.{
  Expr, column, literal, star, bin_op, unary_op, is_null, is_not_null, between, in_list, like,
  function, time_bucket, rate, delta, histogram_quantile, now, interval, add, sub, mul, div, mod',
  eq, not_eq, lt, lt_eq, gt, gt_eq, and, or,
}
use infralens.Query.Catalog.{
  Catalog, TableDesc, TableStats, lookup, overlaps, overlapping_partitions,
}
use infralens.Query.Optimizer.{
  is_ts, as_int, both, map_option, extract_time_range, prune_scan, prune_by, restrict,
}
use infralens.Query.Plan.{ScanOp}

abbrev test_int : (ℤ → Bool) → Option ℤ → Bool
test_int p none = true
test_int p (some v) = p v

-- Whether a row with this timestamp can meet the predicate, by its comparisons of the timestamp with
-- integers.
unfoldable pub admits : ℕ → Expr → Bool
admits ts (bin_op and l r) = admits ts l && admits ts r
admits ts (bin_op gt_eq l r) = if is_ts l then test_int (λ v. leb_ℤ v (pos ts)) (as_int r) else true
admits ts (bin_op lt_eq l r) = if is_ts l then test_int (leb_ℤ (pos ts)) (as_int r) else true
admits ts (between e low high) =
    if is_ts e
    then test_int (λ v. leb_ℤ v (pos ts)) (as_int low) && test_int (leb_ℤ (pos ts)) (as_int high)
    else true
admits ts _ = true

abbrev pub not_negative : ℤ → Bool
not_negative (pos n) = ltb n (2 ^ 63)
not_negative (negsuc n) = false

abbrev pub is_i64 : ℤ → Bool
is_i64 (pos n) = ltb n (2 ^ 63)
is_i64 (negsuc n) = ltb n (2 ^ 63)

-- No lower bound is a negative literal, and every literal is an i64.
unfoldable pub bounds_ok : Expr → Bool
bounds_ok (bin_op and l r) = bounds_ok l && bounds_ok r
bounds_ok (bin_op gt_eq l r) = test_int not_negative (as_int r)
bounds_ok (bin_op lt_eq l r) = test_int is_i64 (as_int r)
bounds_ok (between e low high) = test_int not_negative (as_int low) && test_int is_i64 (as_int high)
bounds_ok _ = true

abbrev pub Within : ℕ → ℕ × ℕ → Type 0
Within ts range = (range.0 ≤ ts) × (ts ≤ range.1)

some_inj : (x y : ℕ × ℕ) → some x ≡ some y → x ≡ y
some_inj x y h = cc

low_bound : (v : ℤ) (ts : ℕ) → not_negative v ≡ true → leb_ℤ v (pos ts) ≡ true → as_u64 v ≤ ts
low_bound (pos n) ts good h = ground arith
low_bound (negsuc n) ts good h = cc

high_bound : (v : ℤ) (ts : ℕ) → is_i64 v ≡ true → leb_ℤ (pos ts) v ≡ true → ts ≤ as_u64 v
high_bound (pos n) ts good h = ground arith
high_bound (negsuc n) ts good h = ground arith

module _ (ts : ℕ) (ts_u64 : ts ≤ u64_max) where
  both-Within :
      (l r : Option (ℕ × ℕ)) (range : ℕ × ℕ)
      → both l r ≡ some range
      → ((x : ℕ × ℕ) → l ≡ some x → Within ts x)
      → ((x : ℕ × ℕ) → r ≡ some x → Within ts x)
      → Within ts range
  both-Within (some l) (some r) range h hl hr =
      subst (Within ts) (some_inj (l.0, r.1) range h) ((hl l refl).0, (hr r refl).1)
  both-Within (some l) none range h hl hr = hl range h
  both-Within none r range h hl hr = hr range h

  ge_range :
      (o : Option ℤ) (range : ℕ × ℕ)
      → map_option (λ v. (v, u64_max)) (map_option as_u64 o) ≡ some range
      → test_int not_negative o ≡ true
      → test_int (λ v. leb_ℤ v (pos ts)) o ≡ true
      → Within ts range
  ge_range none range h good holds = cc
  ge_range (some v) range h good holds =
      subst (Within ts) (some_inj (as_u64 v, u64_max) range h) (low_bound v ts good holds, ts_u64)

  le_range :
      (o : Option ℤ) (range : ℕ × ℕ)
      → map_option (λ v. (0, v)) (map_option as_u64 o) ≡ some range
      → test_int is_i64 o ≡ true
      → test_int (leb_ℤ (pos ts)) o ≡ true
      → Within ts range
  le_range none range h good holds = cc
  le_range (some v) range h good holds =
      subst (Within ts) (some_inj (0, as_u64 v) range h) (omega arith, high_bound v ts good holds)

  between_range :
      (lo hi : Option ℤ) (range : ℕ × ℕ)
      → elim (map_option as_u64 lo) [
        | none ↦ none
        | some l ↦ map_option (λ h. (l, h)) (map_option as_u64 hi)
      ]
        ≡ some range
      → test_int not_negative lo ≡ true
      → test_int is_i64 hi ≡ true
      → test_int (λ v. leb_ℤ v (pos ts)) lo ≡ true
      → test_int (leb_ℤ (pos ts)) hi ≡ true
      → Within ts range
  between_range none hi range h good good' holds holds' = cc
  between_range (some l) none range h good good' holds holds' = cc
  between_range (some l) (some u) range h good good' holds holds' =
      subst (Within ts) (some_inj (as_u64 l, as_u64 u) range h)
        (low_bound l ts good holds, high_bound u ts good' holds')

  -- A timestamp that the comparisons of a predicate admit lies in the range extracted from it,
  -- where no lower bound is a negative literal.
  pub extract_time_range-admits :
      (e : Expr) (range : ℕ × ℕ)
      → extract_time_range e ≡ some range
      → bounds_ok e ≡ true
      → admits ts e ≡ true
      → Within ts range
  unfolding extract_time_range admits bounds_ok
  extract_time_range-admits (bin_op and l r) range h good holds =
      both-Within (extract_time_range l) (extract_time_range r) range h
        (λ x eq. extract_time_range-admits l x eq (ground arith) (ground arith))
        (λ x eq. extract_time_range-admits r x eq (ground arith) (ground arith))
  extract_time_range-admits (bin_op gt_eq l r) range h good holds = elim (Bool-cases (is_ts l)) [
    | inl column_ts ↦ ge_range (as_int r) range (rw column_ts at h) good (rw column_ts at holds)
    | inr other ↦ cc (rw other at h)
  ]
  extract_time_range-admits (bin_op lt_eq l r) range h good holds = elim (Bool-cases (is_ts l)) [
    | inl column_ts ↦ le_range (as_int r) range (rw column_ts at h) good (rw column_ts at holds)
    | inr other ↦ cc (rw other at h)
  ]
  extract_time_range-admits (between e low high) range h good holds = elim (Bool-cases (is_ts e)) [
    | inl column_ts ↦
        between_range (as_int low) (as_int high) range (rw column_ts at h) (ground arith)
          (ground arith) (ground arith) (ground arith)
    | inr other ↦ cc (rw other at h)
  ]
  extract_time_range-admits (column a b) range h good holds = cc
  extract_time_range-admits (literal a) range h good holds = cc
  extract_time_range-admits star range h good holds = cc
  extract_time_range-admits (unary_op a b) range h good holds = cc
  extract_time_range-admits (is_null a) range h good holds = cc
  extract_time_range-admits (is_not_null a) range h good holds = cc
  extract_time_range-admits (in_list a b) range h good holds = cc
  extract_time_range-admits (like a b c) range h good holds = cc
  extract_time_range-admits (function a b) range h good holds = cc
  extract_time_range-admits (time_bucket a b) range h good holds = cc
  extract_time_range-admits (rate a b) range h good holds = cc
  extract_time_range-admits (delta a b) range h good holds = cc
  extract_time_range-admits (histogram_quantile a b c) range h good holds = cc
  extract_time_range-admits now range h good holds = cc
  extract_time_range-admits (interval a) range h good holds = cc
  extract_time_range-admits (bin_op add a b) range h good holds = cc
  extract_time_range-admits (bin_op sub a b) range h good holds = cc
  extract_time_range-admits (bin_op mul a b) range h good holds = cc
  extract_time_range-admits (bin_op div a b) range h good holds = cc
  extract_time_range-admits (bin_op mod' a b) range h good holds = cc
  extract_time_range-admits (bin_op eq a b) range h good holds = cc
  extract_time_range-admits (bin_op not_eq a b) range h good holds = cc
  extract_time_range-admits (bin_op lt a b) range h good holds = cc
  extract_time_range-admits (bin_op gt a b) range h good holds = cc
  extract_time_range-admits (bin_op or a b) range h good holds = cc

-- An empty filter selects every partition.
abbrev pub selected : ℕ → List ℕ → Bool
selected key [] = true
selected key (k ∷ ks) = any (λ j. j == key) (k ∷ ks)

selected-any : (key : ℕ) (ks : List ℕ) → any (λ j. j == key) ks ≡ true → selected key ks ≡ true
selected-any key [] h = refl
selected-any key (k ∷ ks) h = h

-- A partition whose statistics overlap the range is in the list.
any-overlapping :
    (start end : ℕ) (s : TableStats) (before after : List TableStats)
    → overlaps start end s ≡ true
    → any
        (λ j. j == s.partition_key)
        (map (λ t. t.partition_key) (keep (overlaps start end) (before ++ s ∷ after)))
      ≡ true
any-overlapping start end s [] after h =
    let same : (s.partition_key == s.partition_key) ≡ true = ground arith in rw (h, same) refl
any-overlapping start end s (t ∷ before) after h =
    let later = any-overlapping start end s before after h in
    elim (Bool-cases (overlaps start end t)) [
      | inl in_range ↦ rw in_range (ground (arith, later))
      | inr other ↦ rw other later
    ]

overlapping_partitions-some :
    (table : Bytes) (start end : ℕ) (catalog : Catalog) (desc : TableDesc)
    → lookup table catalog.tables ≡ some desc
    → overlapping_partitions table start end catalog
      ≡ map (λ s. s.partition_key) (keep (overlaps start end) desc.stats)
unfolding overlapping_partitions
overlapping_partitions-some table start end catalog desc h = rw (h, overlapping_partitions) refl

-- Pruning a scan of all partitions never drops a partition that has a row which meets the
-- predicate: one whose statistics enclose a timestamp that the comparisons of the predicate admit,
-- where no lower bound is a negative literal.
pub prune_scan-selected :
    (catalog : Catalog) (scan : ScanOp) (pred : Expr) (desc : TableDesc) (s : TableStats)
    (before after : List TableStats) (ts : ℕ)
    → scan.partition_filter ≡ []
    → scan.predicate ≡ some pred
    → lookup scan.table catalog.tables ≡ some desc
    → desc.stats ≡ before ++ s ∷ after
    → s.min_timestamp_ns ≤ ts
    → ts ≤ s.max_timestamp_ns
    → ts ≤ u64_max
    → bounds_ok pred ≡ true
    → admits ts pred ≡ true
    → selected s.partition_key (prune_scan catalog scan).partition_filter ≡ true
prune_scan-selected catalog scan pred desc s before after ts whole filtered table stats low high u64
      good holds =
    let Kept : ScanOp → Type 0 = λ scan'. selected s.partition_key scan'.partition_filter ≡ true in
    subst (λ o. Kept (prune_by catalog scan o)) (sym filtered)
      (elim (Option-cases (extract_time_range pred)) [
        | inl no_range ↦
            subst (λ o. Kept (restrict catalog scan o)) (sym no_range)
              (ap (selected s.partition_key) whole)
        | inr (range, found) ↦
            let inside = extract_time_range-admits ts u64 pred range found good holds in
            let hit : overlaps range.0 range.1 s ≡ true = ground (arith, inside) in
            subst (λ o. Kept (restrict catalog scan o)) (sym found)
              (selected-any s.partition_key _ (
                ap (any (λ j. j == s.partition_key)) (
                  overlapping_partitions-some scan.table range.0 range.1 catalog desc table
                  ∙ ap (λ l. map (λ t. t.partition_key) (keep (overlaps range.0 range.1) l)) stats)
                ∙ any-overlapping range.0 range.1 s before after hit))
      ])
