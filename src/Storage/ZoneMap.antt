-- ===== src/Storage/ZoneMap.antt =====
-- crates/infralens-storage/src/zone_map.rs: the time range of an SSTable. Column statistics are never
-- filled by the source and are left out, as is the file that bincode writes.
use infralens.Prelude.{
  ℕ, ◌+◌, ◌-◌, ◌^◌, ◌≤◌, ◌≡◌, ◌∙◌, Bool, true, ◌&&◌, ◌||◌, List, [], ◌∷◌, length, All, any, arith,
  ltb, leb, if◌then◌else◌,
}

abbrev pub u64_max : ℕ
u64_max = 2 ^ 64 - 1

pub record ZoneMap : Type 0 where
  pub min_timestamp_ns : ℕ
  pub max_timestamp_ns : ℕ
  pub row_count : ℕ

unfoldable pub new : ZoneMap
new = record { min_timestamp_ns = u64_max; max_timestamp_ns = 0; row_count = 0 }

-- `row_count` counts rows of one file and does not reach 2^64.
unfoldable pub observe_timestamp : ℕ → ZoneMap → ZoneMap
observe_timestamp ts zm = record zm {
  min_timestamp_ns = if ltb ts zm.min_timestamp_ns then ts else zm.min_timestamp_ns;
  max_timestamp_ns = if ltb zm.max_timestamp_ns ts then ts else zm.max_timestamp_ns;
  row_count = zm.row_count + 1;
}

unfoldable pub overlaps_time_range : ZoneMap → ℕ → ℕ → Bool
overlaps_time_range zm start end = leb zm.min_timestamp_ns end && leb start zm.max_timestamp_ns

-- The loop of the SSTable writers and of compaction.
unfoldable pub observe_all : List ℕ → ZoneMap → ZoneMap
observe_all [] zm = zm
observe_all (ts ∷ rest) zm = observe_all rest (observe_timestamp ts zm)

-- The range test after the loop, by the rows observed.
observe_all-range :
    (ts : List ℕ) (zm : ZoneMap) (start end : ℕ)
    → overlaps_time_range (observe_all ts zm) start end ≡ (
        (leb zm.min_timestamp_ns end || any (λ t. leb t end) ts)
        && (leb start zm.max_timestamp_ns || any (λ t. leb start t) ts))
unfolding observe_all overlaps_time_range
observe_all-range [] zm start end = ground arith
observe_all-range (t ∷ ts) zm start end =
    observe_all-range ts (observe_timestamp t zm) start end
    ∙ (unfold observe_timestamp in ground arith)

-- A file overlaps a range exactly when it has a row that is not after the end and a row that is
-- not before the start; the bounds of an empty map count as rows at 2^64 - 1 and at 0.
pub overlaps-observe_all :
    (ts : List ℕ) (start end : ℕ)
    → overlaps_time_range (observe_all ts new) start end
      ≡ ((leb u64_max end || any (λ t. leb t end) ts) && (leb start 0 || any (λ t. leb start t) ts))
unfolding new
overlaps-observe_all ts start end = observe_all-range ts new start end

abbrev pub within : ℕ → ℕ → ℕ → Bool
within start end t = leb start t && leb t end

any-imp :
    {A : Type 0} (p q : A → Bool) (xs : List A)
    → ((x : A) → p x ≡ true → q x ≡ true)
    → any p xs ≡ true
    → any q xs ≡ true
any-imp p q [] imp h = h
any-imp p q (x ∷ xs) imp h = ground (arith, imp x, any-imp p q xs imp)

-- A file with a row inside a time range is never pruned for that range.
pub overlaps-within :
    (ts : List ℕ) (start end : ℕ)
    → any (within start end) ts ≡ true
    → overlaps_time_range (observe_all ts new) start end ≡ true
overlaps-within ts start end h =
    let low = any-imp (within start end) (λ t. leb t end) ts (λ t e. ground arith) h in
    let high = any-imp (within start end) (λ t. leb start t) ts (λ t e. ground arith) h in
    overlaps-observe_all ts start end ∙ ground (arith, low, high)

observe_timestamp-bounds :
    (t : ℕ) (zm : ZoneMap)
    → let zm' = observe_timestamp t zm in
      (zm'.row_count ≡ zm.row_count + 1)
      × (zm'.min_timestamp_ns ≤ t)
      × (zm'.min_timestamp_ns ≤ zm.min_timestamp_ns)
      × (t ≤ zm'.max_timestamp_ns)
      × (zm.max_timestamp_ns ≤ zm'.max_timestamp_ns)
unfolding observe_timestamp
observe_timestamp-bounds t zm = ground arith

-- Observing timestamps counts them, only widens the two bounds, and leaves every one of them
-- between the bounds.
pub observe_all-bounds :
    (ts : List ℕ) (zm : ZoneMap)
    → let zm' = observe_all ts zm in
      (zm'.row_count ≡ zm.row_count + length ts)
      × (zm'.min_timestamp_ns ≤ zm.min_timestamp_ns)
      × (zm.max_timestamp_ns ≤ zm'.max_timestamp_ns)
      × All (λ t. (zm'.min_timestamp_ns ≤ t) × (t ≤ zm'.max_timestamp_ns)) ts
unfolding observe_all
observe_all-bounds [] zm = (omega arith, omega arith, omega arith, tt)
observe_all-bounds (t ∷ ts) zm =
    let (count, low, high, rest) = observe_all-bounds ts (observe_timestamp t zm) in
    let step = observe_timestamp-bounds t zm in
    (
      omega (arith, count, step),
      omega (arith, step),
      omega (arith, step),
      ((omega (arith, step), omega (arith, step)), rest),
    )
