-- ===== src/Storage/Partition/Tables.antt =====
-- Buckets hold their timestamps, sequence numbers are fresh, and no SSTable with a row in range is
-- passed over.
use native.Mathlib.Nat.{mod-lt, div-add-mod', mul-mod_left}
use infralens.Prelude.{
  ℕ, ◌+◌, ◌-◌, ◌*◌, ◌/◌, ◌%◌, ◌≤◌, ◌<◌, ◌≡◌, refl, ◌∙◌, ap, Bool, true, false, Option, none, some,
  List, [], ◌∷◌, ◌++◌, keep, any, All, All-append, leb, ◌==◌, max, arith, Bool-cases, inl, inr,
}
use infralens.Storage.Partition.{
  for_timestamp, SsTableMeta, SignalPartition, ZoneFile, seq_of, max_seq, add_readable, readable,
  insert_by_seq, sort_by_seq, open_partition, next_seq, add_sstable, candidates,
}
use infralens.Storage.ZoneMap
use infralens.Storage.ZoneMap.{ZoneMap, overlaps_time_range, observe_all, within, overlaps-within}

-- For a positive bucket width, the partition key of a timestamp is a multiple of the width, and
-- the timestamp lies in the bucket that begins there.
pub for_timestamp_lem :
    (ts bucket_ns : ℕ)
    → 0 < bucket_ns
    → (key : ℕ) × (for_timestamp ts bucket_ns ≡ some key)
      × (key % bucket_ns ≡ 0)
      × (key ≤ ts)
      × (ts < key + bucket_ns)
unfolding for_timestamp
for_timestamp_lem ts bucket_ns h =
    let positive : (bucket_ns == 0) ≡ false = ground arith in
    let whole : ts - ts % bucket_ns ≡ ts / bucket_ns * bucket_ns =
      omega (arith, div-add-mod' ts bucket_ns) in
    (
      ts - ts % bucket_ns,
      rw positive refl,
      ap (λ n. n % bucket_ns) whole ∙ mul-mod_left (ts / bucket_ns) bucket_ns,
      omega arith,
      omega (arith, mod-lt ts h),
    )

-- Every number in use is below the next one.
abbrev pub Fresh : SignalPartition → Type 0
Fresh p = All (λ m. m.seq < p.next_seq) p.sstables

All-insert_by_seq :
    (n : ℕ) (x : SsTableMeta) (ys : List SsTableMeta)
    → x.seq < n
    → All (λ m. m.seq < n) ys
    → All (λ m. m.seq < n) (insert_by_seq x ys)
unfolding insert_by_seq
All-insert_by_seq n x [] hx h = (hx, tt)
All-insert_by_seq n x (y ∷ ys) hx h = elim (Bool-cases (leb x.seq y.seq)) [
  | inl first ↦ rw first (hx, h)
  | inr later ↦ rw later (h.0, All-insert_by_seq n x ys hx h.1)
]

All-sort_by_seq :
    (n : ℕ) (xs : List SsTableMeta)
    → All (λ m. m.seq < n) xs
    → All (λ m. m.seq < n) (sort_by_seq xs)
unfolding sort_by_seq
All-sort_by_seq n [] h = tt
All-sort_by_seq n (x ∷ xs) h = All-insert_by_seq n x (sort_by_seq xs) h.0 (All-sort_by_seq n xs h.1)

le-max_seq : (m : ℕ) (fs : List ZoneFile) → m ≤ max_seq m fs
unfolding max_seq
le-max_seq m [] = omega arith
le-max_seq m (f ∷ fs) = omega (arith, le-max_seq (max m (seq_of f)) fs)

All-add_readable :
    (n seq : ℕ) (o : Option ZoneMap) (rest : List SsTableMeta)
    → seq < n
    → All (λ m. m.seq < n) rest
    → All (λ m. m.seq < n) (add_readable seq o rest)
All-add_readable n seq none rest h hs = hs
All-add_readable n seq (some zm) rest h hs = (h, hs)

All-readable : (m : ℕ) (fs : List ZoneFile) → All (λ t. t.seq < max_seq m fs + 1) (readable fs)
unfolding readable max_seq
All-readable m [] = tt
All-readable m (f ∷ fs) =
    let m' = max m (seq_of f) in
    All-add_readable (max_seq m' fs + 1) (seq_of f) f.zone_map (readable fs)
      (omega (arith, le-max_seq m' fs)) (All-readable m' fs)

pub open_partition-Fresh : (fs : List ZoneFile) → Fresh (open_partition fs)
unfolding open_partition
open_partition-Fresh fs = All-sort_by_seq (max_seq 0 fs + 1) (readable fs) (All-readable 0 fs)

All-later : (n : ℕ) (xs : List SsTableMeta) → All (λ m. m.seq < n) xs → All (λ m. m.seq < n + 1) xs
All-later n [] h = tt
All-later n (x ∷ xs) h = (omega (arith, h.0), All-later n xs h.1)

-- Taking the next number for a new SSTable, as the flush worker does.
unfoldable pub add_next : ZoneMap → SignalPartition → SignalPartition
unfolding add_sstable next_seq
add_next zm p = let (seq, p') = next_seq p in add_sstable (record { seq = seq; zone_map = zm }) p'

unfoldable pub add_all : List ZoneMap → SignalPartition → SignalPartition
add_all [] p = p
add_all (zm ∷ zms) p = add_all zms (add_next zm p)

pub add_next-Fresh : (zm : ZoneMap) (p : SignalPartition) → Fresh p → Fresh (add_next zm p)
unfolding add_next add_sstable next_seq
add_next-Fresh zm p h =
    All-append (λ m. m.seq < p.next_seq + 1) p.sstables
      (record { seq = p.next_seq; zone_map = zm } ∷ []) (All-later p.next_seq p.sstables h)
      (omega arith, tt)

Fresh-add_all : (zms : List ZoneMap) (p : SignalPartition) → Fresh p → Fresh (add_all zms p)
unfolding add_all
Fresh-add_all [] p h = h
Fresh-add_all (zm ∷ zms) p h = Fresh-add_all zms (add_next zm p) (add_next-Fresh zm p h)

-- After a directory is opened and any SSTables are added, each with the next number, every number
-- in use is below the next one.
pub add_all-Fresh :
    (fs : List ZoneFile) (zms : List ZoneMap) → Fresh (add_all zms (open_partition fs))
add_all-Fresh fs zms = Fresh-add_all zms (open_partition fs) (open_partition-Fresh fs)

any-keep :
    (p : SsTableMeta → Bool) (seq : ℕ) (x : SsTableMeta) (before after : List SsTableMeta)
    → x.seq ≡ seq
    → p x ≡ true
    → any (λ m. m.seq == seq) (keep p (before ++ x ∷ after)) ≡ true
any-keep p seq x [] after same h = rw h (ground arith)
any-keep p seq x (y ∷ before) after same h =
    let later = any-keep p seq x before after same h in
    elim (Bool-cases (p y)) [
      | inl kept ↦ rw kept (ground (arith, later))
      | inr dropped ↦ rw dropped later
    ]

-- An SSTable whose zone map observed a row inside a time range is among the candidates for that
-- range.
pub candidates-within :
    (p : SignalPartition) (seq : ℕ) (rows : List ℕ) (before after : List SsTableMeta)
    (start end : ℕ)
    → p.sstables ≡ before ++ record { seq = seq; zone_map = observe_all rows ZoneMap.new } ∷ after
    → any (within start end) rows ≡ true
    → any (λ m. m.seq == seq) (candidates start end p) ≡ true
unfolding candidates
candidates-within p seq rows before after start end tables inside = rw tables (
    any-keep (λ m. overlaps_time_range m.zone_map start end) seq _ before after refl
      (overlaps-within rows start end inside))
