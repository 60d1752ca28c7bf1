-- ===== src/Storage/MemTable/Rows.antt =====
-- What any sequence of writes leaves in the table: the rows written, in key order, and their size.
use mathlib.Core.Path.{subst}
use mathlib.Core.List.{Perm, perm_middle}
use mathlib.Core.List.Perm
use infralens.Prelude.{
  ℕ, ◌+◌, ◌<◌, ◌≡◌, ◌≢◌, refl, ap, Bool, List, [], ◌∷◌, ◌++◌, Bytes, length, append-nil, keep, All,
  arith, leb, ◌==◌, Bool-cases, inl, inr,
}
use infralens.Prelude.SortedMap
use infralens.Prelude.SortedMap.{IsAscending}
use infralens.Storage.MemTable.{
  MemTable, row_key_size, new, insert, is_full, drain_signal, iter_all,
}
use infralens.Storage.MemTable.Order.{RowKey, row_key_order}

-- A write: the row's timestamp, its signal and its bytes.
pub record Row : Type 0 where
  pub timestamp_ns : ℕ
  pub signal_type : ℕ
  pub bytes : Bytes

abbrev pub total_size : List (RowKey × Bytes) → ℕ
total_size [] = 0
total_size (e ∷ m) = row_key_size + length e.1 + total_size m

pub record IsValid (mem : MemTable) : Type 0 where
  pub ascending : IsAscending mem.inner
  pub fresh : All (λ e. e.0.sequence < mem.sequence) mem.inner
  pub sized : mem.size_bytes ≡ total_size mem.inner

pub new-IsValid : (max_size : ℕ) → IsValid (new max_size)
unfolding new
new-IsValid max_size = record { ascending = tt; fresh = tt; sized = refl }

abbrev pub key_of : ℕ → Row → RowKey
key_of seq r = record { timestamp_ns = r.timestamp_ns; signal_type = r.signal_type; sequence = seq }

-- The keys of the table are older than the next one.
pub keys_ne :
    (m : List (RowKey × Bytes)) (seq : ℕ) (r : Row)
    → All (λ e. e.0.sequence < seq) m
    → All (λ e. e.0 ≢ key_of seq r) m
keys_ne [] seq r h = tt
keys_ne (e ∷ m) seq r h =
    (λ same. absurd (omega (arith, h.0, ap RowKey.sequence same)), keys_ne m seq r h.1)

total_size-insert :
    (k : RowKey) (v : Bytes) (m : List (RowKey × Bytes))
    → All (λ e. e.0 ≢ k) m
    → total_size (SortedMap.insert k v m) ≡ row_key_size + length v + total_size m
unfolding SortedMap.insert
total_size-insert k v [] h = omega arith
total_size-insert k v ((j, w) ∷ m) h =
    ground (arith, total_size-insert k v m, row_key_order.connected k j)

fresh_suc :
    (m : List (RowKey × Bytes)) (seq : ℕ)
    → All (λ e. e.0.sequence < seq) m
    → All (λ e. e.0.sequence < seq + 1) m
fresh_suc [] seq h = tt
fresh_suc (e ∷ m) seq h = (omega (arith, h.0), fresh_suc m seq h.1)

-- Every write keeps the table in order, its keys distinct and its size exact.
pub insert-IsValid :
    (r : Row) (mem : MemTable)
    → IsValid mem
    → IsValid (insert r.timestamp_ns r.signal_type r.bytes mem)
unfolding insert
insert-IsValid r mem v =
    let k = key_of mem.sequence r in
    record {
      ascending = SortedMap.insert-IsAscending k r.bytes mem.inner v.ascending;
      fresh =
          SortedMap.All-insert (λ e. e.0.sequence < mem.sequence + 1) k r.bytes mem.inner
            (omega arith) (fresh_suc mem.inner mem.sequence v.fresh);
      sized = omega (
        arith,
        v.sized,
        total_size-insert k r.bytes mem.inner (keys_ne mem.inner mem.sequence r v.fresh),
      );
    }

unfoldable pub write_rows : List Row → MemTable → MemTable
write_rows [] mem = mem
write_rows (r ∷ rs) mem = write_rows rs (insert r.timestamp_ns r.signal_type r.bytes mem)

-- The rows with the keys that they are given, in the order of writing.
abbrev pub numbered : ℕ → List Row → List (RowKey × Bytes)
numbered seq [] = []
numbered seq (r ∷ rs) = (key_of seq r, r.bytes) ∷ numbered (seq + 1) rs

-- Any writes keep a well-formed table in key order, its sequence numbers below the next one and
-- its size that of its rows.
pub write_rows-IsValid :
    (rs : List Row) (mem : MemTable) → IsValid mem → IsValid (write_rows rs mem)
unfolding write_rows
write_rows-IsValid [] mem v = v
write_rows-IsValid (r ∷ rs) mem v = write_rows-IsValid rs _ (insert-IsValid r mem v)

keep-middle-perm :
    (p : RowKey × Bytes → Bool) (e : RowKey × Bytes) (xs ys : List (RowKey × Bytes))
    → Perm (keep p xs ++ keep p (e ∷ ys)) (keep p (e ∷ xs) ++ keep p ys)
keep-middle-perm p e xs ys = elim (Bool-cases (p e)) [
  | inl yes' ↦ rw yes' (perm_middle (keep p xs) (keep p ys))
  | inr no' ↦ rw no' (Perm.refl _)
]

insert-perm :
    (p : RowKey × Bytes → Bool) (r : Row) (mem : MemTable)
    → IsValid mem
    → Perm
        (keep p (insert r.timestamp_ns r.signal_type r.bytes mem).inner)
        (keep p ((key_of mem.sequence r, r.bytes) ∷ mem.inner))
unfolding insert
insert-perm p r mem v =
    SortedMap.keep-insert-perm p (key_of mem.sequence r) r.bytes mem.inner
      (keys_ne mem.inner mem.sequence r v.fresh)

sequence-insert :
    (r : Row) (mem : MemTable)
    → (insert r.timestamp_ns r.signal_type r.bytes mem).sequence ≡ mem.sequence + 1
unfolding insert
sequence-insert r mem = refl

write_rows-perm :
    (p : RowKey × Bytes → Bool) (rs : List Row) (mem : MemTable)
    → IsValid mem
    → Perm
        (keep p (write_rows rs mem).inner)
        (keep p (numbered mem.sequence rs) ++ keep p mem.inner)
unfolding write_rows
write_rows-perm p [] mem v = Perm.refl _
write_rows-perm p (r ∷ rs) mem v =
    let mem' = insert r.timestamp_ns r.signal_type r.bytes mem in
    let rest = numbered (mem.sequence + 1) rs in
    let later : Perm (keep p (write_rows rs mem').inner) (keep p rest ++ keep p mem'.inner) =
      subst
        (λ s.
          Perm (keep p (write_rows rs mem').inner) (keep p (numbered s rs) ++ keep p mem'.inner))
        (sequence-insert r mem) (write_rows-perm p rs mem' (insert-IsValid r mem v)) in
    Perm.trans later (
      Perm.trans (Perm.append_left (keep p rest) (insert-perm p r mem v))
        (keep-middle-perm p (key_of mem.sequence r, r.bytes) rest mem.inner))

write_rows-new-perm :
    (p : RowKey × Bytes → Bool) (max_size : ℕ) (rs : List Row)
    → Perm (keep p (write_rows rs (new max_size)).inner) (keep p (numbered 0 rs))
unfolding new
write_rows-new-perm p max_size rs =
    rw append-nil at (write_rows-perm p rs (new max_size) (new-IsValid max_size))

-- After any writes to a new table, the rows that `drain_signal` returns are in strictly ascending
-- key order and are exactly those written for that signal.
pub drain_signal-write_rows :
    (signal max_size : ℕ) (rs : List Row)
    → let rows = drain_signal signal (write_rows rs (new max_size)) in
      IsAscending rows × Perm rows (keep (λ e. e.0.signal_type == signal) (numbered 0 rs))
unfolding drain_signal
drain_signal-write_rows signal max_size rs =
    let valid = write_rows-IsValid rs (new max_size) (new-IsValid max_size) in
    (
      SortedMap.keep-IsAscending (λ e. e.0.signal_type == signal) _ valid.ascending,
      write_rows-new-perm (λ e. e.0.signal_type == signal) max_size rs,
    )

max_size-write_rows : (rs : List Row) (mem : MemTable) → (write_rows rs mem).max_size ≡ mem.max_size
unfolding write_rows insert
max_size-write_rows [] mem = refl
max_size-write_rows (r ∷ rs) mem = max_size-write_rows rs _

-- After any writes to a new table, it is full exactly when the keys and bytes of the rows in it
-- reach the limit.
pub is_full-write_rows :
    (max_size : ℕ) (rs : List Row)
    → let mem = write_rows rs (new max_size) in
      is_full mem ≡ leb max_size (total_size (iter_all mem))
unfolding is_full iter_all new
is_full-write_rows max_size rs =
    let valid = write_rows-IsValid rs (new max_size) (new-IsValid max_size) in
    rw (valid.sized, max_size-write_rows rs (new max_size))
