-- ===== src/Cluster/Replication/Senders.antt =====
-- One queue to a replica: it stays bounded and in order, through every attempt to send.
use mathlib.Core.Path.{subst}
use infralens.Prelude.{
  ℕ, suc, ◌+◌, ◌≤◌, ◌<◌, ◌≡◌, refl, sym, ap, Bool, true, false, some, List, [], ◌∷◌, ◌++◌, ◌∙◌,
  append_assoc, map, Bytes, length, keep, list_eq, ltb, if◌then◌else◌, All, All-append, arith,
  Bool-cases, inl, inr, Option-cases,
}
use infralens.Cluster.Replication.{
  ReplicationEntry, ReplicaSender, find_sender, fresh_sender, get_or_create_sender, try_send,
  after_sending, buffer_per_replica,
}

abbrev pub IsOrdered : List ReplicationEntry → Type 0
IsOrdered [] = Unit
IsOrdered (x ∷ xs) = All (λ y. x.sequence ≤ y.sequence) xs × IsOrdered xs

-- What its loop has taken and what waits, in this order.
abbrev pub accepted : ReplicaSender → List ReplicationEntry
accepted s = s.taken ++ s.queue

-- At most `buffer_per_replica` entries wait, and all entries are older than `n` and in order.
abbrev pub IsSender : ℕ → ReplicaSender → Type 0
IsSender n s =
    (length s.queue ≤ buffer_per_replica)
    × All (λ e. e.sequence < n) (accepted s)
    × IsOrdered (accepted s)

pub All-weaken {ℓ κ μ} :
    {A : Type ℓ} (P : A → Type κ) (Q : A → Type μ) (xs : List A)
    → ((x : A) → P x → Q x)
    → All P xs
    → All Q xs
All-weaken P Q [] f h = tt
All-weaken P Q (x ∷ xs) f h = (f x h.0, All-weaken P Q xs f h.1)

pub All-keep {ℓ κ} :
    {A : Type ℓ} (P : A → Type κ) (p : A → Bool) (xs : List A) → All P xs → All P (keep p xs)
All-keep P p [] h = tt
All-keep P p (x ∷ xs) h = elim (Bool-cases (p x)) [
  | inl yes' ↦ rw yes' (h.0, All-keep P p xs h.1)
  | inr no' ↦ rw no' (All-keep P p xs h.1)
]

-- Changing the elements that pass a test.
pub All-change {ℓ κ} :
    {A : Type ℓ} (P : A → Type κ) (p : A → Bool) (f : A → A) (xs : List A)
    → ((x : A) → P x → P (f x))
    → All P xs
    → All P (map (λ x. if p x then f x else x) xs)
All-change P p f [] k h = tt
All-change P p f (x ∷ xs) k h = elim (Bool-cases (p x)) [
  | inl yes' ↦ rw yes' (k x h.0, All-change P p f xs k h.1)
  | inr no' ↦ rw no' (h.0, All-change P p f xs k h.1)
]

length_snoc {ℓ} : {A : Type ℓ} (xs : List A) (x : A) → length (xs ++ x ∷ []) ≡ suc (length xs)
length_snoc [] x = refl
length_snoc (y ∷ xs) x = ap suc (length_snoc xs x)

append-IsOrdered :
    (xs : List ReplicationEntry) (e : ReplicationEntry)
    → All (λ y. y.sequence ≤ e.sequence) xs
    → IsOrdered xs
    → IsOrdered (xs ++ e ∷ [])
append-IsOrdered [] e h k = (tt, tt)
append-IsOrdered (x ∷ xs) e h k = (
  All-append (λ y. x.sequence ≤ y.sequence) xs (e ∷ []) k.0 (h.0, tt),
  append-IsOrdered xs e h.1 k.1,
)

pub older : (n : ℕ) (s : ReplicaSender) → IsSender n s → IsSender (n + 1) s
older n s h = (h.0, All-weaken _ _ (accepted s) (λ e lt. omega (arith, lt)) h.1, h.2)

same_sender : (t s : ReplicaSender) → some t ≡ some s → t ≡ s
same_sender t s h = cc

found_first :
    (node_id : Bytes) (t : ReplicaSender) (ts : List ReplicaSender)
    → list_eq t.node_id node_id ≡ true
    → find_sender node_id (t ∷ ts) ≡ some t
found_first node_id t ts h = rw h refl

found_later :
    (node_id : Bytes) (t : ReplicaSender) (ts : List ReplicaSender)
    → list_eq t.node_id node_id ≡ false
    → find_sender node_id (t ∷ ts) ≡ find_sender node_id ts
found_later node_id t ts h = rw h refl

find_sender-IsSender :
    (n : ℕ) (node_id : Bytes) (ss : List ReplicaSender) (s : ReplicaSender)
    → All (IsSender n) ss
    → find_sender node_id ss ≡ some s
    → IsSender n s
find_sender-IsSender n node_id [] s h k = ground arith
find_sender-IsSender n node_id (t ∷ ts) s h k = elim (Bool-cases (list_eq t.node_id node_id)) [
  | inl yes' ↦ subst (IsSender n) (same_sender t s (sym (found_first node_id t ts yes') ∙ k)) h.0
  | inr no' ↦ find_sender-IsSender n node_id ts s h.1 (sym (found_later node_id t ts no') ∙ k)
]

pub get_or_create_sender_lem :
    (n : ℕ) (node_id addr : Bytes) (ss : List ReplicaSender)
    → All (IsSender n) ss
    → IsSender n (get_or_create_sender node_id addr ss).0
      × All (IsSender n) (get_or_create_sender node_id addr ss).1
unfolding get_or_create_sender fresh_sender
get_or_create_sender_lem n node_id addr ss h = elim (Option-cases (find_sender node_id ss)) [
  | inl no' ↦
      rw (get_or_create_sender, no')
        (
          (omega arith, tt, tt),
          All-append (IsSender n) ss (fresh_sender node_id addr ∷ []) h ((omega arith, tt, tt), tt),
        )
  | inr (s, yes') ↦ rw (get_or_create_sender, yes') (find_sender-IsSender n node_id ss s h yes', h)
]

-- One more entry, with the number `n`.
sent_lem :
    (n : ℕ) (entry : ReplicationEntry) (s : ReplicaSender)
    → entry.sequence ≡ n
    → IsSender (n + 1) s
    → ltb (length s.queue) buffer_per_replica ≡ true
    → IsSender (n + 1) (record s { queue = s.queue ++ entry ∷ [] })
sent_lem n entry s is_n h room =
    let fits = length_snoc s.queue entry in
    let grown = append_assoc s.taken s.queue (entry ∷ []) in
    (
      ground (arith, fits, room),
      rw (sym grown) (
          All-append (λ e. e.sequence < n + 1) (accepted s) (entry ∷ []) h.1
            (omega (arith, is_n), tt)),
      rw (sym grown) (
          append-IsOrdered (accepted s) entry
            (All-weaken _ _ (accepted s) (λ e lt. omega (arith, lt, is_n)) h.1) h.2),
    )

-- What is left after an attempt to send the entry with the number `n`.
pub after_sending_lem :
    (n : ℕ) (entry : ReplicationEntry) (node_id : Bytes) (s : ReplicaSender)
    (ss : List ReplicaSender)
    → entry.sequence ≡ n
    → IsSender (n + 1) s
    → All (IsSender (n + 1)) ss
    → All (IsSender (n + 1)) (after_sending node_id (try_send entry s) ss)
unfolding after_sending try_send
after_sending_lem n entry node_id s ss is_n hs h = elim (Bool-cases s.closed) [
  | inl yes' ↦ rw yes' (All-keep (IsSender (n + 1)) _ ss h)
  | inr open' ↦ elim (Bool-cases (ltb (length s.queue) buffer_per_replica)) [
    | inl room ↦
        rw (open', room)
          (All-change (IsSender (n + 1)) (λ t. list_eq t.node_id node_id) _ ss
            (λ t ht. sent_lem n entry s is_n hs room) h)
    | inr no_room ↦ rw (open', no_room) h
  ]
]
