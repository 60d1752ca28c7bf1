-- ===== src/Storage/Wal/Writer.antt =====
-- The writer: what it has accepted, what of that is in the file, and a crash at any moment.
use infralens.Prelude.{
  ℕ, ◌+◌, ◌-◌, ◌≤◌, ◌<◌, ◌^◌, ◌≡◌, refl, sym, ◌∙◌, ap, some, List, [], ◌∷◌, ◌++◌, append_assoc,
  append-nil, Bytes, ok, length, length-append, arith, take, ltb, leb, leb→le, Bool-cases, inl, inr,
}
use infralens.Storage.Wal.{
  Wal, WalEntry, entry_checkpoint, open_wal, flush_buffer, make_room, place, write_all, sync,
  append, checkpoint, recover, header, buffer_capacity,
}
use infralens.Storage.Wal.Entries.{encode_entry}
use infralens.Storage.Wal.Loop.{
  Fits, since_checkpoint, encode_all, encode_all-append, length-encode_all,
}
use infralens.Storage.Wal.Recovery.{recover_crash}

-- A call of the writer.
pub data WalOp : Type 0 where
  append_op : ℕ → Bytes → WalOp
  sync_op : WalOp
  checkpoint_op : WalOp

-- The entries that a call writes.
abbrev pub entries_of : WalOp → List WalEntry
entries_of (append_op t d) = record { entry_type = t; contents = d } ∷ []
entries_of sync_op = []
entries_of checkpoint_op = record { entry_type = entry_checkpoint; contents = [] } ∷ []

abbrev pub all_entries : List WalOp → List WalEntry
all_entries [] = []
all_entries (op ∷ ops) = entries_of op ++ all_entries ops

-- Everything that was written: the file, then the buffer.
abbrev pub contents : Wal → Bytes
contents w = w.file ++ w.buffer

-- The file only grows.
abbrev pub Extends : Bytes → Bytes → Type 0
Extends old new = (zs : Bytes) × (new ≡ old ++ zs)

nil_of_length : (bs : Bytes) → length bs ≤ 0 → bs ≡ []
nil_of_length [] h = refl
nil_of_length (b ∷ bs) h = absurd (omega arith)

make_room_lem :
    (n : ℕ) (w : Wal)
    → (contents (make_room n w) ≡ contents w)
      × Extends w.file (make_room n w).file
      × (buffer_capacity ≤ n → (make_room n w).buffer ≡ [])
unfolding make_room flush_buffer
make_room_lem n w = elim (Bool-cases (ltb (buffer_capacity - length w.buffer) n)) [
  | inl full ↦ rw full (append-nil _, (w.buffer, refl), λ h. refl)
  | inr room ↦
      rw room (refl, ([], sym (append-nil w.file)), λ h. nil_of_length w.buffer (ground arith))
]

place_lem :
    (bs : Bytes) (w : Wal)
    → (buffer_capacity ≤ length bs → w.buffer ≡ [])
    → (contents (place bs w) ≡ contents w ++ bs) × Extends w.file (place bs w).file
unfolding place
place_lem bs w empty = elim (Bool-cases (leb buffer_capacity (length bs))) [
  | inl large ↦
      let none_left = empty (leb→le buffer_capacity (length bs) large) in
      rw large (
        rw none_left (append-nil (w.file ++ bs) ∙ ap (λ f. f ++ bs) (sym (append-nil w.file))),
        (bs, refl),
      )
  | inr small ↦ rw small (sym (append_assoc w.file w.buffer bs), ([], sym (append-nil w.file)))
]

Extends-trans : (xs : Bytes) {ys zs : Bytes} → Extends xs ys → Extends ys zs → Extends xs zs
Extends-trans xs (us, p) (vs, q) = (us ++ vs, q ∙ ap (λ bs. bs ++ vs) p ∙ append_assoc xs us vs)

-- `write_all` appends to what was written, however the buffer is flushed.
write_all_lem :
    (bs : Bytes) (w : Wal)
    → (contents (write_all bs w) ≡ contents w ++ bs) × Extends w.file (write_all bs w).file
unfolding write_all
write_all_lem bs w =
    let (same, grown, empty) = make_room_lem (length bs) w in
    let (more, grown') = place_lem bs (make_room (length bs) w) empty in
    (more ∙ ap (λ c. c ++ bs) same, Extends-trans w.file grown grown')

sync_lem :
    (w : Wal)
    → (contents (sync w) ≡ contents w) × Extends w.file (sync w).file × ((sync w).file ≡ contents w)
unfolding sync flush_buffer
sync_lem w = (append-nil _, (w.buffer, refl), refl)

module _ (crc32 : Bytes → ℕ) where
  -- `append` writes one encoded entry.
  append_lem :
      (t : ℕ) (d : Bytes) (w : Wal)
      → let w' = (append crc32 t d w).1 in
        (contents w' ≡ contents w ++ encode_entry crc32 (record { entry_type = t; contents = d }))
        × Extends w.file w'.file
        × (w'.offset ≡ w.offset + (9 + length d))
  unfolding append
  append_lem t d w =
      let hd = header crc32 t d in
      let (first, grown) = write_all_lem hd w in
      let (second, grown') = write_all_lem d (write_all hd w) in
      (
        second ∙ ap (λ c. c ++ d) first ∙ append_assoc (contents w) hd d,
        Extends-trans w.file grown grown',
        refl,
      )

  unfoldable pub step : WalOp → Wal → Wal
  step (append_op t d) w = (append crc32 t d w).1
  step sync_op w = sync w
  step checkpoint_op w = checkpoint crc32 w

  unfoldable pub run : List WalOp → Wal → Wal
  run [] w = w
  run (op ∷ ops) w = run ops (step op w)

  step_lem :
      (op : WalOp) (w : Wal)
      → (contents (step op w) ≡ contents w ++ encode_all crc32 (entries_of op))
        × Extends w.file (step op w).file
        × ((step op w).offset ≡ w.offset + length (encode_all crc32 (entries_of op)))
  unfolding step checkpoint
  step_lem (append_op t d) w =
      let e : WalEntry = record { entry_type = t; contents = d } in
      let (more, grown, moved) = append_lem t d w in
      (
        more ∙ ap (λ bs. contents w ++ bs) (sym (append-nil (encode_entry crc32 e))),
        grown,
        omega (arith, length-encode_all crc32 e [], moved),
      )
  step_lem sync_op w =
      let (same, grown, _) = sync_lem w in
      (same ∙ sym (append-nil (contents w)), grown, unfold sync flush_buffer in omega arith)
  step_lem checkpoint_op w =
      let e : WalEntry = record { entry_type = entry_checkpoint; contents = [] } in
      let (more, grown, moved) = append_lem entry_checkpoint [] w in
      let w' = (append crc32 entry_checkpoint [] w).1 in
      let (same, grown', _) = sync_lem w' in
      (
        same ∙ more ∙ ap (λ bs. contents w ++ bs) (sym (append-nil (encode_entry crc32 e))),
        Extends-trans w.file grown grown',
        unfold sync flush_buffer in omega (arith, length-encode_all crc32 e [], moved),
      )

  -- Any calls leave the file and the buffer holding what was there and every entry written since,
  -- in order; the file has only grown, and `offset` has advanced by the number of bytes written.
  pub run_writes :
      (ops : List WalOp) (w : Wal)
      → (contents (run ops w) ≡ contents w ++ encode_all crc32 (all_entries ops))
        × Extends w.file (run ops w).file
        × ((run ops w).offset ≡ w.offset + length (encode_all crc32 (all_entries ops)))
  unfolding run
  run_writes [] w = (sym (append-nil (contents w)), ([], sym (append-nil w.file)), omega arith)
  run_writes (op ∷ ops) w =
      let (first, grown, moved) = step_lem op w in
      let (rest, grown', moved') = run_writes ops (step op w) in
      let both = encode_all-append crc32 (entries_of op) (all_entries ops) in
      (
        rest
            ∙ ap (λ c. c ++ encode_all crc32 (all_entries ops)) first
            ∙ append_assoc (contents w) (encode_all crc32 (entries_of op)) _
            ∙ ap (λ c. contents w ++ c) (sym both),
        Extends-trans w.file grown grown',
        omega (
          arith,
          ap length both,
          length-append (encode_all crc32 (entries_of op)) (encode_all crc32 (all_entries ops)),
          moved,
          moved',
        ),
      )

  -- A log of whole entries is opened, written to, synced, written to again, and the machine stops:
  -- where every entry fits a 32-bit length and the checksum has 32 bits, recovery returns, of what
  -- follows the last checkpoint, everything up to the sync and a first part of what was written
  -- after it.
  pub recover-run :
      (prior : List WalEntry) (before after : List WalOp)
      → ((bs : Bytes) → crc32 bs < 2 ^ 32)
      → Fits ((prior ++ all_entries before) ++ all_entries after)
      → let stopped = run after (sync (run before (open_wal (some (encode_all crc32 prior))))) in
        (k : ℕ) × (k ≤ length (all_entries after))
        × (recover crc32 (some stopped.file)
            ≡ some (
                ok
                  (since_checkpoint ((prior ++ all_entries before) ++ take k (all_entries after)))))
  unfolding open_wal
  recover-run prior before after bound fits =
      let opened = open_wal (some (encode_all crc32 prior)) in
      let synced = sync (run before opened) in
      let old = prior ++ all_entries before in
      let (written, _, _) = run_writes before opened in
      let (kept, _, flushed) = sync_lem (run before opened) in
      let (more, grown, _) = run_writes after synced in
      let held : contents (run before opened) ≡ encode_all crc32 old =
        written
        ∙ ap (λ c. c ++ encode_all crc32 (all_entries before)) (append-nil (encode_all crc32 prior))
        ∙ sym (encode_all-append crc32 prior (all_entries before)) in
      let all : contents (run after synced) ≡ encode_all crc32 (old ++ all_entries after) =
        more
        ∙ ap (λ c. c ++ encode_all crc32 (all_entries after)) (kept ∙ held)
        ∙ sym (encode_all-append crc32 old (all_entries after)) in
      recover_crash crc32 bound old (all_entries after) (run after synced).file
        (run after synced).buffer fits all
        (omega
          (arith, ap length grown.1, length-append synced.file grown.0, ap length (flushed ∙ held)))
