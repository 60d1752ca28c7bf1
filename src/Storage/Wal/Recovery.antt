-- ===== src/Storage/Wal/Recovery.antt =====
-- What `recover` returns for a file of written entries: whole, cut by a crash, or damaged.
use native.Mathlib.Decide.{dec_lt}
use infralens.Prelude.{
  ℕ, zero, suc, ◌+◌, ◌≤◌, ◌<◌, ◌^◌, ◌≡◌, ◌≢◌, refl, sym, ◌∙◌, ap, Option, none, some, List, [], ◌∷◌,
  ◌++◌, append_assoc, append-nil, Bytes, Result, ok, err, length, length-append, arith, take,
  append_split, inl, inr, Option-cases, read_exact, length-read_exact, All-append,
}
use infralens.Storage.Errors.{StorageError, wal_crc_mismatch}
use infralens.Storage.Wal.{
  WalEntry, truncated, corrupt, entry, Decoded, next_entry, read_entry, read_data, check_data,
  recover_loop, recover, header, collect, header_len,
}
use infralens.Storage.Wal.Entries.{
  encode_entry, length-encode_entry, length-header, read_entry_partial, read_entry_damaged,
}
use infralens.Storage.Wal.Loop.{
  Fits, Fits-append, Fits-take, since_checkpoint, encode_all, encode_all-append, recover_entries,
  loop-truncated, loop-corrupt, loop-entry, next_entry_inside, next_entry-truncated,
}

module _ (crc32 : Bytes → ℕ) where
  -- An entry takes bytes of the file.
  length-check_data :
      (h : Bytes) (got : Option (Bytes × Bytes)) (n : ℕ) {e : WalEntry} {rest : Bytes}
      → ((d r : Bytes) → got ≡ some (d, r) → length r ≤ n)
      → check_data crc32 h got ≡ entry e rest
      → length rest ≤ n
  unfolding check_data
  length-check_data h none n small eq = ground arith
  length-check_data h (some (d, r)) n small eq = ground (arith, small d r refl)

  length-read_entry :
      (rest : Bytes) {e : WalEntry} {rest' : Bytes}
      → read_entry crc32 rest ≡ entry e rest'
      → length rest' < length rest
  unfolding read_entry read_data
  length-read_entry rest eq = elim (Option-cases (read_exact 9 rest)) [
    | inl short ↦ cc (rw (short, read_data) at eq)
    | inr ((h, r), read) ↦
        let size = length-read_exact 9 rest h r read in
        let less =
          length-check_data h (read_exact (header_len h) r) (length r)
            (λ d r' g. omega (arith, length-read_exact (header_len h) r d r' g))
            (rw (read, read_data) at eq) in
        omega (arith, size, less)
  ]

  length-next_entry :
      (rest : Bytes) (offset len : ℕ) {e : WalEntry} {rest' : Bytes}
      → next_entry crc32 rest offset len ≡ entry e rest'
      → length rest' < length rest
  unfolding next_entry
  length-next_entry rest offset len {e} {rest'} eq =
      ground (arith, length-read_entry rest {e = e} {rest' = rest'})

  -- The recovery of one round, given that of every shorter rest.
  loop_total_step :
      (fuel : ℕ) (rest : Bytes) (offset len : ℕ) (acc : List WalEntry) (d : Decoded)
      → next_entry crc32 rest offset len ≡ d
      → length rest < suc fuel
      → ((rest' : Bytes) (offset' : ℕ) (acc' : List WalEntry)
          → length rest' < fuel
          → (r : Result (List WalEntry) StorageError) × (recover_loop crc32 fuel rest' offset' len
                acc'
              ≡ some r))
      → (r : Result (List WalEntry) StorageError) × (recover_loop crc32
            (suc fuel)
            rest
            offset
            len
            acc
          ≡ some r)
  loop_total_step fuel rest offset len acc truncated e h ih =
      (ok acc, loop-truncated crc32 fuel rest offset len acc e)
  loop_total_step fuel rest offset len acc (corrupt x a) e h ih =
      (err (wal_crc_mismatch offset x a), loop-corrupt crc32 fuel rest offset len x a acc e)
  loop_total_step fuel rest offset len acc (entry d rest') e h ih =
      let less = length-next_entry rest offset len e in
      let (r, run) = ih rest' (offset + (9 + length d.contents)) (collect acc d) (omega arith) in
      (r, loop-entry crc32 fuel rest offset len acc d rest' e ∙ run)

  loop_total :
      (fuel : ℕ) (rest : Bytes) (offset len : ℕ) (acc : List WalEntry)
      → length rest < fuel
      → (r : Result (List WalEntry) StorageError) × (recover_loop crc32 fuel rest offset len acc
          ≡ some r)
  loop_total zero rest offset len acc h = absurd (omega arith)
  loop_total (suc fuel) rest offset len acc h =
      loop_total_step fuel rest offset len acc (next_entry crc32 rest offset len) refl h
        (λ rest' offset' acc' less. loop_total fuel rest' offset' len acc' less)

  -- Recovery ends with a result on every file.
  pub recover_total :
      (file : Option Bytes)
      → (r : Result (List WalEntry) StorageError) × (recover crc32 file ≡ some r)
  unfolding recover
  recover_total none = (ok [], refl)
  recover_total (some bytes) =
      loop_total (suc (length bytes)) bytes 0 (length bytes) [] (omega arith)

  -- What is left behind whole entries, if it is no entry, ends the recovery.
  loop_end :
      (left : ℕ) (tail : Bytes) (offset len : ℕ) (acc : List WalEntry)
      → length tail < left
      → read_entry crc32 tail ≡ truncated
      → recover_loop crc32 left tail offset len acc ≡ some (ok acc)
  loop_end zero tail offset len acc h e = absurd (omega arith)
  loop_end (suc left) tail offset len acc h e =
      loop-truncated crc32 left tail offset len acc (next_entry-truncated crc32 tail offset len e)

  module _ (crc32_bound : (bs : Bytes) → crc32 bs < 2 ^ 32) where
    recover-truncated :
        (es : List WalEntry) (tail : Bytes)
        → Fits es
        → read_entry crc32 tail ≡ truncated
        → recover crc32 (some (encode_all crc32 es ++ tail)) ≡ some (ok (since_checkpoint es))
    recover-truncated es tail fits e =
        let (left, enough, run) = recover_entries crc32 crc32_bound es tail fits in
        run ∙ loop_end left tail _ _ (since_checkpoint es) enough e

    -- Where the checksum has 32 bits and the entries fit, a file of whole entries is recovered to
    -- the entries behind its last checkpoint.
    pub recover-encode_all :
        (es : List WalEntry)
        → Fits es
        → recover crc32 (some (encode_all crc32 es)) ≡ some (ok (since_checkpoint es))
    unfolding read_entry read_data
    recover-encode_all es fits =
        ap (λ bs. recover crc32 (some bs)) (sym (append-nil (encode_all crc32 es)))
        ∙ recover-truncated es [] fits refl

    -- A prefix of written entries is whole entries and a tail that reads as truncated.
    whole_entries :
        (es : List WalEntry) (p q : Bytes)
        → Fits es
        → p ++ q ≡ encode_all crc32 es
        → (k : ℕ) × (tail : Bytes) × (k ≤ length es)
          × (p ≡ encode_all crc32 (take k es) ++ tail)
          × (read_entry crc32 tail ≡ truncated)
    unfolding read_entry read_data
    whole_entries [] [] q fits eq = (0, [], omega arith, refl, refl)
    whole_entries [] (x ∷ p) q fits eq = cc
    whole_entries (e ∷ es) p q fits eq = elim (dec_lt (length p) (length (encode_entry crc32 e))) [
      | yes part ↦
          let (zs, cut, _) =
            append_split p q (encode_entry crc32 e) (encode_all crc32 es) eq (omega arith) in
          (
            0,
            p,
            omega arith,
            refl,
            read_entry_partial crc32 crc32_bound e p zs fits.0 (sym cut)
                (omega (arith, length-encode_entry crc32 e)),
          )
      | no whole ↦
          let (zs, cut, more) =
            append_split (encode_entry crc32 e) (encode_all crc32 es) p q (sym eq) (omega arith) in
          let (k, tail, le, split, end) = whole_entries es zs q fits.1 (sym more) in
          (
            suc k,
            tail,
            omega arith,
            cut
                ∙ ap (λ bs. encode_entry crc32 e ++ bs) split
                ∙ sym (append_assoc (encode_entry crc32 e) (encode_all crc32 (take k es)) tail),
            end,
          )
    ]

    -- A file that is a prefix of the encoding of two groups of entries and holds the whole first
    -- group is recovered to the first group and some of the first entries of the second, less what
    -- a checkpoint clears.
    pub recover_crash :
        (old new : List WalEntry) (file lost : Bytes)
        → Fits (old ++ new)
        → file ++ lost ≡ encode_all crc32 (old ++ new)
        → length (encode_all crc32 old) ≤ length file
        → (k : ℕ) × (k ≤ length new)
          × (recover crc32 (some file) ≡ some (ok (since_checkpoint (old ++ take k new))))
    recover_crash old new file lost fits eq kept =
        let (fits_old, fits_new) = Fits-append old new fits in
        let (zs, cut, more) =
          append_split (encode_all crc32 old) (encode_all crc32 new) file lost
            (sym (encode_all-append crc32 old new) ∙ sym eq) kept in
        let (k, tail, le, split, end) = whole_entries new zs lost fits_new (sym more) in
        let whole : file ≡ encode_all crc32 (old ++ take k new) ++ tail =
          cut
          ∙ ap (λ bs. encode_all crc32 old ++ bs) split
          ∙ sym (append_assoc (encode_all crc32 old) (encode_all crc32 (take k new)) tail)
          ∙ ap (λ bs. bs ++ tail) (sym (encode_all-append crc32 old (take k new))) in
        (
          k,
          le,
          ap (λ bs. recover crc32 (some bs)) whole
              ∙ recover-truncated (old ++ take k new) tail
                  (All-append _ old (take k new) fits_old (Fits-take k new fits_new)) end,
        )

    loop_damaged :
        (left : ℕ) (tail : Bytes) (offset len expected actual : ℕ) (acc : List WalEntry)
        → length tail < left
        → offset < len
        → read_entry crc32 tail ≡ corrupt expected actual
        → recover_loop crc32 left tail offset len acc
          ≡ some (err (wal_crc_mismatch offset expected actual))
    loop_damaged zero tail offset len expected actual acc h lt e = absurd (omega arith)
    loop_damaged (suc left) tail offset len expected actual acc h lt e =
        loop-corrupt crc32 left tail offset len expected actual acc
          (next_entry_inside crc32 tail offset len lt e)

    -- Where the checksum has 32 bits and the entries fit, an entry whose data was damaged so that
    -- its checksum differs fails the whole recovery: the error names the offset of the entry, and
    -- the entries before it are not returned.
    pub recover_damaged :
        (es : List WalEntry) (e : WalEntry) (damaged rest : Bytes)
        → Fits es
        → length e.contents < 2 ^ 32
        → length damaged ≡ length e.contents
        → crc32 (e.entry_type ∷ damaged) ≢ crc32 (e.entry_type ∷ e.contents)
        → recover crc32 (
            some
              (encode_all crc32 es ++ (header crc32 e.entry_type e.contents ++ (damaged ++ rest))))
          ≡ some (
              err (
                wal_crc_mismatch
                  (length (encode_all crc32 es))
                  (crc32 (e.entry_type ∷ e.contents))
                  (crc32 (e.entry_type ∷ damaged))))
    recover_damaged es e damaged rest fits fit same ne =
        let tail = header crc32 e.entry_type e.contents ++ (damaged ++ rest) in
        let (left, enough, run) = recover_entries crc32 crc32_bound es tail fits in
        run
        ∙ loop_damaged left tail _ _ _ _ (since_checkpoint es) enough
            (omega (
              arith,
              length-append (encode_all crc32 es) tail,
              length-append (header crc32 e.entry_type e.contents) (damaged ++ rest),
              length-header crc32 e.entry_type e.contents,
            ))
            (read_entry_damaged crc32 crc32_bound e damaged rest fit same ne)
