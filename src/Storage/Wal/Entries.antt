-- ===== src/Storage/Wal/Entries.antt =====
-- What `append` writes is what `read_entry` reads.
use native.Mathlib.Decide.{dec_lt}
use infralens.Prelude.{
  ℕ, ◌+◌, ◌<◌, ◌^◌, ◌%◌, ◌≡◌, ◌≢◌, refl, sym, ◌∙◌, ap, some, ◌∷◌, ◌++◌, append_assoc, Bytes, length,
  arith, length-append, from_le_bytes-to_le_bytes, read_exact, read_exact-append, read_exact_short,
  append_split, ==_refl,
}
use infralens.Storage.Wal.{
  WalEntry, truncated, corrupt, entry, header, header_type, header_len, header_crc, read_data,
  read_entry, check_data,
}

module _ (crc32 : Bytes → ℕ) where
  -- The bytes that one entry takes in the file.
  abbrev pub encode_entry : WalEntry → Bytes
  encode_entry e = header crc32 e.entry_type e.contents ++ e.contents

  pub length-header : (t : ℕ) (d : Bytes) → length (header crc32 t d) ≡ 9
  unfolding header
  length-header t d = refl

  pub length-encode_entry : (e : WalEntry) → length (encode_entry e) ≡ 9 + length e.contents
  length-encode_entry e = omega (
    arith,
    length-append (header crc32 e.entry_type e.contents) e.contents,
    length-header e.entry_type e.contents,
  )

  header_type-header : (t : ℕ) (d : Bytes) → header_type (header crc32 t d) ≡ t
  unfolding header header_type
  header_type-header t d = omega arith

  header_len-header :
      (t : ℕ) (d : Bytes) → length d < 2 ^ 32 → header_len (header crc32 t d) ≡ length d
  unfolding header header_len
  header_len-header t d h =
      from_le_bytes-to_le_bytes 4 (length d % 2 ^ 32) (omega arith) ∙ omega arith

  module _ (crc32_bound : (bs : Bytes) → crc32 bs < 2 ^ 32) where
    header_crc-header : (t : ℕ) (d : Bytes) → header_crc (header crc32 t d) ≡ crc32 (t ∷ d)
    unfolding header header_crc
    header_crc-header t d = from_le_bytes-to_le_bytes 4 _ (crc32_bound (t ∷ d))

    pub read_entry-encode_entry :
        (e : WalEntry) (rest : Bytes)
        → length e.contents < 2 ^ 32
        → read_entry crc32 (encode_entry e ++ rest) ≡ entry e rest
    unfolding read_entry read_data check_data
    read_entry-encode_entry e rest h =
        let t = header_type-header e.entry_type e.contents in
        let n = header_len-header e.entry_type e.contents h in
        let c = header_crc-header e.entry_type e.contents in
        let hd = header crc32 e.entry_type e.contents in
        let first : read_exact 9 (hd ++ (e.contents ++ rest)) ≡ some (hd, e.contents ++ rest) =
          rw (length-header e.entry_type e.contents) at
            (read_exact-append hd (e.contents ++ rest)) in
        rw (
          append_assoc hd e.contents rest,
          first,
          n,
          read_exact-append e.contents rest,
          t,
          c,
          ==_refl,
        )

    -- Damaged data under a whole header fails the checksum.
    pub read_entry_damaged :
        (e : WalEntry) (damaged rest : Bytes)
        → length e.contents < 2 ^ 32
        → length damaged ≡ length e.contents
        → crc32 (e.entry_type ∷ damaged) ≢ crc32 (e.entry_type ∷ e.contents)
        → read_entry crc32 (header crc32 e.entry_type e.contents ++ (damaged ++ rest))
          ≡ corrupt (crc32 (e.entry_type ∷ e.contents)) (crc32 (e.entry_type ∷ damaged))
    unfolding read_entry read_data check_data
    read_entry_damaged e damaged rest h same ne =
        let t = header_type-header e.entry_type e.contents in
        let n = header_len-header e.entry_type e.contents h ∙ sym same in
        let c = header_crc-header e.entry_type e.contents in
        let hd = header crc32 e.entry_type e.contents in
        let first : read_exact 9 (hd ++ (damaged ++ rest)) ≡ some (hd, damaged ++ rest) =
          rw (length-header e.entry_type e.contents) at (read_exact-append hd (damaged ++ rest)) in
        rw (first, n, read_exact-append damaged rest, t, c) (ground arith)

    -- A proper prefix of an entry reads as truncated.
    pub read_entry_partial :
        (e : WalEntry) (p q : Bytes)
        → length e.contents < 2 ^ 32
        → p ++ q ≡ encode_entry e
        → length p < 9 + length e.contents
        → read_entry crc32 p ≡ truncated
    unfolding read_entry read_data check_data
    read_entry_partial e p q h eq short = elim (dec_lt (length p) 9) [
      | yes tiny ↦ rw (read_exact_short 9 p tiny)
      | no long ↦
          let hd = header crc32 e.entry_type e.contents in
          let size = length-header e.entry_type e.contents in
          let (zs, cut, more) = append_split hd e.contents p q (sym eq) (omega arith) in
          let first : read_exact 9 (hd ++ zs) ≡ some (hd, zs) =
            rw size at (read_exact-append hd zs) in
          let total : length p ≡ 9 + length zs =
            omega (arith, ap length cut, length-append hd zs) in
          rw (cut, first, header_len-header e.entry_type e.contents h)
            (rw (read_exact_short (length e.contents) zs (omega arith)) refl)
    ]
