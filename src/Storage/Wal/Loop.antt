-- ===== src/Storage/Wal/Loop.antt =====
-- The recovery loop on a file of written entries, and what a checkpoint leaves of them.
use mathlib.Core.List.{foldl}
use infralens.Prelude.{
  ℕ, zero, suc, ◌+◌, ◌<◌, ◌^◌, ◌≡◌, refl, sym, ◌∙◌, ap, Bool, true, false, some, List, [], ◌∷◌,
  ◌++◌, append_assoc, append-nil, Bytes, ok, err, length, length-append, arith, All, ◌==◌,
  if◌then◌else◌, take,
}
use infralens.Storage.Errors.{wal_crc_mismatch}
use infralens.Storage.Wal.{
  WalEntry, truncated, corrupt, entry, entry_checkpoint, Decoded, next_entry, read_entry, collect,
  recover_loop, recover,
}
use infralens.Storage.Wal.Entries.{encode_entry, length-encode_entry, read_entry-encode_entry}

abbrev pub is_checkpoint : WalEntry → Bool
is_checkpoint e = e.entry_type == entry_checkpoint

abbrev pub has_checkpoint : List WalEntry → Bool
has_checkpoint [] = false
has_checkpoint (e ∷ es) = if is_checkpoint e then true else has_checkpoint es

-- The entries behind the last checkpoint.
abbrev pub since_checkpoint : List WalEntry → List WalEntry
since_checkpoint [] = []
since_checkpoint (e ∷ es) =
    let later = since_checkpoint es in
    if has_checkpoint es then later else if is_checkpoint e then es else e ∷ es

-- Lengths that the format can hold: the length field has 32 bits.
abbrev pub Fits : List WalEntry → Type 0
Fits = All (λ e. length e.contents < 2 ^ 32)

pub Fits-append : (xs ys : List WalEntry) → Fits (xs ++ ys) → Fits xs × Fits ys
Fits-append [] ys h = (tt, h)
Fits-append (x ∷ xs) ys h = let (hx, hy) = Fits-append xs ys h.1 in ((h.0, hx), hy)

pub Fits-take : (k : ℕ) (es : List WalEntry) → Fits es → Fits (take k es)
Fits-take zero es h = tt
Fits-take (suc k) [] h = tt
Fits-take (suc k) (e ∷ es) h = (h.0, Fits-take k es h.1)

since_checkpoint_none : (es : List WalEntry) → has_checkpoint es ≡ false → since_checkpoint es ≡ es
since_checkpoint_none [] h = refl
since_checkpoint_none (e ∷ es) h = ground arith

-- Collecting one entry after another leaves what follows the last checkpoint.
collect_all :
    (es acc : List WalEntry)
    → foldl collect acc es ≡ (if has_checkpoint es then since_checkpoint es else acc ++ es)
unfolding collect
collect_all [] acc = sym (append-nil acc)
collect_all (e ∷ es) acc = ground (
  arith,
  collect_all es [],
  collect_all es (acc ++ e ∷ []),
  append_assoc acc (e ∷ []) es,
  since_checkpoint_none es,
)

collect-since_checkpoint : (es : List WalEntry) → foldl collect [] es ≡ since_checkpoint es
collect-since_checkpoint es = ground (arith, collect_all es [], since_checkpoint_none es)

module _ (crc32 : Bytes → ℕ) where
  abbrev pub encode_all : List WalEntry → Bytes
  encode_all [] = []
  encode_all (e ∷ es) = encode_entry crc32 e ++ encode_all es

  pub encode_all-append :
      (xs ys : List WalEntry) → encode_all (xs ++ ys) ≡ encode_all xs ++ encode_all ys
  encode_all-append [] ys = refl
  encode_all-append (x ∷ xs) ys =
      ap (λ bs. encode_entry crc32 x ++ bs) (encode_all-append xs ys)
      ∙ sym (append_assoc (encode_entry crc32 x) (encode_all xs) (encode_all ys))

  -- One round of the loop, by what it reads.
  pub loop-entry :
      (fuel : ℕ) (rest : Bytes) (offset len : ℕ) (acc : List WalEntry) (e : WalEntry)
      (rest' : Bytes)
      → next_entry crc32 rest offset len ≡ entry e rest'
      → recover_loop crc32 (suc fuel) rest offset len acc
        ≡ recover_loop crc32 fuel rest' (offset + (9 + length e.contents)) len (collect acc e)
  unfolding recover_loop
  loop-entry fuel rest offset len acc e rest' h = rw (h, recover_loop)

  pub loop-truncated :
      (fuel : ℕ) (rest : Bytes) (offset len : ℕ) (acc : List WalEntry)
      → next_entry crc32 rest offset len ≡ truncated
      → recover_loop crc32 (suc fuel) rest offset len acc ≡ some (ok acc)
  unfolding recover_loop
  loop-truncated fuel rest offset len acc h = rw (h, recover_loop)

  pub loop-corrupt :
      (fuel : ℕ) (rest : Bytes) (offset len expected actual : ℕ) (acc : List WalEntry)
      → next_entry crc32 rest offset len ≡ corrupt expected actual
      → recover_loop crc32 (suc fuel) rest offset len acc
        ≡ some (err (wal_crc_mismatch offset expected actual))
  unfolding recover_loop
  loop-corrupt fuel rest offset len expected actual acc h = rw (h, recover_loop)

  -- Before the end of the file the loop reads an entry.
  pub next_entry_inside :
      (rest : Bytes) (offset len : ℕ) {d : Decoded}
      → offset < len
      → read_entry crc32 rest ≡ d
      → next_entry crc32 rest offset len ≡ d
  unfolding next_entry
  next_entry_inside rest offset len h e = ground arith

  pub next_entry-truncated :
      (rest : Bytes) (offset len : ℕ)
      → read_entry crc32 rest ≡ truncated
      → next_entry crc32 rest offset len ≡ truncated
  unfolding next_entry
  next_entry-truncated rest offset len h = ground arith

  pub length-encode_all :
      (e : WalEntry) (es : List WalEntry)
      → length (encode_all (e ∷ es)) ≡ 9 + length e.contents + length (encode_all es)
  length-encode_all e es =
      omega
        (arith, length-append (encode_entry crc32 e) (encode_all es), length-encode_entry crc32 e)

  module _ (crc32_bound : (bs : Bytes) → crc32 bs < 2 ^ 32) where
    next_entry-encode_entry :
        (e : WalEntry) (es : List WalEntry) (tail : Bytes) (offset len : ℕ)
        → length e.contents < 2 ^ 32
        → offset + length (encode_all (e ∷ es) ++ tail) ≡ len
        → next_entry crc32 (encode_all (e ∷ es) ++ tail) offset len
          ≡ entry e (encode_all es ++ tail)
    next_entry-encode_entry e es tail offset len fits at =
        next_entry_inside _ offset len
          (omega (arith, length-append (encode_all (e ∷ es)) tail, length-encode_all e es))
          (rw (append_assoc (encode_entry crc32 e) (encode_all es) tail)
            (read_entry-encode_entry crc32 crc32_bound e (encode_all es ++ tail) fits))

    -- The loop reads the whole entries one by one and goes on with what is left.
    loop_entries :
        (fuel : ℕ) (es : List WalEntry) (tail : Bytes) (offset len : ℕ) (acc : List WalEntry)
        → Fits es
        → length (encode_all es ++ tail) < fuel
        → offset + length (encode_all es ++ tail) ≡ len
        → (left : ℕ) × (length tail < left)
          × (recover_loop crc32 fuel (encode_all es ++ tail) offset len acc
              ≡ recover_loop crc32 left tail
                  (offset + length (encode_all es))
                  len
                  (foldl collect acc es))
    loop_entries fuel [] tail offset len acc fits enough at =
        (fuel, enough, ap (λ o. recover_loop crc32 fuel tail o len acc) (omega arith))
    loop_entries zero (e ∷ es) tail offset len acc fits enough at = absurd (omega arith)
    loop_entries (suc fuel) (e ∷ es) tail offset len acc fits enough at =
        let size = length-encode_all e es in
        let whole = length-append (encode_all (e ∷ es)) tail in
        let part = length-append (encode_all es) tail in
        let (left, enough', rest) =
          loop_entries fuel es tail (offset + (9 + length e.contents)) len (collect acc e) fits.1
            (omega (arith, size, whole, part)) (omega (arith, size, whole, part)) in
        let moved : offset + (9 + length e.contents) + length (encode_all es)
            ≡ offset + length (encode_all (e ∷ es)) =
          omega (arith, size) in
        (
          left,
          enough',
          loop-entry fuel (encode_all (e ∷ es) ++ tail) offset len acc e (encode_all es ++ tail)
                (next_entry-encode_entry e es tail offset len fits.0 at)
              ∙ rest
              ∙ ap (λ o. recover_loop crc32 left tail o len (foldl collect (collect acc e) es))
                  moved,
        )

    -- `recover` of written entries and a tail is the loop at the tail.
    pub recover_entries :
        (es : List WalEntry) (tail : Bytes)
        → Fits es
        → (left : ℕ) × (length tail < left)
          × (recover crc32 (some (encode_all es ++ tail))
              ≡ recover_loop crc32 left tail
                  (length (encode_all es))
                  (length (encode_all es ++ tail))
                  (since_checkpoint es))
    unfolding recover
    recover_entries es tail fits =
        let bytes = encode_all es ++ tail in
        let (left, enough, e) =
          loop_entries (suc (length bytes)) es tail 0 (length bytes) [] fits (omega arith)
            (omega arith) in
        (
          left,
          enough,
          e
              ∙ ap (λ o. recover_loop crc32 left tail o (length bytes) (foldl collect [] es))
                  (omega arith)
              ∙ ap (recover_loop crc32 left tail (length (encode_all es)) (length bytes))
                  (collect-since_checkpoint es),
        )
