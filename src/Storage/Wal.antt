-- ===== src/Storage/Wal.antt =====
-- crates/infralens-storage/src/wal.rs: the write-ahead log. The file is its bytes; the writer is the
-- standard library's `BufWriter`, whose buffer is lost in a crash. Writes and reads of the disk do
-- not fail here, and offsets do not reach 2^64.
pub mod Entries
pub mod Loop
pub mod Recovery
pub mod Writer
pub mod Tests
use infralens.Prelude.{
  ℕ, zero, suc, ◌+◌, ◌-◌, ◌*◌, ◌%◌, ◌^◌, Bool, true, false, Option, none, some, List, [], ◌∷◌, ◌++◌,
  Bytes, Result, ok, err, length, to_le_bytes, from_le_bytes, read_exact, take, drop, get_or_else,
  ltb, leb, ◌==◌, if◌then◌else◌,
}
use infralens.Storage.Errors.{StorageError, wal_crc_mismatch}

abbrev pub entry_log : ℕ
entry_log = 0x01

abbrev pub entry_metric : ℕ
entry_metric = 0x02

abbrev pub entry_span : ℕ
entry_span = 0x03

abbrev pub entry_checkpoint : ℕ
entry_checkpoint = 0xFF

abbrev pub header_size : ℕ
header_size = 9

abbrev pub buffer_capacity : ℕ
buffer_capacity = 256 * 1024

pub record Wal : Type 0 where
  pub file : Bytes
  pub buffer : Bytes
  pub offset : ℕ

-- A file that is not there is created.
unfoldable pub open_wal : Option Bytes → Wal
open_wal file =
    let bytes = get_or_else file [] in record { file = bytes; buffer = []; offset = length bytes }

-- `BufWriter::flush`
unfoldable pub flush_buffer : Wal → Wal
flush_buffer w = record w { file = w.file ++ w.buffer; buffer = [] }

-- What does not fit flushes the buffer first.
unfoldable pub make_room : ℕ → Wal → Wal
make_room size w = if ltb (buffer_capacity - length w.buffer) size then flush_buffer w else w

-- A piece as large as the buffer goes to the file directly.
unfoldable pub place : Bytes → Wal → Wal
place bytes w =
    if leb buffer_capacity (length bytes)
    then record w { file = w.file ++ bytes }
    else record w { buffer = w.buffer ++ bytes }

-- `BufWriter::write_all`
unfoldable pub write_all : Bytes → Wal → Wal
write_all bytes w = place bytes (make_room (length bytes) w)

pub record WalEntry : Type 0 where
  pub entry_type : ℕ
  pub contents : Bytes

-- What one round of the recovery loop reads from the file.
pub data Decoded : Type 0 where
  truncated : Decoded
  corrupt : ℕ → ℕ → Decoded
  entry : WalEntry → Bytes → Decoded

-- The header's fields, by position.
unfoldable pub header_crc : Bytes → ℕ
header_crc h = from_le_bytes (take 4 h)

unfoldable pub header_len : Bytes → ℕ
header_len h = from_le_bytes (take 4 (drop 4 h))

unfoldable pub header_type : Bytes → ℕ
header_type h = from_le_bytes (take 1 (drop 8 h))

unfoldable pub sync : Wal → Wal
sync w = flush_buffer w

-- `entries` after one more entry: a checkpoint clears what was collected.
unfoldable pub collect : List WalEntry → WalEntry → List WalEntry
collect entries e = if e.entry_type == entry_checkpoint then [] else entries ++ e ∷ []

-- `crc32` is the checksum of the crate crc32fast.
module _ (crc32 : Bytes → ℕ) where
  -- `Cons [type] data` is what the checksum covers.
  unfoldable pub header : ℕ → Bytes → Bytes
  header entry_type contents =
      to_le_bytes 4 (crc32 (entry_type ∷ contents))
      ++ (to_le_bytes 4 (length contents % 2 ^ 32) ++ entry_type ∷ [])

  unfoldable pub append : ℕ → Bytes → Wal → ℕ × Wal
  append entry_type contents w =
      let written = write_all contents (write_all (header entry_type contents) w) in
      (w.offset, record written { offset = w.offset + (header_size + length contents) })

  unfoldable pub checkpoint : Wal → Wal
  checkpoint w = sync (append entry_checkpoint [] w).1

  -- The checksum test, on what was read behind the header `h`.
  unfoldable pub check_data : Bytes → Option (Bytes × Bytes) → Decoded
  check_data h none = truncated
  check_data h (some (contents, rest)) =
      let actual = crc32 (header_type h ∷ contents) in
      if actual == header_crc h
      then entry (record { entry_type = header_type h; contents = contents }) rest
      else corrupt (header_crc h) actual

  unfoldable pub read_data : Option (Bytes × Bytes) → Decoded
  read_data none = truncated
  read_data (some (h, rest)) = check_data h (read_exact (header_len h) rest)

  unfoldable pub read_entry : Bytes → Decoded
  read_entry rest = read_data (read_exact header_size rest)

  -- The end of the file ends the loop as a truncated entry does.
  unfoldable pub next_entry : Bytes → ℕ → ℕ → Decoded
  next_entry rest offset len = if leb len offset then truncated else read_entry rest

  -- The loop; `none` means that the fuel ran out.
  unfoldable pub recover_loop :
      ℕ → Bytes → ℕ → ℕ → List WalEntry → Option (Result (List WalEntry) StorageError)
  recover_loop zero rest offset len entries = none
  recover_loop (suc fuel) rest offset len entries = elim (next_entry rest offset len) [
    | truncated ↦ some (ok entries)
    | corrupt expected actual ↦ some (err (wal_crc_mismatch offset expected actual))
    | entry e rest' ↦
        recover_loop fuel rest' (offset + (header_size + length e.contents)) len (collect entries e)
  ]

  -- A missing file has no entries.
  unfoldable pub recover : Option Bytes → Option (Result (List WalEntry) StorageError)
  unfolding recover_loop next_entry read_entry read_data check_data collect header_len header_type
      header_crc
  recover none = some (ok [])
  recover (some bytes) = recover_loop (suc (length bytes)) bytes 0 (length bytes) []
