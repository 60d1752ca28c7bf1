-- ===== src/Storage/Wal/Tests.antt =====
-- Runs of the log at concrete inputs, and the theorems about it at inputs that meet their hypotheses.
use infralens.Prelude.{
  ℕ, ◌+◌, ◌%◌, ◌^◌, ◌≤◌, ◌<◌, ◌≡◌, refl, none, some, List, [], ◌∷◌, ◌++◌, Bytes, Result, ok, err,
  length, take, sum, arith,
}
use infralens.Storage.Errors.{StorageError, wal_crc_mismatch}
use infralens.Storage.Wal.{
  WalEntry, entry_log, entry_metric, entry_span, entry_checkpoint, open_wal, sync, recover, header,
}
use infralens.Storage.Wal.Loop.{since_checkpoint, encode_all}
use infralens.Storage.Wal.Recovery.{recover_total, recover_crash, recover_damaged}
use infralens.Storage.Wal.Writer.{
  WalOp, append_op, checkpoint_op, all_entries, contents, Extends, run, run_writes, recover-run,
}

abbrev checksum : Bytes → ℕ
checksum bs = sum bs % 2 ^ 32

checksum_bound : (bs : Bytes) → checksum bs < 2 ^ 32
checksum_bound bs = omega arith

abbrev log_entry : WalEntry
log_entry = record { entry_type = entry_log; contents = 104 ∷ 105 ∷ [] }

abbrev span_entry : WalEntry
span_entry = record { entry_type = entry_span; contents = 7 ∷ [] }

abbrev mark : WalEntry
mark = record { entry_type = entry_checkpoint; contents = [] }

abbrev two_entries : List WalEntry
two_entries = log_entry ∷ span_entry ∷ []

-- A log entry, a checkpoint and a span: only the span is recovered.
checkpoint_clears :
    recover checksum (some (encode_all checksum (log_entry ∷ mark ∷ span_entry ∷ [])))
    ≡ some (ok (span_entry ∷ []))
unfolding recover header
checkpoint_clears = refl

recover_total_example :
    (r : Result (List WalEntry) StorageError) × (recover checksum (some (1 ∷ 2 ∷ 3 ∷ [])) ≡ some r)
recover_total_example = recover_total checksum (some (1 ∷ 2 ∷ 3 ∷ []))

-- The file holds the log entry and the first byte of the span entry.
recover_crash_example :
    (k : ℕ) × (k ≤ 1)
    × (recover checksum (some (encode_all checksum (log_entry ∷ []) ++ 10 ∷ []))
        ≡ some (ok (since_checkpoint ((log_entry ∷ []) ++ take k (span_entry ∷ [])))))
unfolding header
recover_crash_example =
    recover_crash checksum checksum_bound (log_entry ∷ []) (span_entry ∷ [])
      (encode_all checksum (log_entry ∷ []) ++ 10 ∷ []) (0 ∷ 0 ∷ 0 ∷ 1 ∷ 0 ∷ 0 ∷ 0 ∷ 3 ∷ 7 ∷ [])
      (omega arith) refl (omega arith)

recover_damaged_example :
    recover checksum (
      some (
        encode_all checksum (log_entry ∷ [])
        ++ (header checksum entry_span (7 ∷ []) ++ (8 ∷ [] ++ []))))
    ≡ some (err (wal_crc_mismatch (length (encode_all checksum (log_entry ∷ []))) 10 11))
recover_damaged_example =
    recover_damaged checksum checksum_bound (log_entry ∷ []) span_entry (8 ∷ []) [] (omega arith)
      (omega arith) refl (omega arith)

abbrev some_ops : List WalOp
some_ops = append_op entry_log (104 ∷ 105 ∷ []) ∷ checkpoint_op ∷ []

run_writes_example :
    let w = open_wal none in
    (contents (run checksum some_ops w) ≡ contents w ++ encode_all checksum (all_entries some_ops))
    × Extends w.file (run checksum some_ops w).file
    × ((run checksum some_ops w).offset
        ≡ w.offset + length (encode_all checksum (all_entries some_ops)))
run_writes_example = run_writes checksum some_ops (open_wal none)

recover-run_example :
    let stopped =
      run checksum
        (append_op entry_metric (9 ∷ []) ∷ [])
        (sync (run checksum some_ops (open_wal (some (encode_all checksum two_entries))))) in
    (k : ℕ) × (k ≤ 1)
    × (recover checksum (some stopped.file)
        ≡ some (
            ok (
              since_checkpoint (
                (two_entries ++ all_entries some_ops)
                ++ take k (all_entries (append_op entry_metric (9 ∷ []) ∷ []))))))
recover-run_example =
    recover-run checksum two_entries some_ops (append_op entry_metric (9 ∷ []) ∷ []) checksum_bound
      (omega arith)
