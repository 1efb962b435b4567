-- ===== src/Journal/Progress.antt =====
-- The loop of `replay` ends on every input: its fuel suffices.
use nostdb_core.Base.{
  ℕ, zero, suc, ◌+◌, ◌≤◌, ◌<◌, ◌≡◌, refl, Bool, true, false, List, [], ◌∷◌, ◌++◌, inl, inr, some,
  ltb, Bytes, Bool-cases, Option-cases, length, slice, arith,
}
use nostdb_core.Base.Words.{checked_add}
use nostdb_core.Journal.Record.{JournalRecord}
use nostdb_core.Journal.Replay.{read_record, read_records, replay, recovery_of}

-- A record that is read takes up bytes.
pub read_record-progress :
    (bytes : Bytes) (at : ℕ) (r : JournalRecord) (next : ℕ)
    → read_record bytes at ≡ some (r, next)
    → (at + 12 ≤ next) × (next ≤ length bytes)
unfolding read_record checked_add slice
read_record-progress bytes at r next h = ground arith

read_records-total :
    (fuel : ℕ) (bytes : Bytes) (at : ℕ) (acc : List JournalRecord)
    → at ≤ length bytes
    → length bytes < at + fuel
    → (p : List JournalRecord × Bool) × (read_records fuel bytes at acc ≡ some p)
unfolding read_records
read_records-total zero bytes at acc inside h = absurd (omega arith)
read_records-total (suc fuel) bytes at acc inside h = elim (Bool-cases (ltb at (length bytes))) [
  | inr done ↦ ((acc, false), rw done refl)
  | inl more ↦ elim (Option-cases (read_record bytes at)) [
    | inl torn ↦ ((acc, true), rw more (rw torn refl))
    | inr ((r, next), read) ↦
        let p = read_record-progress bytes at r next read in
        let (found, e) =
          read_records-total fuel bytes next (acc ++ r ∷ []) p.1 (omega (arith, p.0)) in
        (found, rw more (rw (read, read_records) e))
  ]
]

-- On every input the loop of `replay` ends before its fuel does, and `replay` decides on the records
-- that it read.
pub replay-total :
    (bytes : Bytes)
    → (records : List JournalRecord) × (truncated : Bool) × (read_records
          (suc (length bytes))
          bytes
          0
          []
        ≡ some (records, truncated))
      × (replay bytes ≡ recovery_of records truncated)
unfolding replay
replay-total bytes =
    let (p, e) = read_records-total (suc (length bytes)) bytes 0 [] (omega arith) (omega arith) in
    (p.0, p.1, e, rw (e, replay) refl)
