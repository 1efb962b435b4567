-- ===== src/Journal/Replay.antt =====
-- `replay` and `encode_transaction`.
use Prim.Native.Nat.{min}
use nostdb_core.Base.{
  ◌>>=◌, ℕ, zero, suc, ◌+◌, ◌-◌, ◌%◌, Bool, true, false, List, [], ◌∷◌, ◌++◌, Option, none, some,
  ltb, ◌==◌, if◌then◌else◌, Bytes, length, take, drop, slice,
}
use nostdb_core.Base.Words.{u32_mod, u64_mod, checked_add}
use nostdb_core.Crc.{crc32c}
use nostdb_core.Generation.{Generation}
use nostdb_core.Journal.Record.{
  JournalRecord, begin, promote, commit, record_header_length, covered, encode,
}
use nostdb_core.Journal.Cursor.{read_u32, decode_payload}

pub record Recovery : Type 0 where
  pub committed : List JournalRecord
  pub abandoned_staged : List Bytes
  pub truncated : Bool

abbrev saturating_add : ℕ → ℕ → ℕ
saturating_add a b = min (a + b) (u64_mod - 1)

-- The three fields of a header.
unfoldable pub read_header : Bytes → Option (ℕ × ℕ × ℕ)
read_header header = do
  (kind, c) ← read_u32 (record { bytes = header; at = 0 })
  (length, c') ← read_u32 c
  (stored_crc, c'') ← read_u32 c'
  some (kind, length, stored_crc)

-- The loop's body at `at`: a record and the place behind it, or `none` where the loop sets
-- `truncated` and breaks. `usize` has 64 bits, so that `usize::try_from` on the length succeeds.
unfoldable pub read_record : Bytes → ℕ → Option (JournalRecord × ℕ)
read_record bytes at = do
  header ← slice bytes at (saturating_add at record_header_length)
  (kind, length, stored_crc) ← read_header header
  let payload_start = at + record_header_length
  payload_end ← checked_add payload_start length
  payload ← slice bytes payload_start payload_end
  if crc32c (covered kind (length % u32_mod) payload) == stored_crc
      then (do r ← decode_payload kind payload; some (r, payload_end))
      else none

-- The loop, with the records read so far; it returns them with `truncated`. `none` means that the
-- fuel ran out.
unfoldable pub read_records :
    ℕ → Bytes → ℕ → List JournalRecord → Option (List JournalRecord × Bool)
read_records zero bytes at records = none
read_records (suc fuel) bytes at records =
    if ltb at (length bytes)
    then elim (read_record bytes at) [
      | none ↦ some (records, true)
      | some (r, next) ↦ read_records fuel bytes next (records ++ r ∷ [])
    ]
    else some (records, false)

unfoldable pub is_commit : JournalRecord → Bool
is_commit commit = true
is_commit _ = false

unfoldable pub is_begin : JournalRecord → Bool
is_begin (begin _) = true
is_begin _ = false

unfoldable pub rposition {ℓ} : {A : Type ℓ} → (A → Bool) → List A → Option ℕ
rposition p [] = none
rposition p (x ∷ xs) = elim (rposition p xs) [
  | some i ↦ some (suc i)
  | none ↦ if p x then some 0 else none
]

-- The staged files of the `Promote` records.
unfoldable pub staged_files : List JournalRecord → List Bytes
staged_files [] = []
staged_files (promote staged _ ∷ rest) = staged ∷ staged_files rest
staged_files (_ ∷ rest) = staged_files rest

-- From the last `Begin` of the records up to the last `Commit`.
unfoldable pub last_transaction : List JournalRecord → List JournalRecord
last_transaction kept = elim (rposition is_begin kept) [ none ↦ kept | some i ↦ drop i kept ]

-- What `replay` makes of the records that its loop read.
unfoldable pub recovery_of : List JournalRecord → Bool → Recovery
recovery_of records truncated = elim (rposition is_commit records) [
  | none ↦ record { committed = []; abandoned_staged = staged_files records; truncated = truncated }
  | some i ↦ record {
    committed = last_transaction (take (i + 1) records);
    abandoned_staged = staged_files (drop (i + 1) records);
    truncated = truncated;
  }
]

-- Each round of the loop takes a byte or more. `Journal.Progress` shows that the fuel suffices, so
-- that the first case is never taken.
unfoldable pub replay : Bytes → Recovery
replay bytes = elim (read_records (suc (length bytes)) bytes 0 []) [
  | none ↦ recovery_of [] true
  | some (records, truncated) ↦ recovery_of records truncated
]

unfoldable pub encode_all : List JournalRecord → Bytes
encode_all [] = []
encode_all (r ∷ rs) = encode r ++ encode_all rs

unfoldable pub encode_transaction : Generation → List JournalRecord → Bytes
encode_transaction generation actions =
    encode (begin generation) ++ (encode_all actions ++ encode commit)
