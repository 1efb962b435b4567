-- ===== src/Tests/Journals.antt =====
-- A transaction with one promotion and one removal.
use nostdb_core.Base.{
  ◌<◌, ◌≡◌, refl, Bool, false, List, [], ◌∷◌, some, length, take, max_length, arith,
}
use nostdb_core.Base.Words.{le_bytes}
use nostdb_core.Base.Utf8.{is_utf8}
use nostdb_core.Journal.{
  JournalRecord, begin, promote, remove, read_records, replay, recovery_of, encode_all,
  encode_transaction, staged_files, encode, frame, payload, string_bytes, kind,
}
use nostdb_core.Journal.Codec.{AllValid}
use nostdb_core.Journal.Prefix.{intact, is_torn}
use nostdb_core.Journal.Progress.{replay-total}
use nostdb_core.Journal.Recovers.{
  replay-prefix, records_of, replay-encode_transaction, replay-encode_transaction_torn,
}

abbrev actions : List JournalRecord
actions = promote (b's' ∷ []) (b'd' ∷ []) ∷ remove (b'x' ∷ []) ∷ []

valid : AllValid (begin 7 ∷ actions)
unfolding is_utf8
valid = (omega arith, ((refl, refl, omega arith), ((refl, omega arith), tt)))

size : length (encode_transaction 7 actions) ≡ 71
unfolding encode_transaction encode_all encode frame payload string_bytes kind le_bytes
size = refl

small : length (encode_transaction 7 actions) < max_length
small = omega (arith, size)

replay-encode_transaction_example :
    replay (encode_transaction 7 actions)
    ≡ record { committed = records_of 7 actions; abandoned_staged = []; truncated = false }
replay-encode_transaction_example = replay-encode_transaction 7 actions (tt, (tt, tt)) valid small

replay-encode_transaction_torn_example : replay (take 60 (encode_transaction 7 actions)) ≡ record {
  committed = [];
  abandoned_staged = staged_files (intact 60 (begin 7 ∷ actions));
  truncated = is_torn 60 (records_of 7 actions);
}
replay-encode_transaction_torn_example =
    replay-encode_transaction_torn 7 actions (tt, (tt, tt)) valid small 60 (omega (arith, size))

size_actions : length (encode_all actions) ≡ 39
unfolding encode_all encode frame payload string_bytes kind le_bytes
size_actions = refl

replay-prefix_example :
    replay (take 30 (encode_all actions)) ≡ recovery_of (intact 30 actions) (is_torn 30 actions)
replay-prefix_example = replay-prefix 30 actions valid.1 (omega (arith, size_actions))

replay-total_example :
    (records : List JournalRecord) × (truncated : Bool) × (read_records 4 (1 ∷ 2 ∷ 3 ∷ []) 0 []
      ≡ some (records, truncated))
    × (replay (1 ∷ 2 ∷ 3 ∷ []) ≡ recovery_of records truncated)
replay-total_example = replay-total (1 ∷ 2 ∷ 3 ∷ [])
