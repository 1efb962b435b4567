-- ===== src/Tests/Transactions.antt =====
-- A transaction that replaces "a", creates "b" and removes "c", with the journal "j", stopped while
-- it carries its actions out.
use nostdb_core.Base.{
  ◌≡◌, refl, false, List, [], ◌∷◌, none, some, if◌then◌else◌, same_bytes, length, arith,
}
use nostdb_core.Base.Utf8.{is_utf8}
use nostdb_core.Journal.{
  JournalRecord, promote, remove, encode_transaction, encode_all, encode, frame, payload,
  string_bytes, kind,
}
use nostdb_core.Journal.Codec.{AllValid}
use nostdb_core.Base.Words.{le_bytes}
use nostdb_core.Files.{FilePath, FileMap, Fault, Disk, ok, restart}
use nostdb_core.Files.Laws.{sound}
use nostdb_core.FileTransaction.{FileTransaction, apply, abandon, commit}
use nostdb_core.FileTransaction.Carried.{Replayable, Spares, NotReached}
use nostdb_core.FileTransaction.Again.{
  is_among, apply-resumes, apply-remove_promote_twice, abandon-removes,
}
use nostdb_core.FileTransaction.Atomic.{AllOrNothing}
use nostdb_core.FileTransaction.Commit.{commit-AllOrNothing}

abbrev journal : FilePath
journal = b'j' ∷ []

abbrev staged_a : FilePath
staged_a = b'a' ∷ b'.' ∷ []

abbrev staged_b : FilePath
staged_b = b'b' ∷ b'.' ∷ []

abbrev actions : List JournalRecord
actions = promote staged_a (b'a' ∷ []) ∷ promote staged_b (b'b' ∷ []) ∷ remove (b'c' ∷ []) ∷ []

abbrev transaction : FileTransaction
transaction = record {
  journal_path = journal;
  generation = 4;
  actions = actions;
  staged = staged_a ∷ staged_b ∷ [];
}

abbrev files : FileMap
files q =
    if same_bytes staged_a q
    then some (1 ∷ [])
    else if same_bytes staged_b q
    then some (2 ∷ [])
    else if same_bytes (b'a' ∷ []) q
    then some (3 ∷ [])
    else if same_bytes (b'c' ∷ []) q
    then some (4 ∷ [])
    else none

-- The journal and the first promotion are done.
in_actions : Fault
in_actions = record { after = 2; torn = none }

actions-Replayable : Replayable actions
unfolding Replayable NotReached same_bytes
actions-Replayable = (refl, (refl, tt), (refl, tt, (tt, tt)))

actions-Spares : Spares journal actions
unfolding Spares same_bytes
actions-Spares = (refl, refl, (refl, refl, (refl, tt)))

actions-AllValid : AllValid (JournalRecord.begin 4 ∷ actions)
unfolding is_utf8
actions-AllValid = (
  omega arith,
  ((refl, refl, omega arith), ((refl, refl, omega arith), ((refl, omega arith), tt))),
)

image_size : length (encode_transaction 4 actions) ≡ 95
unfolding encode_transaction encode_all encode frame payload string_bytes kind le_bytes
image_size = refl

no_leftover : files journal ≡ none
unfolding same_bytes
no_leftover = refl

commit-AllOrNothing_example :
    AllOrNothing journal actions files
      (commit transaction (record { files = files; fault = some in_actions }))
commit-AllOrNothing_example =
    commit-AllOrNothing transaction files no_leftover (tt, (tt, (tt, tt))) actions-AllValid
      (omega (arith, image_size)) actions-Replayable actions-Spares (some in_actions)

abbrev stopping : Disk
stopping = record { files = files; fault = some in_actions }

apply-resumes_example :
    apply actions (restart (apply actions stopping).1) ≡ apply actions (restart stopping)
apply-resumes_example = apply-resumes actions stopping actions-Replayable

staged_a_there : files staged_a ≡ some (1 ∷ [])
unfolding same_bytes
staged_a_there = refl

apart : same_bytes (b'a' ∷ []) staged_a ≡ false
unfolding same_bytes
apart = refl

apply-remove_promote_twice_example :
    let again : List JournalRecord = remove (b'a' ∷ []) ∷ promote staged_a (b'a' ∷ []) ∷ [] in
    let first : Disk = (apply again (sound files)).1 in
    (first.files (b'a' ∷ []) ≡ some (1 ∷ [])) × ((apply again first).1.files (b'a' ∷ []) ≡ none)
apply-remove_promote_twice_example =
    apply-remove_promote_twice staged_a (b'a' ∷ []) files (1 ∷ []) apart staged_a_there

abandon-removes_example :
    (after : FileMap) × (abandon transaction (sound files) ≡ (ok tt, sound after))
    × ((q : FilePath) → after q ≡ (if is_among q transaction.staged then none else files q))
abandon-removes_example = abandon-removes transaction files
