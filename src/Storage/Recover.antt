-- ===== src/Storage/Recover.antt =====
-- `recover`.
use nostdb_core.Base.{ℕ, ◌+◌, Bool, false, List, [], ◌∷◌, none, some, if◌then◌else◌, Bytes}
use nostdb_core.Journal.{JournalRecord, promote, remove, replay}
use nostdb_core.Files.{
  FilePath, Io, ◌>>=◌, ◌>>◌, pure, rename, exists, read_if_present, remove_if_present,
}
use nostdb_core.Storage.Defs.{StorageError, staged_suffix, journal_suffix, sibling, on_disk}

pub record RecoveryReport : Type 0 where
  pub promotions_completed : ℕ
  pub staged_discarded : ℕ
  pub journal_truncated : Bool

-- One record of the committed transaction.
unfoldable pub redo : JournalRecord → RecoveryReport → Io StorageError RecoveryReport
redo (promote staged destination) report = do
  there ← on_disk (exists staged)
  if there
      then (do
        on_disk (rename staged destination)
        pure (record report { promotions_completed = report.promotions_completed + 1 }))
      else pure report
redo (remove path) report = do on_disk (remove_if_present path); pure report
redo _ report = pure report

unfoldable pub redo_all : List JournalRecord → RecoveryReport → Io StorageError RecoveryReport
redo_all [] report = pure report
redo_all (r ∷ rest) report = do report' ← redo r report; redo_all rest report'

-- Removes a staged file if it is there.
unfoldable pub discard : FilePath → RecoveryReport → Io StorageError RecoveryReport
discard staged report = do
  there ← on_disk (exists staged)
  if there
      then (do
        on_disk (remove_if_present staged)
        pure (record report { staged_discarded = report.staged_discarded + 1 }))
      else pure report

unfoldable pub discard_all : List FilePath → RecoveryReport → Io StorageError RecoveryReport
discard_all [] report = pure report
discard_all (s ∷ rest) report = do report' ← discard s report; discard_all rest report'

-- With no journal a staged file was abandoned before its intent was durable.
unfoldable pub recover_unjournalled : FilePath → Io StorageError RecoveryReport
recover_unjournalled staged_path = do
  found ← on_disk (read_if_present staged_path)
  on_disk (remove_if_present staged_path)
  pure (record {
    promotions_completed = 0;
    staged_discarded = elim found [ none ↦ 0 | some _ ↦ 1 ];
    journal_truncated = false;
  })

unfoldable pub recover_journalled : FilePath → FilePath → Bytes → Io StorageError RecoveryReport
recover_journalled staged_path journal_path journal_bytes = do
  let recovery = replay journal_bytes
  let report : RecoveryReport = record {
    promotions_completed = 0;
    staged_discarded = 0;
    journal_truncated = recovery.truncated;
  }
  redone ← redo_all recovery.committed report
  discarded ← discard_all recovery.abandoned_staged redone
  swept ← discard staged_path discarded
  on_disk (remove_if_present journal_path)
  pure swept

unfoldable pub recover : FilePath → Io StorageError RecoveryReport
recover path = do
  let journal_path = sibling path journal_suffix
  let staged_path = sibling path staged_suffix
  found ← on_disk (read_if_present journal_path)
  elim found [
    | none ↦ recover_unjournalled staged_path
    | some journal_bytes ↦ recover_journalled staged_path journal_path journal_bytes
  ]
