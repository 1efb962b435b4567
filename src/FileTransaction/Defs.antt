-- ===== src/FileTransaction/Defs.antt =====
-- `FileTransaction`, `apply` and `recover_at`. The flushes `sync_file` leave the files as they are,
-- and so does `create_dir_all`, since the model has no directories.
use nostdb_core.Base.{Bool, true, false, List, [], ◌∷◌, ◌++◌, if◌then◌else◌, Bytes}
use nostdb_core.Base.Utf8.{is_utf8}
use nostdb_core.Generation.{Generation}
use nostdb_core.Journal.{JournalRecord, promote, encode_transaction, replay, Recovery}
use nostdb_core.Files.{
  FilePath, IoError, ok, Io, ◌>>=◌, ◌>>◌, pure, write_durably, rename, remove_file, read, exists,
}
use nostdb_core.Storage.{staged_suffix}

pub record FileTransaction : Type 0 where
  pub journal_path : FilePath
  pub generation : Generation
  pub actions : List JournalRecord
  pub staged : List FilePath

unfoldable pub begin : FilePath → Generation → FileTransaction
begin journal_path generation = record {
  journal_path = journal_path;
  generation = generation;
  actions = [];
  staged = [];
}

-- `staging_path`, for a path whose last component is a plain name: its directory stays.
unfoldable pub staging_path : FilePath → FilePath
staging_path destination = destination ++ staged_suffix

-- `replaced` stands for the text that `to_string_lossy` makes of a path that is not UTF-8.
module _ (replaced : FilePath → Bytes) where
  unfoldable pub to_string_lossy : FilePath → Bytes
  to_string_lossy path = if is_utf8 path then path else replaced path

  -- The transaction with the action added; the write comes first, and its error is passed on.
  unfoldable pub stage : FileTransaction → FilePath → Bytes → Io IoError FileTransaction
  stage t destination contents = do
    let staged = staging_path destination
    write_durably staged contents
    let action = promote (to_string_lossy staged) (to_string_lossy destination)
    pure (record t { actions = t.actions ++ action ∷ []; staged = t.staged ++ staged ∷ [] })

  unfoldable pub remove : FileTransaction → FilePath → FileTransaction
  remove t path = record t {
    actions = t.actions ++ JournalRecord.remove (to_string_lossy path) ∷ [];
  }

unfoldable pub is_empty : FileTransaction → Bool
is_empty t = elim t.actions [ [] ↦ true | _ ∷ _ ↦ false ]

unfoldable pub apply_one : JournalRecord → Io IoError (Unit {0})
apply_one (promote staged destination) = do
  there ← exists staged
  if there then rename staged destination else pure tt
apply_one (JournalRecord.remove path) = do
  there ← exists path
  if there then remove_file path else pure tt
apply_one _ = pure tt

unfoldable pub apply : List JournalRecord → Io IoError (Unit {0})
apply [] = pure tt
apply (r ∷ rest) = do apply_one r; apply rest

-- `let _ =`: the result is dropped, the disk stays changed.
abbrev pub ignored : Io IoError (Unit {0}) → Io IoError (Unit {0})
ignored m d = (ok tt, (m d).1)

unfoldable pub remove_all : List FilePath → Io IoError (Unit {0})
remove_all [] = pure tt
remove_all (path ∷ rest) = do ignored (remove_file path); remove_all rest

unfoldable pub commit : FileTransaction → Io IoError (Unit {0})
commit t = if is_empty t then pure tt else (do
  write_durably t.journal_path (encode_transaction t.generation t.actions)
  apply t.actions
  ignored (remove_file t.journal_path))

unfoldable pub abandon : FileTransaction → Io IoError (Unit {0})
abandon t = remove_all t.staged

unfoldable pub recover_journal : FilePath → Bytes → Io IoError Recovery
recover_journal journal_path bytes = do
  let recovery = replay bytes
  apply recovery.committed
  remove_all recovery.abandoned_staged
  ignored (remove_file journal_path)
  pure recovery

unfoldable pub recover_at : FilePath → Io IoError Recovery
recover_at journal_path = do
  there ← exists journal_path
  if there
      then (do bytes ← read journal_path; recover_journal journal_path bytes)
      else pure (record { committed = []; abandoned_staged = []; truncated = false })
