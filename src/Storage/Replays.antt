-- ===== src/Storage/Replays.antt =====
-- What `recover` does with a journal, by what `replay` makes of it.
use nostdb_core.Base.{◌+◌, ◌≡◌, refl, ◌∙◌, Bool, [], ◌∷◌, none, some, Bytes, same_bytes_refl, arith}
use nostdb_core.Generation.{Generation}
use nostdb_core.Journal.{begin, promote, commit, replay}
use nostdb_core.Files.{FilePath, FileMap, update}
use nostdb_core.Files.Laws.{
  sound, read_if_present_there, exists_missing, exists_there, rename_there,
}
use nostdb_core.Storage.Recover.{
  RecoveryReport, redo, redo_all, discard_all, recover_journalled, recover,
}
use nostdb_core.Storage.Paths.{staged_of, journal_of, staged-ne-path}
use nostdb_core.Storage.Settles.{Settles, sweep-Sweeps, discard-Clears}

abbrev pub blank : Bool → RecoveryReport
blank truncated = record {
  promotions_completed = 0;
  staged_discarded = 0;
  journal_truncated = truncated;
}

module _ (path : FilePath) (files : FileMap) (bytes : Bytes)
    (e : files (journal_of path) ≡ some bytes) where
  journalled :
      recover path (sound files)
      ≡ recover_journalled (staged_of path) (journal_of path) bytes (sound files)
  unfolding recover
  journalled = rw (read_if_present_there (journal_of path) files bytes e, recover) refl

  -- Nothing is committed and no staged file is named.
  pub Settles-uncommitted :
      (t : Bool)
      → replay bytes ≡ record { committed = []; abandoned_staged = []; truncated = t }
      → Settles path files (files path)
  unfolding recover_journalled redo_all discard_all
  Settles-uncommitted t r =
      let s = sweep-Sweeps path files (blank t) in
      record {
        report = s.report;
        after = s.after;
        runs = journalled ∙ rw (r, recover_journalled) s.runs;
        leaves = s.leaves;
      }

  -- Nothing is committed, and the staged file is given up.
  pub Settles-abandoned :
      (t : Bool)
      → replay bytes
        ≡ record { committed = []; abandoned_staged = staged_of path ∷ []; truncated = t }
      → Settles path files (files path)
  unfolding recover_journalled redo_all discard_all
  Settles-abandoned t r =
      let d = discard-Clears (staged_of path) files (blank t) in
      let s = sweep-Sweeps path d.after d.value in
      record {
        report = s.report;
        after = s.after;
        runs = journalled ∙ rw (r, recover_journalled) (rw d.runs s.runs);
        leaves = λ q. ground (arith, s.leaves q, d.cleared q, d.cleared path, staged-ne-path path);
      }

  module _ (g : Generation) (t : Bool)
      (r : replay bytes ≡ record {
        committed = begin g ∷ promote (staged_of path) path ∷ commit ∷ [];
        abandoned_staged = [];
        truncated = t;
      }) where
    -- The promotion was committed and is still to be done.
    pub Settles-promoted :
        (b : Bytes) → files (staged_of path) ≡ some b → Settles path files (some b)
    unfolding recover_journalled redo_all redo discard_all
    Settles-promoted b there =
        let files' = update (update files (staged_of path) none) path (some b) in
        let s = sweep-Sweeps path files' (record (blank t) { promotions_completed = 0 + 1 }) in
        record {
          report = s.report;
          after = s.after;
          runs =
              journalled
              ∙ rw (r, recover_journalled)
                  (rw (exists_there (staged_of path) files b there)
                    (rw (rename_there (staged_of path) files path b there) s.runs));
          leaves = λ q. ground (arith, s.leaves q, same_bytes_refl path);
        }

    -- The promotion was committed and was done.
    pub Settles-done : files (staged_of path) ≡ none → Settles path files (files path)
    unfolding recover_journalled redo_all redo discard_all
    Settles-done gone =
        let s = sweep-Sweeps path files (blank t) in
        record {
          report = s.report;
          after = s.after;
          runs =
              journalled
              ∙ rw (r, recover_journalled) (rw (exists_missing (staged_of path) files gone) s.runs);
          leaves = s.leaves;
        }
