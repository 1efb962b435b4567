-- ===== src/Storage/Settles.antt =====
-- What `recover` leaves on the disk, for each thing that it can find there.
use nostdb_core.Base.{
  ◌+◌, ◌≡◌, refl, sym, ap, true, false, inl, inr, Option, none, if◌then◌else◌, Bytes, same_bytes,
  same_bytes_eq, arith, Option-cases,
}
use nostdb_core.Files.{
  FilePath, FileMap, Disk, Io, Returned, ok, ◌>>=◌, ◌>>◌, pure, update, remove_if_present,
}
use nostdb_core.Storage.Defs.{StorageError, on_disk}
use nostdb_core.Files.Laws.{
  sound, read_if_present_missing, read_if_present_there, remove_if_present_missing,
  remove_if_present_there, exists_missing, exists_there,
}
use nostdb_core.Storage.Recover.{RecoveryReport, discard, recover_unjournalled, recover}
use nostdb_core.Storage.Paths.{staged_of, journal_of}

-- No staged file and no journal; `v` at the database's path; the rest as it was.
abbrev pub settled : FilePath → FileMap → Option Bytes → FileMap
settled path files v q =
    if same_bytes (journal_of path) q
    then none
    else if same_bytes (staged_of path) q
    then none
    else if same_bytes path q
    then v
    else files q

-- `recover` succeeds and leaves the disk so.
pub record Settles (path : FilePath) (files : FileMap) (v : Option Bytes) : Type 0 where
  pub report : RecoveryReport
  pub after : FileMap
  pub runs : recover path (sound files) ≡ (ok report, sound after)
  pub leaves : (q : FilePath) → after q ≡ settled path files v q

-- What a lookup at an unrelated path or at one of the three finds.
pub at_path : (p q : FilePath) (files : FileMap) → same_bytes p q ≡ true → files q ≡ files p
at_path p q files e = ap files (sym (same_bytes_eq p q e))

module _ (path : FilePath) (files : FileMap) where
  pub Settles-unjournalled : files (journal_of path) ≡ none → Settles path files (files path)
  unfolding recover recover_unjournalled
  Settles-unjournalled e = elim (Option-cases (files (staged_of path))) [
    | inl gone ↦ record {
      report = record { promotions_completed = 0; staged_discarded = 0; journal_truncated = false };
      after = files;
      runs =
          rw (read_if_present_missing (journal_of path) files e, recover)
            (rw (read_if_present_missing (staged_of path) files gone, recover_unjournalled)
              (rw (remove_if_present_missing (staged_of path) files gone) refl));
      leaves = λ q. ground (
        arith,
        e,
        gone,
        at_path (journal_of path) q files,
        at_path (staged_of path) q files,
        at_path path q files,
      );
    }
    | inr (b, there) ↦ record {
      report = record { promotions_completed = 0; staged_discarded = 1; journal_truncated = false };
      after = update files (staged_of path) none;
      runs =
          rw (read_if_present_missing (journal_of path) files e, recover)
            (rw (read_if_present_there (staged_of path) files b there, recover_unjournalled)
              (rw (remove_if_present_there (staged_of path) files b there) refl));
      leaves = λ q. ground (
        arith,
        e,
        at_path (journal_of path) q files,
        at_path (staged_of path) q files,
        at_path path q files,
      );
    }
  ]

-- `m` succeeds and leaves the disk as it was, but for the file at `p`, which is gone.
pub record Clears {A : Type 0} (m : Returned StorageError A × Disk) (p : FilePath) (files : FileMap)
    : Type 0 where
  pub value : A
  pub after : FileMap
  pub runs : m ≡ (ok value, sound after)
  pub cleared : (q : FilePath) → after q ≡ (if same_bytes p q then none else files q)

module _ (p : FilePath) (files : FileMap) where
  unchanged : files p ≡ none → (q : FilePath) → files q ≡ (if same_bytes p q then none else files q)
  unchanged e q = ground (arith, at_path p q files)

  pub discard-Clears : (report : RecoveryReport) → Clears (discard p report (sound files)) p files
  unfolding discard
  discard-Clears report = elim (Option-cases (files p)) [
    | inl gone ↦ record {
      value = report;
      after = files;
      runs = rw (exists_missing p files gone) refl;
      cleared = unchanged gone;
    }
    | inr (b, there) ↦ record {
      value = record report { staged_discarded = report.staged_discarded + 1 };
      after = update files p none;
      runs = rw (exists_there p files b there) (rw (remove_if_present_there p files b there) refl);
      cleared = λ q. refl;
    }
  ]

  remove-Clears : Clears (on_disk (remove_if_present p) (sound files)) p files
  remove-Clears = elim (Option-cases (files p)) [
    | inl gone ↦ record {
      value = tt;
      after = files;
      runs = rw (remove_if_present_missing p files gone) refl;
      cleared = unchanged gone;
    }
    | inr (b, there) ↦ record {
      value = tt;
      after = update files p none;
      runs = rw (remove_if_present_there p files b there) refl;
      cleared = λ q. refl;
    }
  ]

-- What `recover_journalled` does behind the committed and the abandoned files.
abbrev pub sweep : FilePath → FilePath → RecoveryReport → Io StorageError RecoveryReport
sweep staged_path journal_path report = do
  swept ← discard staged_path report
  on_disk (remove_if_present journal_path)
  pure swept

module _ (path : FilePath) (files : FileMap) where
  pub record Sweeps (m : Returned StorageError RecoveryReport × Disk) : Type 0 where
    pub report : RecoveryReport
    pub after : FileMap
    pub runs : m ≡ (ok report, sound after)
    pub leaves : (q : FilePath) → after q ≡ settled path files (files path) q

  pub sweep-Sweeps :
      (report : RecoveryReport)
      → Sweeps (sweep (staged_of path) (journal_of path) report (sound files))
  sweep-Sweeps report =
      let d = discard-Clears (staged_of path) files report in
      let r = remove-Clears (journal_of path) d.after in
      record {
        report = d.value;
        after = r.after;
        runs = rw d.runs (rw r.runs refl);
        leaves = λ q. ground (arith, r.cleared q, d.cleared q, at_path path q files);
      }
