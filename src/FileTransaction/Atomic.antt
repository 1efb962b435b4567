-- ===== src/FileTransaction/Atomic.antt =====
-- A transaction's commit that is interrupted anywhere, followed by `recover_at`, was carried out as a
-- whole or not at all.
use nostdb_core.Base.{
  max_length, ℕ, ◌<◌, ◌≡◌, ◌≢◌, refl, ap, ◌∙◌, false, List, [], ◌∷◌, map, ◌⊎◌, inl, inr, Option,
  none, some, Bytes, length, take, same_bytes, same_bytes_refl,
}
use nostdb_core.Generation.{Generation}
use nostdb_core.Journal.{JournalRecord, remove, Recovery, encode_transaction, staged_files}
use nostdb_core.Journal.Codec.{AllValid}
use nostdb_core.Journal.Prefix.{intact, is_torn}
use nostdb_core.Journal.Recovers.{
  AllActions, records_of, replay-encode_transaction, replay-encode_transaction_torn,
}
use nostdb_core.Files.{FilePath, FileMap, Disk, IoError, Returned, ok, update, restart}
use nostdb_core.Files.Laws.{sound}
use nostdb_core.FileTransaction.Defs.{recover_at}
use nostdb_core.FileTransaction.Carried.{
  carried, carried_all, Spares, carried-Spares, carried_all-Spares, removed-gone,
}
use nostdb_core.FileTransaction.Journalled.{
  NotStaged, NotStaged-intact, carried_all-records, AgreeOff, carried_all-AgreeOff,
  recover_at-missing, recover_at-there,
}

module _ (journal : FilePath) (actions : List JournalRecord) (files : FileMap) where
  -- Every file but the journal is as the actions make it of `files`.
  abbrev pub AllDone : FileMap → Type 0
  AllDone after = AgreeOff journal after (carried_all actions files)

  -- Every file but the journal and the staged ones is as in `files`.
  abbrev pub NothingDone : FileMap → Type 0
  NothingDone after =
      (q : FilePath) → same_bytes journal q ≡ false → NotStaged q actions → after q ≡ files q

  -- `m` is what an attempt to commit returned, with the disk behind it. After a restart `recover_at`
  -- succeeds and leaves no journal, with all done or nothing; where `m` succeeded, all.
  pub record AllOrNothing (m : Returned IoError (Unit {0}) × Disk) : Type 0 where
    pub recovery : Recovery
    pub after : FileMap
    pub recovers : recover_at journal (restart m.1) ≡ (ok recovery, sound after)
    pub journal_gone : after journal ≡ none
    pub all_or_nothing : AllDone after ⊎ NothingDone after
    pub completes : m.0 ≡ ok tt → AllDone after

  module _ (m : Returned IoError (Unit {0}) × Disk) (now : FileMap) (at : m.1.files ≡ now) where
    pub no_journal_done : now journal ≡ none → AllDone now → AllOrNothing m
    no_journal_done gone done = record {
      recovery = record { committed = []; abandoned_staged = []; truncated = false };
      after = now;
      recovers = rw at (recover_at-missing journal now gone);
      journal_gone = gone;
      all_or_nothing = inl done;
      completes = λ h. done;
    }

    pub no_journal_untouched : now journal ≡ none → now ≡ files → m.0 ≢ ok tt → AllOrNothing m
    no_journal_untouched gone same failed = record {
      recovery = record { committed = []; abandoned_staged = []; truncated = false };
      after = now;
      recovers = rw at (recover_at-missing journal now gone);
      journal_gone = gone;
      all_or_nothing = inr (λ q h n. ap (λ f. f q) same);
      completes = λ h. absurd (failed h);
    }

  module _ (g : Generation) (whole : AllActions actions)
      (valid : AllValid (JournalRecord.begin g ∷ actions))
      (size : length (encode_transaction g actions) < max_length)
      (spares : Spares journal actions) where
    abbrev pub bytes : Bytes
    bytes = encode_transaction g actions

    abbrev pub journal_is : Bytes → FileMap
    journal_is b = update files journal (some b)

    pub off_journal : (v : Option Bytes) → AgreeOff journal (update files journal v) files
    off_journal v q h = rw h refl

    -- The whole journal is there, and the actions are still to be carried out or were in part.
    pub journalled :
        (m : Returned IoError (Unit {0}) × Disk) (now : FileMap)
        → m.1.files ≡ now
        → now journal ≡ some bytes
        → carried_all actions now ≡ carried_all actions (journal_is bytes)
        → AllOrNothing m
    journalled m now at there again =
        let recovery : Recovery = record {
          committed = records_of g actions;
          abandoned_staged = [];
          truncated = false;
        } in
        let after : FileMap = carried (remove journal) (carried_all (records_of g actions) now) in
        let done : AllDone after = λ q h.
          carried-Spares q (remove journal) _ (unfold Spares in (h, tt))
          ∙ ap (λ f. f q) (carried_all-records g actions now ∙ again)
          ∙ carried_all-AgreeOff journal actions _ _ (off_journal (some bytes)) spares q h in
        record {
          recovery = recovery;
          after = after;
          recovers = rw at (
              unfold carried_all in
              recover_at-there journal now bytes recovery there
                (replay-encode_transaction g actions whole valid size));
          journal_gone = removed-gone journal _;
          all_or_nothing = inl done;
          completes = λ h. done;
        }

    -- The journal was cut.
    pub torn :
        (m : Returned IoError (Unit {0}) × Disk) (k : ℕ)
        → m.1.files ≡ journal_is (take k bytes)
        → k < length bytes
        → m.0 ≢ ok tt
        → AllOrNothing m
    torn m k at short failed =
        let now : FileMap = journal_is (take k bytes) in
        let names : List Bytes = staged_files (intact k (JournalRecord.begin g ∷ actions)) in
        let recovery : Recovery = record {
          committed = [];
          abandoned_staged = names;
          truncated = is_torn k (records_of g actions);
        } in
        let after : FileMap = carried (remove journal) (carried_all (map remove names) now) in
        let kept : NothingDone after = λ q h n.
          carried-Spares q (remove journal) _ (unfold Spares in (h, tt))
          ∙ carried_all-Spares q (map remove names) now
              (NotStaged-intact q k (JournalRecord.begin g ∷ actions) (unfold NotStaged in n))
          ∙ off_journal (some (take k bytes)) q h in
        record {
          recovery = recovery;
          after = after;
          recovers = rw at (
              unfold carried_all in
              recover_at-there journal now (take k bytes) recovery
                (rw (same_bytes_refl journal) refl)
                (replay-encode_transaction_torn g actions whole valid size k short));
          journal_gone = removed-gone journal _;
          all_or_nothing = inr kept;
          completes = λ h. absurd (failed h);
        }
