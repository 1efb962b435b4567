-- ===== src/FileTransaction/Commit.antt =====
-- `FileTransaction::commit` under every fault.
use nostdb_core.Base.{
  max_length, ℕ, zero, suc, ◌<◌, ◌≡◌, refl, ap, sym, ◌∙◌, true, List, [], ◌∷◌, ◌⊎◌, inl, inr,
  Option, none, some, Bool-cases, leb, leb→le, Bytes, length, take, take-all, same_bytes_refl,
  arith,
}
use nostdb_core.Journal
use nostdb_core.Journal.{JournalRecord, encode_transaction}
use nostdb_core.Journal.Codec.{AllValid}
use nostdb_core.Journal.Recovers.{AllActions}
use nostdb_core.Files.{
  FilePath, FileMap, Fault, Disk, IoError, Returned, ok, err, continue, update, change,
  write_durably, torn_write, remove_file,
}
use nostdb_core.FileTransaction.Defs.{FileTransaction, is_empty, apply, ignored, commit}
use nostdb_core.FileTransaction.Carried.{
  carried_all, Replayable, Spares, resume, carried_all-Spares,
}
use nostdb_core.FileTransaction.Applies.{Stops, apply-Stops, change-Either, remove_file-change}
use nostdb_core.FileTransaction.Journalled.{carried_all-AgreeOff}
use nostdb_core.FileTransaction.Atomic.{
  AllOrNothing, no_journal_done, no_journal_untouched, journalled, torn,
}

-- A removal that the fault may meet.
removed-or_kept :
    (p : FilePath) (d : Disk) (b : Bytes)
    → d.files p ≡ some b
    → ((remove_file p d).1.files ≡ d.files) ⊎ ((remove_file p d).1.files ≡ update d.files p none)
removed-or_kept p d b there =
    rw (remove_file-change p d b there)
      (elim (change-Either p (update d.files p none) d.files d.fault) [
        | inl (o, f) ↦ inr f
        | inr (e, o, f) ↦ inl f
      ])

-- Enough of the actions to be all.
take-whole : (actions : List JournalRecord) → take (length actions) actions ≡ actions
take-whole actions = take-all (length actions) actions (omega arith)

Spares-take :
    (journal : FilePath) (k : ℕ) (actions : List JournalRecord)
    → Spares journal actions
    → Spares journal (take k actions)
unfolding Spares
Spares-take journal zero actions s = tt
Spares-take journal (suc k) [] s = tt
Spares-take journal (suc k) (Journal.promote a b ∷ rest) s =
    (s.0, s.1, Spares-take journal k rest s.2)
Spares-take journal (suc k) (Journal.remove p ∷ rest) s = (s.0, Spares-take journal k rest s.1)
Spares-take journal (suc k) (JournalRecord.begin g ∷ rest) s = Spares-take journal k rest s
Spares-take journal (suc k) (JournalRecord.commit ∷ rest) s = Spares-take journal k rest s

module _ (t : FileTransaction) (files : FileMap) (absent : files t.journal_path ≡ none)
    (actions : AllActions t.actions)
    (valid : AllValid (JournalRecord.begin t.generation ∷ t.actions))
    (size : length (encode_transaction t.generation t.actions) < max_length)
    (replayable : Replayable t.actions) (spares : Spares t.journal_path t.actions) where
  abbrev written : FileMap
  written = update files t.journal_path (some (encode_transaction t.generation t.actions))

  abbrev Holds : Returned IoError (Unit {0}) × Disk → Type 0
  Holds m = AllOrNothing t.journal_path t.actions files m

  -- The first `k` actions were carried out, and the journal is there.
  stopped :
      (m : Returned IoError (Unit {0}) × Disk) (k : ℕ)
      → m.1.files ≡ carried_all (take k t.actions) written
      → Holds m
  stopped m k at =
      journalled t.journal_path t.actions files t.generation actions valid size spares m _ at
        (carried_all-Spares t.journal_path (take k t.actions) written
            (Spares-take t.journal_path k t.actions spares)
          ∙ rw (same_bytes_refl t.journal_path) refl)
        (resume k t.actions written replayable)

  all_carried :
      (m : Returned IoError (Unit {0}) × Disk) → m.1.files ≡ carried_all t.actions written → Holds m
  all_carried m at =
      stopped m (length t.actions)
        (at ∙ ap (λ a. carried_all a written) (sym (take-whole t.actions)))

  -- Behind `apply` only the journal is left to be removed.
  finished :
      (m : Returned IoError (Unit {0}) × Disk)
      → Stops t.actions written m
      → Holds (continue m (λ _. ignored (remove_file t.journal_path)))
  finished (err e, d) s = stopped (err e, d) s.done s.left
  finished (ok x, d) s =
      let j = t.journal_path in
      let done : d.files ≡ carried_all t.actions written = s.whole refl in
      let there : d.files j ≡ some (encode_transaction t.generation t.actions) =
        ap (λ f. f j) done
        ∙ carried_all-Spares j t.actions written spares
        ∙ rw (same_bytes_refl j) refl in
      elim (removed-or_kept j d (encode_transaction t.generation t.actions) there) [
        | inl kept ↦ all_carried _ (kept ∙ done)
        | inr gone ↦
            no_journal_done j t.actions files _ (update (carried_all t.actions written) j none)
              (gone ∙ ap (λ f. update f j none) done) (rw (same_bytes_refl j) refl)
              (λ q h.
                rw h (carried_all-AgreeOff j t.actions written files (λ p n. rw n refl) spares q h))
      ]

  behind_journal :
      (fault : Option Fault)
      → Holds (
          continue
            (apply t.actions (record { files = written; fault = fault }))
            (λ _. ignored (remove_file t.journal_path)))
  behind_journal fault =
      let d : Disk = record { files = written; fault = fault } in
      finished (apply t.actions d) (apply-Stops t.actions d)

  -- The fault met the write of the journal.
  at_journal :
      (e : IoError) (torn_at : Option ℕ) (fault : Option Fault)
      → Holds (
        err e,
        record {
          files =
              torn_write files t.journal_path
                (encode_transaction t.generation t.actions)
                (some (record { after = 0; torn = torn_at }));
          fault = fault;
        },
      )
  unfolding torn_write carried_all
  at_journal e none fault =
      no_journal_untouched t.journal_path t.actions files _ files refl absent refl (λ h. cc)
  at_journal e (some k) fault =
      let image = encode_transaction t.generation t.actions in
      elim (Bool-cases (leb (length image) k)) [
        | inl whole ↦ rw (take-all k image (leb→le _ k whole)) (stopped _ 0 refl)
        | inr cut ↦
            torn t.journal_path t.actions files t.generation actions valid size spares _ k refl
              (ground arith) (λ h. cc)
      ]

  nothing_to_do : (xs : List JournalRecord) → is_empty (record t { actions = xs }) ≡ true → xs ≡ []
  unfolding is_empty
  nothing_to_do [] h = refl
  nothing_to_do (x ∷ xs) h = cc

  written_first :
      (fault : Option Fault)
      → Holds (
          continue
            (write_durably t.journal_path
              (encode_transaction t.generation t.actions)
              (record { files = files; fault = fault }))
            (λ _ d. continue (apply t.actions d) (λ _. ignored (remove_file t.journal_path))))
  unfolding write_durably change
  written_first none = behind_journal none
  written_first (some f) = met f.after
    where
      met :
          (after : ℕ)
          → Holds (
              continue
                (write_durably t.journal_path
                  (encode_transaction t.generation t.actions)
                  (record { files = files; fault = some (record f { after = after }) }))
                (λ _ d. continue (apply t.actions d) (λ _. ignored (remove_file t.journal_path))))
      met zero = at_journal _ f.torn (some (record f { after = 0 }))
      met (suc n) = behind_journal (some (record f { after = n }))

  -- Whatever fault meets a commit, and wherever, if there is no leftover journal, the actions are
  -- promotions and removals of valid paths, the journal fits in memory, no action touches it, and no
  -- promotion ends at a path that an earlier or the same action takes away: `recover_at` then
  -- succeeds, and leaves no journal, with every other file as the actions make it, or every other
  -- file that is not a staged one as it was. Where the commit succeeded it is the former.
  pub commit-AllOrNothing :
      (fault : Option Fault) → Holds (commit t (record { files = files; fault = fault }))
  unfolding commit carried_all
  commit-AllOrNothing fault = elim (Bool-cases (is_empty t)) [
    | inl empty ↦
        let none_left = nothing_to_do t.actions empty in
        rw empty (
          no_journal_done t.journal_path t.actions files _ files refl absent
            (λ q h. ap (λ a. carried_all a files q) (sym none_left)))
    | inr some_left ↦ rw some_left (written_first fault)
  ]
