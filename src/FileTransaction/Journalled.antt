-- ===== src/FileTransaction/Journalled.antt =====
-- What `recover_at` leaves, by what is at the journal's path.
use nostdb_core.Base.{
  ℕ, ◌-◌, ◌≡◌, refl, sym, ◌∙◌, false, List, [], ◌∷◌, ◌++◌, map, none, some, inl, inr, Option-cases,
  Bytes, length, leb, Bool-cases, same_bytes, same_bytes_sym,
}
use nostdb_core.Generation.{Generation}
use nostdb_core.Journal.{JournalRecord, promote, remove, Recovery, replay, encode, staged_files}
use nostdb_core.Journal.Prefix.{intact}
use nostdb_core.Journal.Recovers.{records_of}
use nostdb_core.Files.{FilePath, FileMap, ok}
use nostdb_core.Files.Laws.{sound, read_there, exists_missing, exists_there}
use nostdb_core.FileTransaction.Defs.{recover_at, recover_journal}
use nostdb_core.FileTransaction.Carried.{carried, carried_all, Spares}
use nostdb_core.FileTransaction.Applies.{apply-sound, removed-sound, remove_all-sound}

carried_all-append :
    (xs ys : List JournalRecord) (files : FileMap)
    → carried_all (xs ++ ys) files ≡ carried_all ys (carried_all xs files)
unfolding carried_all
carried_all-append [] ys files = refl
carried_all-append (x ∷ xs) ys files = carried_all-append xs ys (carried x files)

-- The records around the actions change nothing.
pub carried_all-records :
    (g : Generation) (actions : List JournalRecord) (files : FileMap)
    → carried_all (records_of g actions) files ≡ carried_all actions files
unfolding carried_all carried
carried_all-records g actions files = carried_all-append actions (JournalRecord.commit ∷ []) files

-- `path` is not the staged file of a promotion.
unfoldable pub NotStaged : FilePath → List JournalRecord → Type 0
NotStaged path [] = Unit
NotStaged path (promote staged _ ∷ rest) = (same_bytes staged path ≡ false) × NotStaged path rest
NotStaged path (_ ∷ rest) = NotStaged path rest

pub NotStaged-intact :
    (path : FilePath) (n : ℕ) (rs : List JournalRecord)
    → NotStaged path rs
    → Spares path (map remove (staged_files (intact n rs)))
unfolding NotStaged Spares staged_files intact
NotStaged-intact path n [] h = tt
NotStaged-intact path n (promote s d ∷ rest) h =
    elim (Bool-cases (leb (length (encode (promote s d))) n)) [
      | inl whole ↦
          rw whole (h.0, NotStaged-intact path (n - length (encode (promote s d))) rest h.1)
      | inr cut ↦ rw cut tt
    ]
NotStaged-intact path n (remove p ∷ rest) h =
    elim (Bool-cases (leb (length (encode (remove p))) n)) [
      | inl whole ↦ rw whole (NotStaged-intact path (n - length (encode (remove p))) rest h)
      | inr cut ↦ rw cut tt
    ]
NotStaged-intact path n (JournalRecord.begin g ∷ rest) h =
    elim (Bool-cases (leb (length (encode (JournalRecord.begin g))) n)) [
      | inl whole ↦
          rw whole (NotStaged-intact path (n - length (encode (JournalRecord.begin g))) rest h)
      | inr cut ↦ rw cut tt
    ]
NotStaged-intact path n (JournalRecord.commit ∷ rest) h =
    elim (Bool-cases (leb (length (encode JournalRecord.commit)) n)) [
      | inl whole ↦
          rw whole (NotStaged-intact path (n - length (encode JournalRecord.commit)) rest h)
      | inr cut ↦ rw cut tt
    ]

module _ (journal : FilePath) where
  -- Two disks agree on every file but the journal.
  abbrev pub AgreeOff : FileMap → FileMap → Type 0
  AgreeOff files files' = (q : FilePath) → same_bytes journal q ≡ false → files q ≡ files' q

  carried-AgreeOff :
      (r : JournalRecord) (files files' : FileMap)
      → AgreeOff files files'
      → Spares journal (r ∷ [])
      → AgreeOff (carried r files) (carried r files')
  unfolding carried Spares
  carried-AgreeOff (promote s d) files files' agree n q h =
      let same = agree s (same_bytes_sym s journal n.0) in
      elim (Option-cases (files s)) [
        | inl gone ↦ rw (gone, carried) (rw (sym same ∙ gone, carried) (agree q h))
        | inr (b, there) ↦
            rw (there, carried) (rw (sym same ∙ there, carried) (rw (agree q h) refl))
      ]
  carried-AgreeOff (remove p) files files' agree n q h =
      let same = agree p (same_bytes_sym p journal n.0) in
      elim (Option-cases (files p)) [
        | inl gone ↦ rw (gone, carried) (rw (sym same ∙ gone, carried) (agree q h))
        | inr (b, there) ↦
            rw (there, carried) (rw (sym same ∙ there, carried) (rw (agree q h) refl))
      ]
  carried-AgreeOff (JournalRecord.begin g) files files' agree n q h = agree q h
  carried-AgreeOff JournalRecord.commit files files' agree n q h = agree q h

  pub carried_all-AgreeOff :
      (actions : List JournalRecord) (files files' : FileMap)
      → AgreeOff files files'
      → Spares journal actions
      → AgreeOff (carried_all actions files) (carried_all actions files')
  unfolding carried_all Spares carried
  carried_all-AgreeOff [] files files' agree n = agree
  carried_all-AgreeOff (promote s d ∷ rest) files files' agree n =
      carried_all-AgreeOff rest _ _
        (carried-AgreeOff (promote s d) files files' agree (n.0, n.1, tt)) n.2
  carried_all-AgreeOff (remove p ∷ rest) files files' agree n =
      carried_all-AgreeOff rest _ _ (carried-AgreeOff (remove p) files files' agree (n.0, tt)) n.1
  carried_all-AgreeOff (JournalRecord.begin g ∷ rest) files files' agree n =
      carried_all-AgreeOff rest files files' agree n
  carried_all-AgreeOff (JournalRecord.commit ∷ rest) files files' agree n =
      carried_all-AgreeOff rest files files' agree n

  pub recover_at-missing :
      (files : FileMap)
      → files journal ≡ none
      → recover_at journal (sound files)
        ≡ (ok (record { committed = []; abandoned_staged = []; truncated = false }), sound files)
  unfolding recover_at
  recover_at-missing files e = rw (exists_missing journal files e) refl

  pub recover_at-there :
      (files : FileMap) (bytes : Bytes) (recovery : Recovery)
      → files journal ≡ some bytes
      → replay bytes ≡ recovery
      → recover_at journal (sound files) ≡ (
        ok recovery,
        sound (
            carried (remove journal) (
              carried_all
                (map remove recovery.abandoned_staged)
                (carried_all recovery.committed files))),
      )
  unfolding recover_at recover_journal
  recover_at-there files bytes recovery there r =
      let done = carried_all recovery.committed files in
      let cleared = carried_all (map remove recovery.abandoned_staged) done in
      rw (exists_there journal files bytes there) (
        rw (read_there journal files bytes there) (
          rw r (
            rw (apply-sound recovery.committed files) (
              rw (remove_all-sound recovery.abandoned_staged done)
                (rw (removed-sound journal cleared) refl)))))
