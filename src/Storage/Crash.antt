-- ===== src/Storage/Crash.antt =====
-- `publish` under every fault, and `commit`.
use nostdb_core.Base.{
  ◌&&◌, leb→le, ℕ, zero, suc, ◌≡◌, refl, ◌∙◌, false, inl, inr, Option, none, some, Bytes,
  Bool-cases, length, take, take-all, leb, same_bytes_refl, arith,
}
use nostdb_core.Base.Utf8.{is_utf8, IsUtf8}
use nostdb_core.Generation.{Generation, IsU64}
use nostdb_core.Files.{
  other, FilePath, FileMap, Fault, Disk, Io, Returned, ok, err, ◌>>◌, update, change, write_durably,
  torn_write, unless_missing, rename, remove_if_present,
}
use nostdb_core.Files.Laws.{sound, rename-change, remove_if_present-change}
use nostdb_core.Storage.Defs.{StorageError, io, non_utf8_path, on_disk, as_utf8, publish}
use nostdb_core.Storage.Paths.{
  staged_of, journal_of, path-ne-journal, staged-ne-journal, journal-ne-staged,
}
use nostdb_core.Storage.Atomic.{Atomic, journal_bytes, with_staged, staged_only, untouched}
use nostdb_core.Storage.Points.{
  FitsJournal, journal_is, renamed, journal_torn, journal_whole, journal_left, journal_removed,
}

abbrev disk : FileMap → ℕ → Option ℕ → Disk
disk files n torn = record { files = files; fault = some (record { after = n; torn = torn }) }

abbrev failure : {A : Type 0} → FilePath → Returned StorageError A
failure path = err (io (record { path = path; kind = other }))

module _ (path : FilePath) (files : FileMap) (g : Generation) (bytes : Bytes) where
  -- The steps behind the two writes.
  finish : Io StorageError (Unit {0})
  finish = do on_disk (rename (staged_of path) path); on_disk (remove_if_present (journal_of path))

  abbrev prepared : FileMap
  prepared = journal_is path files bytes (some (journal_bytes path g))

  staged_there : prepared (staged_of path) ≡ some bytes
  staged_there = rw (journal-ne-staged path, same_bytes_refl (staged_of path)) refl

  journal_there : renamed path files g bytes (journal_of path) ≡ some (journal_bytes path g)
  journal_there =
      rw (path-ne-journal path, staged-ne-journal path, same_bytes_refl (journal_of path)) refl

  finish-sound :
      finish (sound prepared)
      ≡ (ok tt, sound (update (renamed path files g bytes) (journal_of path) none))
  unfolding finish change unless_missing
  finish-sound = rw (rename-change (staged_of path) (sound prepared) bytes staged_there path) (
      rw
        (remove_if_present-change (journal_of path) (sound (renamed path files g bytes))
          (journal_bytes path g) journal_there)
        refl)

  finish_at_rename :
      (torn : Option ℕ)
      → finish (disk prepared 0 torn) ≡ (failure (staged_of path), disk prepared 0 torn)
  unfolding finish change unless_missing
  finish_at_rename torn =
      rw (rename-change (staged_of path) (disk prepared 0 torn) bytes staged_there path) refl

  finish_at_remove :
      (torn : Option ℕ)
      → finish (disk prepared 1 torn)
        ≡ (failure (journal_of path), disk (renamed path files g bytes) 0 torn)
  unfolding finish change unless_missing
  finish_at_remove torn =
      rw (rename-change (staged_of path) (disk prepared 1 torn) bytes staged_there path) (
        rw
          (remove_if_present-change (journal_of path) (disk (renamed path files g bytes) 0 torn)
            (journal_bytes path g) journal_there)
          refl)

  finish_late :
      (n : ℕ) (torn : Option ℕ)
      → finish (disk prepared (suc (suc n)) torn)
        ≡ (ok tt, disk (update (renamed path files g bytes) (journal_of path) none) n torn)
  unfolding finish change unless_missing
  finish_late n torn =
      rw (rename-change (staged_of path) (disk prepared (suc (suc n)) torn) bytes staged_there path)
        (rw
          (remove_if_present-change (journal_of path)
            (disk (renamed path files g bytes) (suc n) torn) (journal_bytes path g) journal_there)
          refl)

  module _ (staged_utf8 : IsUtf8 (staged_of path)) (path_utf8 : IsUtf8 path) where
    publish-sound : publish path g bytes (sound files) ≡ finish (sound prepared)
    unfolding publish write_durably change as_utf8 finish
    publish-sound = rw staged_utf8 (rw path_utf8 refl)

    pub publish_whole :
        publish path g bytes (sound files)
        ≡ (ok tt, sound (update (renamed path files g bytes) (journal_of path) none))
    publish_whole = publish-sound ∙ finish-sound

    publish_at_journal :
        (torn : Option ℕ)
        → publish path g bytes (disk files 1 torn) ≡ (
          failure (journal_of path),
          record {
            files =
                torn_write
                  (with_staged path files (some bytes))
                  (journal_of path)
                  (journal_bytes path g)
                  (some (record { after = 0; torn = torn }));
            fault = some (record { after = 0; torn = torn });
          },
        )
    unfolding publish write_durably change as_utf8
    publish_at_journal torn = rw staged_utf8 (rw path_utf8 refl)

    publish_later :
        (n : ℕ) (torn : Option ℕ)
        → publish path g bytes (disk files (suc (suc n)) torn) ≡ finish (disk prepared n torn)
    unfolding publish write_durably change as_utf8 finish
    publish_later n torn = rw staged_utf8 (rw path_utf8 refl)

  -- A path that is not UTF-8 is refused behind the first write.
  module _ (refused : (is_utf8 (staged_of path) && is_utf8 path) ≡ false) where
    publish-sound_refused :
        publish path g bytes (sound files)
        ≡ (err non_utf8_path, sound (with_staged path files (some bytes)))
    unfolding publish write_durably change as_utf8
    publish-sound_refused = elim (Bool-cases (is_utf8 (staged_of path))) [
      | inl u ↦ rw u (rw (rw u at refused) refl)
      | inr u ↦ rw u refl
    ]

    publish_refused :
        (n : ℕ) (torn : Option ℕ)
        → publish path g bytes (disk files (suc n) torn)
          ≡ (err non_utf8_path, disk (with_staged path files (some bytes)) n torn)
    unfolding publish write_durably change as_utf8
    publish_refused n torn = elim (Bool-cases (is_utf8 (staged_of path))) [
      | inl u ↦ rw u (rw (rw u at refused) refl)
      | inr u ↦ rw u refl
    ]

module _ (path : FilePath) (files : FileMap) (g : Generation) (bytes : Bytes)
    (absent : files (journal_of path) ≡ none) (fits : FitsJournal path) (hg : IsU64 g) where
  abbrev pub AtomicAt : Disk → Type 0
  AtomicAt d = Atomic path files bytes (publish path g bytes d)

  at_staged : (torn : Option ℕ) → AtomicAt (disk files 0 torn)
  unfolding publish write_durably change torn_write
  at_staged none = untouched path files bytes absent _ refl (λ a h. cc)
  at_staged (some k) = staged_only path files bytes absent _ (some (take k bytes)) refl (λ a h. cc)

  module _ (refused : (is_utf8 (staged_of path) && is_utf8 path) ≡ false) where
    refused_sound : AtomicAt (sound files)
    refused_sound =
        rw (publish-sound_refused path files g bytes refused)
          (staged_only path files bytes absent _ (some bytes) refl (λ a h. cc))

    refused_late : (n : ℕ) (torn : Option ℕ) → AtomicAt (disk files (suc n) torn)
    refused_late n torn =
        rw (publish_refused path files g bytes refused n torn)
          (staged_only path files bytes absent _ (some bytes) refl (λ a h. cc))

  module _ (u : IsUtf8 (staged_of path)) (v : IsUtf8 path) where
    at_journal : (torn : Option ℕ) → AtomicAt (disk files 1 torn)
    unfolding torn_write
    at_journal none =
        rw (publish_at_journal path files g bytes u v none)
          (staged_only path files bytes absent _ (some bytes) refl (λ a h. cc))
    at_journal (some k) =
        rw (publish_at_journal path files g bytes u v (some k))
          (elim (Bool-cases (leb (length (journal_bytes path g)) k)) [
            | inl whole ↦
                rw (take-all k (journal_bytes path g) (leb→le _ k whole))
                  (journal_whole path files g bytes absent fits hg u v _ refl (λ a h. cc))
            | inr cut ↦
                journal_torn path files g bytes absent fits hg u v _ k refl (λ a h. cc)
                  (ground arith)
          ])

    later : (n : ℕ) (torn : Option ℕ) → AtomicAt (disk files (suc (suc n)) torn)
    later zero torn = rw (publish_later path files g bytes u v 0 torn) (
        rw (finish_at_rename path files g bytes torn)
          (journal_whole path files g bytes absent fits hg u v _ refl (λ a h. cc)))
    later (suc zero) torn = rw (publish_later path files g bytes u v 1 torn) (
        rw (finish_at_remove path files g bytes torn)
          (journal_left path files g bytes absent fits hg u v _ refl))
    later (suc (suc n)) torn = rw (publish_later path files g bytes u v (suc (suc n)) torn) (
        rw (finish_late path files g bytes n torn)
          (journal_removed path files g bytes absent fits hg u v _ refl))

    unharmed : AtomicAt (sound files)
    unharmed = rw (publish-sound path files g bytes u v) (
        rw (finish-sound path files g bytes)
          (journal_removed path files g bytes absent fits hg u v _ refl))

  by_point : (n : ℕ) (torn : Option ℕ) → AtomicAt (disk files n torn)
  by_point zero torn = at_staged torn
  by_point (suc n) torn = elim (Bool-cases (is_utf8 (staged_of path) && is_utf8 path)) [
    | inr refused ↦ refused_late refused n torn
    | inl both ↦ both_utf8 n (ground arith) (ground arith)
  ]
    where
      both_utf8 :
          (k : ℕ) → IsUtf8 (staged_of path) → IsUtf8 path → AtomicAt (disk files (suc k) torn)
      both_utf8 zero u v = at_journal u v torn
      both_utf8 (suc k) u v = later u v k torn

  -- Whatever fault meets it, publishing is atomic.
  pub publish-Atomic : (fault : Option Fault) → AtomicAt (record { files = files; fault = fault })
  publish-Atomic none = elim (Bool-cases (is_utf8 (staged_of path) && is_utf8 path)) [
    | inr refused ↦ refused_sound refused
    | inl both ↦ unharmed (ground arith) (ground arith)
  ]
  publish-Atomic (some f) = by_point f.after f.torn
