-- ===== src/Storage/Points.antt =====
-- The disk at each point where a commit can stop, and what `recover` makes of it.
use nostdb_core.Base.{
  max_length, ◌++◌, ℕ, ◌+◌, ◌<◌, ◌≡◌, ◌≢◌, refl, ◌∙◌, false, [], ◌∷◌, ◌⊎◌, inl, inr, Option, none,
  some, Bytes, length, take, length-append, same_bytes_refl, arith,
}
use nostdb_core.Base.Words.{u32_mod}
use nostdb_core.Base.Utf8.{IsUtf8}
use nostdb_core.Generation.{Generation, IsU64}
use nostdb_core.Journal.{
  JournalRecord, begin, promote, commit, replay, encode, encode_transaction, encode_all,
  staged_files,
}
use nostdb_core.Journal.Payload.{length-payload}
use nostdb_core.Journal.Prefix.{intact, is_torn, length-encode}
use nostdb_core.Journal.Recovers.{
  replay-encode_transaction, replay-encode_transaction_torn, records_of,
}
use nostdb_core.Files.{FilePath, FileMap, Disk, Returned, ok, update}
use nostdb_core.Storage.Defs.{StorageError}
use nostdb_core.Storage.Paths.{
  staged_of, journal_of, staged-ne-path, path-ne-staged, journal-ne-path, path-ne-journal,
  staged-ne-journal, journal-ne-staged,
}
use nostdb_core.Storage.Settles.{Settles, Settles-unjournalled}
use nostdb_core.Storage.Replays.{
  Settles-uncommitted, Settles-abandoned, Settles-promoted, Settles-done,
}
use nostdb_core.Storage.Atomic.{Atomic, journal_bytes, with_staged, judge}

-- The paths fit the journal's 32-bit length fields.
abbrev pub FitsJournal : FilePath → Type 0
FitsJournal path = length (staged_of path) + length path + 8 < u32_mod

abbrev pub action : FilePath → JournalRecord
action path = promote (staged_of path) path

-- The staged file is written and the journal is `j`.
abbrev pub journal_is : FilePath → FileMap → Bytes → Option Bytes → FileMap
journal_is path files bytes j = update (with_staged path files (some bytes)) (journal_of path) j

-- The staged file is renamed over the database.
abbrev pub renamed : FilePath → FileMap → Generation → Bytes → FileMap
renamed path files g bytes =
    update
      (update (journal_is path files bytes (some (journal_bytes path g))) (staged_of path) none)
      path (some bytes)

module _ (path : FilePath) (g : Generation) (fits : FitsJournal path) (hg : IsU64 g)
    (staged_utf8 : IsUtf8 (staged_of path)) (path_utf8 : IsUtf8 path) where
  size : length (journal_bytes path g) < max_length
  unfolding encode_transaction encode_all
  size = omega (
    arith,
    length-append (encode (begin g)) ((encode (action path) ++ []) ++ encode commit),
    length-append (encode (action path) ++ []) (encode commit),
    length-append (encode (action path)) [],
    length-encode (begin g) hg,
    length-encode (action path) (staged_utf8, path_utf8, fits),
    length-encode commit tt,
    length-payload (begin g) hg,
    length-payload (action path) (staged_utf8, path_utf8, fits),
    length-payload commit tt,
  )

  pub whole : replay (journal_bytes path g) ≡ record {
    committed = begin g ∷ (action path) ∷ commit ∷ [];
    abandoned_staged = [];
    truncated = false;
  }
  whole =
      replay-encode_transaction g ((action path) ∷ []) (tt, tt)
        (hg, ((staged_utf8, path_utf8, fits), tt)) size

  -- The staged file is given up, or the cut is before its record.
  cut :
      (k : ℕ)
      → (staged_files (intact k (begin g ∷ (action path) ∷ [])) ≡ [])
        ⊎ (staged_files (intact k (begin g ∷ (action path) ∷ [])) ≡ staged_of path ∷ [])
  unfolding staged_files intact
  cut k = ground arith

  torn :
      (k : ℕ)
      → k < length (journal_bytes path g)
      → replay (take k (journal_bytes path g)) ≡ record {
        committed = [];
        abandoned_staged = staged_files (intact k (begin g ∷ (action path) ∷ []));
        truncated = is_torn k (records_of g ((action path) ∷ []));
      }
  torn k h =
      replay-encode_transaction_torn g ((action path) ∷ []) (tt, tt)
        (hg, ((staged_utf8, path_utf8, fits), tt)) size k h

module _ {A : Type 0} (path : FilePath) (files : FileMap) (g : Generation) (bytes : Bytes)
    (absent : files (journal_of path) ≡ none) (fits : FitsJournal path) (hg : IsU64 g)
    (staged_utf8 : IsUtf8 (staged_of path)) (path_utf8 : IsUtf8 path)
    (m : Returned StorageError A × Disk) where
  -- The journal was cut: the transaction never committed.
  pub journal_torn :
      (k : ℕ)
      → m.1.files ≡ journal_is path files bytes (some (take k (journal_bytes path g)))
      → ((a : A) → m.0 ≢ ok a)
      → k < length (journal_bytes path g)
      → Atomic path files bytes m
  journal_torn k e failed short =
      let now = journal_is path files bytes (some (take k (journal_bytes path g))) in
      let there : now (journal_of path) ≡ some (take k (journal_bytes path g)) =
        rw (same_bytes_refl (journal_of path)) refl in
      let old : now path ≡ files path = rw (journal-ne-path path, staged-ne-path path) refl in
      let settles : Settles path now (now path) =
        elim (cut path g fits hg staged_utf8 path_utf8 k) [
          | inl nothing ↦
              Settles-uncommitted path now (take k (journal_bytes path g)) there
                (is_torn k (records_of g (action path ∷ [])))
                (torn path g fits hg staged_utf8 path_utf8 k short ∙ rw nothing refl)
          | inr staged ↦
              Settles-abandoned path now (take k (journal_bytes path g)) there
                (is_torn k (records_of g (action path ∷ [])))
                (torn path g fits hg staged_utf8 path_utf8 k short ∙ rw staged refl)
        ] in
      judge path files bytes absent m now (files path) e (rw old at settles)
        (λ q j t p. rw (j, t) refl) (inl refl) (λ a h. absurd (failed a h))

  -- The journal is whole: recovery carries the promotion out.
  pub journal_whole :
      m.1.files ≡ journal_is path files bytes (some (journal_bytes path g))
      → ((a : A) → m.0 ≢ ok a)
      → Atomic path files bytes m
  journal_whole e failed =
      let now = journal_is path files bytes (some (journal_bytes path g)) in
      let there : now (journal_of path) ≡ some (journal_bytes path g) =
        rw (same_bytes_refl (journal_of path)) refl in
      let staged : now (staged_of path) ≡ some bytes =
        rw (journal-ne-staged path, same_bytes_refl (staged_of path)) refl in
      judge path files bytes absent m now (some bytes) e
        (Settles-promoted path now (journal_bytes path g) there g false
          (whole path g fits hg staged_utf8 path_utf8) bytes staged)
        (λ q j t p. rw (j, t) refl) (inr refl) (λ a h. refl)

  -- The file is in place and the journal still there.
  pub journal_left : m.1.files ≡ (renamed path files g bytes) → Atomic path files bytes m
  journal_left e =
      let there : (renamed path files g bytes) (journal_of path) ≡ some (journal_bytes path g) =
        rw (path-ne-journal path, staged-ne-journal path, same_bytes_refl (journal_of path)) refl in
      let gone : (renamed path files g bytes) (staged_of path) ≡ none =
        rw (path-ne-staged path, same_bytes_refl (staged_of path)) refl in
      let new : (renamed path files g bytes) path ≡ some bytes = rw (same_bytes_refl path) refl in
      let settles : Settles path (renamed path files g bytes) ((renamed path files g bytes) path) =
        Settles-done path (renamed path files g bytes) (journal_bytes path g) there g false
          (whole path g fits hg staged_utf8 path_utf8) gone in
      judge path files bytes absent m (renamed path files g bytes) (some bytes) e
        (rw new at settles) (λ q j t p. rw (p, t, j) refl) (inr refl) (λ a h. refl)

  -- The journal is gone: the commit is complete.
  pub journal_removed :
      m.1.files ≡ update (renamed path files g bytes) (journal_of path) none
      → Atomic path files bytes m
  journal_removed e =
      let now = update (renamed path files g bytes) (journal_of path) none in
      let gone : now (journal_of path) ≡ none = rw (same_bytes_refl (journal_of path)) refl in
      let new : now path ≡ some bytes = rw (journal-ne-path path, same_bytes_refl path) refl in
      let settles : Settles path now (now path) = Settles-unjournalled path now gone in
      judge path files bytes absent m now (some bytes) e (rw new at settles)
        (λ q j t p. rw (j, p, t) refl) (inr refl) (λ a h. refl)
