-- ===== src/Storage/Leftover.antt =====
-- A journal that an earlier commit left behind: `commit` neither looks at it nor removes it before
-- it writes the staged file, whose name is always the same.
use nostdb_core.Base.{ℕ, ◌≡◌, refl, false, some, Bytes, take, same_bytes_refl}
use nostdb_core.Base.Utf8.{IsUtf8}
use nostdb_core.Generation.{Generation, IsU64}
use nostdb_core.Files.{FilePath, FileMap, Disk, change, write_durably, torn_write}
use nostdb_core.Storage.Defs.{publish}
use nostdb_core.Storage.Paths.{staged_of, journal_of, staged-ne-journal}
use nostdb_core.Storage.Settles.{Settles}
use nostdb_core.Storage.Replays.{Settles-promoted}
use nostdb_core.Storage.Atomic.{journal_bytes, with_staged}
use nostdb_core.Storage.Points.{FitsJournal, whole}

abbrev pub stopped_writing : FileMap → ℕ → Disk
stopped_writing files k = record {
  files = files;
  fault = some (record { after = 0; torn = some k });
}

-- Where the journal of an earlier commit of the same database was left behind, and the next commit
-- stops after the first `k` bytes of its staged file, `recover` succeeds and puts those `k` bytes in
-- the place of the database.
pub leftover_journal-Settles :
    (path : FilePath) (files : FileMap) (earlier g : Generation) (bytes : Bytes) (k : ℕ)
    → files (journal_of path) ≡ some (journal_bytes path earlier)
    → FitsJournal path
    → IsU64 earlier
    → IsUtf8 (staged_of path)
    → IsUtf8 path
    → Settles path (publish path g bytes (stopped_writing files k)).1.files (some (take k bytes))
unfolding publish write_durably change torn_write
leftover_journal-Settles path files earlier g bytes k left fits hg u v =
    let now : FileMap = with_staged path files (some (take k bytes)) in
    let there : now (journal_of path) ≡ some (journal_bytes path earlier) =
      rw (staged-ne-journal path) left in
    let staged : now (staged_of path) ≡ some (take k bytes) =
      rw (same_bytes_refl (staged_of path)) refl in
    Settles-promoted path now (journal_bytes path earlier) there earlier false
      (whole path earlier fits hg u v) (take k bytes) staged
