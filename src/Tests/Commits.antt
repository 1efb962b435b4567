-- ===== src/Tests/Commits.antt =====
-- A commit of the database "db" that stops while it writes its journal, and one that meets a journal
-- that was left behind.
use nostdb_core.Base.{◌≡◌, refl, List, [], ◌∷◌, none, some, if◌then◌else◌, take, same_bytes, arith}
use nostdb_core.Base.Utf8.{is_utf8, IsUtf8}
use nostdb_core.Container.{Section, nodes, raw, from_raw, contains, payload_bytes}
use nostdb_core.Files.{FilePath, FileMap}
use nostdb_core.Storage.{Database, sibling, publish}
use nostdb_core.Storage.Paths.{staged_of, journal_of}
use nostdb_core.Storage.Settles.{Settles}
use nostdb_core.Storage.Atomic.{journal_bytes}
use nostdb_core.Storage.Points.{FitsJournal}
use nostdb_core.Container.RoundTrip.{IsBuildable}
use nostdb_core.Storage.Publishes.{Publishes, commit-Publishes}
use nostdb_core.Storage.Leftover.{stopped_writing, leftover_journal-Settles}

abbrev path : FilePath
path = b'd' ∷ b'b' ∷ []

abbrev database : Database
database = record { path = path; container = record { generation = 1; sections = [] } }

abbrev next_sections : List Section
next_sections = record { kind = nodes; payload = 9 ∷ [] } ∷ []

abbrev only_database : FileMap
only_database q = if same_bytes path q then some (1 ∷ []) else none

path-FitsJournal : FitsJournal path
unfolding sibling
path-FitsJournal = omega arith

next-IsBuildable : IsBuildable (record { generation = 2; sections = next_sections })
unfolding raw from_raw contains payload_bytes
next-IsBuildable = record {
  generation_fits = omega arith;
  few = omega arith;
  fresh = ((refl, omega arith), refl, tt);
  fits = omega arith;
}

abbrev with_leftover : FileMap
with_leftover q = if same_bytes (journal_of path) q then some (journal_bytes path 1) else none

left_there : with_leftover (journal_of path) ≡ some (journal_bytes path 1)
unfolding sibling same_bytes
left_there = refl

staged-IsUtf8 : IsUtf8 (staged_of path)
unfolding sibling is_utf8
staged-IsUtf8 = refl

path-IsUtf8 : IsUtf8 path
unfolding is_utf8
path-IsUtf8 = refl

leftover_journal-Settles_example :
    Settles path
      (publish path 2 (5 ∷ 6 ∷ 7 ∷ []) (stopped_writing with_leftover 1)).1.files
      (some (take 1 (5 ∷ 6 ∷ 7 ∷ [])))
leftover_journal-Settles_example =
    leftover_journal-Settles path with_leftover 1 2 (5 ∷ 6 ∷ 7 ∷ []) 1 left_there path-FitsJournal
      (omega arith) staged-IsUtf8 path-IsUtf8

commit-Publishes_example : Publishes database next_sections only_database
commit-Publishes_example =
    commit-Publishes database next_sections only_database next-IsBuildable staged-IsUtf8 path-IsUtf8
