-- ===== src/Storage/Publishes.antt =====
-- `Database::commit` with no fault: it succeeds, and the file that it leaves is read back.
use nostdb_core.Base.{
  ℕ, ◌+◌, ◌≡◌, refl, sym, ap, ◌∙◌, true, List, [], ◌∷◌, ◌++◌, append_assoc, append-nil, none, some,
  ltb, Bytes, lt→ltb, same_bytes_refl,
}
use nostdb_core.Base.Words.{u64_mod}
use nostdb_core.Base.Utf8.{IsUtf8}
use nostdb_core.Generation
use nostdb_core.Generation.{Generation}
use nostdb_core.Container
use nostdb_core.Container.{Section, ContainerBuilder, new, build, parse, raw}
use nostdb_core.Container.Layout.{AreFresh}
use nostdb_core.Container.Fills.{AllSeen, AllSeen-last, push_section-fresh}
use nostdb_core.Container.RoundTrip.{IsBuildable, parse-build}
use nostdb_core.Files.{FileMap, ok, update}
use nostdb_core.Files.Laws.{sound, read_there}
use nostdb_core.Storage.Defs.{Database, push_all, prepare, commit, open_file}
use nostdb_core.Storage.Paths.{staged_of, journal_of, journal-ne-path}
use nostdb_core.Storage.Points.{renamed}
use nostdb_core.Storage.Crash.{publish_whole}

push_all-AreFresh :
    (b : ContainerBuilder) (seen : List ℕ) (rest : List Section)
    → AllSeen seen b.sections
    → AreFresh seen rest
    → push_all b rest ≡ Container.Result.ok (record b { sections = b.sections ++ rest })
unfolding push_all
push_all-AreFresh b seen [] h f =
    ap (λ ss. Container.Result.ok (record b { sections = ss })) (sym (append-nil b.sections))
push_all-AreFresh b seen (s ∷ rest) h f =
    rw (push_section-fresh b seen s h f.1, push_all)
      (push_all-AreFresh (record b { sections = b.sections ++ s ∷ [] }) (raw s.kind ∷ seen) rest
          (AllSeen-last seen b.sections s h) f.2
        ∙ ap (λ ss. Container.Result.ok (record b { sections = ss }))
            (append_assoc b.sections (s ∷ []) rest))

module _ (db : Database) (sections : List Section) (files : FileMap) where
  abbrev pub next_generation : Generation
  next_generation = db.container.generation + 1

  -- The database behind the commit.
  abbrev pub committed : Database
  committed = record db { container = record { generation = next_generation; sections = sections } }

  -- The commit succeeds with the next generation, and leaves at the database's path a file that
  -- `open` reads back.
  pub record Publishes : Type 0 where
    pub after : FileMap
    pub commits : commit db sections (sound files) ≡ (ok (next_generation, committed), sound after)
    pub opens : open_file db.path (sound after) ≡ (ok committed, sound after)

  module _ (buildable : IsBuildable (record { generation = next_generation; sections = sections }))
      (staged_utf8 : IsUtf8 (staged_of db.path)) (path_utf8 : IsUtf8 db.path) where
    builder : ContainerBuilder
    builder = record { generation = next_generation; sections = sections }

    filled : push_all (new next_generation) sections ≡ Container.Result.ok builder
    unfolding new AllSeen builder
    filled = push_all-AreFresh (new next_generation) [] sections tt buildable.fresh

    prepared :
        (bytes : Bytes)
        → build builder ≡ Container.Result.ok bytes
        → parse bytes ≡ Container.Result.ok committed.container
        → prepare db sections (sound files) ≡ (
          ok (record {
            generation = next_generation;
            bytes = bytes;
            container = committed.container;
          }),
          sound files,
        )
    unfolding prepare Generation.next
    prepared bytes builds parses =
        let room : ltb next_generation u64_mod ≡ true = lt→ltb _ _ buildable.generation_fits in
        rw room (rw filled (rw builds (rw parses refl)))

    -- With no fault, and paths that are UTF-8, a commit of sections that can be built with the next
    -- generation succeeds with it, and `open` then reads back the database that it returns.
    pub commit-Publishes : Publishes
    unfolding commit open_file builder
    commit-Publishes =
        let (bytes, builds, parses) = parse-build builder buildable in
        let new_files = renamed db.path files next_generation bytes in
        let after = update new_files (journal_of db.path) none in
        let there : after db.path ≡ some bytes =
          rw (journal-ne-path db.path, same_bytes_refl db.path) refl in
        record {
          after = after;
          commits =
              rw (prepared bytes builds parses)
                (rw (publish_whole db.path files next_generation bytes staged_utf8 path_utf8) refl);
          opens = rw (read_there db.path after bytes there) (rw parses refl);
        }
