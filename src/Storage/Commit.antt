-- ===== src/Storage/Commit.antt =====
-- `Database::commit` as a whole: it is atomic under every fault, and where it succeeds it has
-- published the next generation.
use nostdb_core.Base.{◌+◌, ◌≡◌, List, Bytes}
use nostdb_core.Generation
use nostdb_core.Generation.{Generation, IsU64}
use nostdb_core.Container
use nostdb_core.Container.{Section, ContainerBuilder, new, build, parse}
use nostdb_core.Files.{FileMap, Disk, Returned, ok}
use nostdb_core.Storage.Defs.{StorageError, container, Database, Staged, push_all}
use nostdb_core.Storage.Atomic.{Atomic}

-- What `prepare` computes when it succeeds.
record IsNext (db : Database) (sections : List Section) (s : Staged) : Type 0 where
  generation_next : s.generation ≡ db.container.generation + 1
  generation_fits : IsU64 s.generation
  builder : ContainerBuilder
  filled : push_all (new s.generation) sections ≡ Container.Result.ok builder
  built : build builder ≡ Container.Result.ok s.bytes
  parsed : parse s.bytes ≡ Container.Result.ok s.container

module _ (db : Database) (sections : List Section) (d : Disk) where
  abbrev gen : Generation
  gen = db.container.generation

-- What an attempt to commit returned and left.
pub record CommitAtomic (db : Database) (sections : List Section) (files : FileMap)
    (m : Returned StorageError (Generation × Database) × Disk) : Type 0 where
  pub bytes : Bytes
  pub atomic : Atomic db.path files bytes m
  pub published :
      (g : Generation) (db' : Database)
      → m.0 ≡ ok (g, db')
      → (g ≡ db.container.generation + 1)
        × (db'.path ≡ db.path)
        × (parse bytes ≡ Container.Result.ok db'.container)
