-- ===== src/Storage/Defs.antt =====
-- `Database`: `create`, `open` and `commit`.
use nostdb_core.Base.{List, [], ◌∷◌, ◌++◌, Option, none, some, if◌then◌else◌, Bytes}
use nostdb_core.Base.Utf8.{is_utf8}
use nostdb_core.Generation
use nostdb_core.Generation.{Generation}
use nostdb_core.Journal.{promote, encode_transaction}
use nostdb_core.Container
use nostdb_core.Container.{
  ContainerError, Section, Container, ContainerBuilder, parse, new, push_section, build,
}
use nostdb_core.Files.{
  FilePath, IoError, Returned, ok, err, Io, Disk, ◌>>=◌, ◌>>◌, pure, write_durably, rename, read,
  remove_if_present,
}

-- `GenerationError` and `JournalError` have one variant each.
pub data StorageError : Type 0 where
  io : IoError → StorageError
  container : ContainerError → StorageError
  generation_exhausted : StorageError
  non_utf8_path : StorageError

-- `.staged` and `.journal`
abbrev pub staged_suffix : Bytes
staged_suffix = b'.' ∷ b's' ∷ b't' ∷ b'a' ∷ b'g' ∷ b'e' ∷ b'd' ∷ []

abbrev pub journal_suffix : Bytes
journal_suffix = b'.' ∷ b'j' ∷ b'o' ∷ b'u' ∷ b'r' ∷ b'n' ∷ b'a' ∷ b'l' ∷ []

unfoldable pub sibling : FilePath → Bytes → FilePath
sibling path suffix = path ++ suffix

-- `?` on the errors of the parts.
abbrev pub of_io : {A : Type 0} → Returned IoError A × Disk → Returned StorageError A × Disk
of_io (ok a, d) = (ok a, d)
of_io (err e, d) = (err (io e), d)

abbrev pub on_disk : {A : Type 0} → Io IoError A → Io StorageError A
on_disk m d = of_io (m d)

abbrev pub checked : {A : Type 0} → Container.Result A → Io StorageError A
checked (Container.Result.ok a) d = (ok a, d)
checked (Container.Result.err e) d = (err (container e), d)

abbrev pub or_exhausted : Option Generation → Io StorageError Generation
or_exhausted none d = (err generation_exhausted, d)
or_exhausted (some g) d = (ok g, d)

unfoldable pub as_utf8 : FilePath → Io StorageError Bytes
as_utf8 path d = if is_utf8 path then (ok path, d) else (err non_utf8_path, d)

pub record Database : Type 0 where
  pub path : FilePath
  pub container : Container

unfoldable pub create : FilePath → Io StorageError Database
create path = do
  bytes ← checked (build (new Generation.initial))
  on_disk (write_durably path bytes)
  parsed ← checked (parse bytes)
  pure (record { path = path; container = parsed })

unfoldable pub open_file : FilePath → Io StorageError Database
open_file path = do
  bytes ← on_disk (read path)
  parsed ← checked (parse bytes)
  pure (record { path = path; container = parsed })

-- The loop that fills the builder.
unfoldable pub push_all : ContainerBuilder → List Section → Container.Result ContainerBuilder
push_all b [] = Container.Result.ok b
push_all b (s ∷ rest) = elim (push_section b s.kind s.payload) [
  | Container.Result.ok b' ↦ push_all b' rest
  | Container.Result.err e ↦ Container.Result.err e
]

-- The next container, its bytes and its generation: what `commit` computes before it writes.
pub record Staged : Type 0 where
  pub generation : Generation
  pub bytes : Bytes
  pub container : Container

unfoldable pub prepare : Database → List Section → Io StorageError Staged
prepare db sections = do
  next ← or_exhausted (Generation.next db.container.generation)
  builder ← checked (push_all (new next) sections)
  bytes ← checked (build builder)
  parsed ← checked (parse bytes)
  pure (record { generation = next; bytes = bytes; container = parsed })

-- What `commit` does to the disk.
unfoldable pub publish : FilePath → Generation → Bytes → Io StorageError (Unit {0})
publish path generation bytes = do
  let staged = sibling path staged_suffix
  let journal_path = sibling path journal_suffix
  on_disk (write_durably staged bytes)
  staged_text ← as_utf8 staged
  path_text ← as_utf8 path
  on_disk (
      write_durably journal_path
        (encode_transaction generation (promote staged_text path_text ∷ [])))
  on_disk (rename staged path)
  on_disk (remove_if_present journal_path)

-- `commit`; the database that it returns is `self` behind it. On an error `self` stays as it was.
unfoldable pub commit : Database → List Section → Io StorageError (Generation × Database)
commit db sections = do
  next ← prepare db sections
  publish db.path next.generation next.bytes
  pure (next.generation, record db { container = next.container })
