-- ===== src/Lib.antt =====
-- nostdb-core: the storage core of a local-first property graph database. Paths below are from the
-- repository's root.
--
-- The program keeps a database in one `.nostdb` file. A container (src/container.rs) holds the
-- sections of one generation (src/generation.rs) behind a header and a table with CRC-32C checksums
-- (src/crc.rs). A commit (src/storage.rs) stages the next container beside the file, records its
-- intent in a journal (src/journal.rs), renames the staged file over the database and removes the
-- journal; a transaction of several files does the same for each of them; recovery finishes or rolls back what a crash interrupted. Synchronization (src/sync.rs)
-- compares the database and its `.nost` text with a baseline.
--
-- Base: shared names and lemmas; Base.Words is `checked_add`, `checked_mul` and little-endian bytes,
--   Base.Bits the laws of exclusive or, Base.Utf8 the test of `String::from_utf8`.
-- Crc: `crc32c`, with its loop over the bits as `bit_rounds` and over the bytes as `register`.
-- Generation: the `u64` counter; `next` is `none` where it is exhausted.
-- Journal: `JournalRecord` and `encode` (Record), `Cursor` and `decode_payload` (Cursor), `replay` and
--   `encode_transaction` (Replay). The loop of `replay` has one unit of fuel more than there are
--   bytes, and each round takes at least twelve bytes.
-- Container: `SectionKind` and the errors (Kind), `Container::parse` as its header, table, entry,
--   overlap and payload checks in the order of the source (Parse), `ContainerBuilder` (Build). What
--   the table promises is in Entries, and in Sound with the header.
-- Files: the file system as a function from paths to contents, with a fault after so many changes; a
--   write that the fault meets leaves the file as it was or holding some first bytes, a rename or a
--   removal is atomic. What fails stands for an error and for a crash at that point.
-- Storage: `Database` with `create`, `open` (`open_file`) and `commit` (Defs; `prepare` is the part
--   before the first write, `publish` the part that changes the disk), and `recover` (Recover).
-- FileTransaction: `FileTransaction`, `apply` and `recover_at` of src/journal.rs, which change several
--   files as one (Defs); what the actions make of the files (Carried), on a disk with or without a
--   fault (Applies), what recovery makes of a journal (Journalled), the commit under every fault
--   (Atomic, Commit), and carrying actions out again (Again).
-- Ids: the text form of identifiers, `encode`, `decode`, `Display` and `FromStr` of src/id.rs; the
--   minter is left out.
-- Ignore: the exclusion rules of src/ignore.rs. `glob` and its branches (Glob), `Rule::parse` and
--   `matches` (Rules), `IgnoreFile` and `IgnoreStack` (Stack); what a pattern means, apart from the
--   code (Tokens). Each round of `matches_from` takes a character off the pattern, and the fuel is one
--   more than the pattern has. A text is its characters there.
-- Model: names, texts, numbers, timestamps, values, schemas, evidence and records, with the checks of
--   their constructors (src/name.rs, src/locator.rs, src/text.rs, src/property.rs, src/schema.rs,
--   src/evidence.rs, src/contribution.rs, src/graph.rs, src/link.rs). The character tests of the
--   `unicode_ident` crate are the parameter `Xid`. A float is its bit pattern. `depth` runs on as
--   much fuel as the value has parts.
-- Encoding: src/encoding.rs. The string table and the writer (Strings, Write), the reader over what is
--   left of a payload (Reader, Read), and `encode_graph` and `decode_graph` (Graphs). The readers of
--   nested values and types recurse on the levels that are left of `MAX_NESTING_DEPTH`. A writer and
--   the reader that undoes it are kept together by `Codes`, and the least that a reader takes by
--   `Takes`. Unchecked has the readers once more without their checks of counts, to compare with.
-- Transactions: `WriteSummary` of src/mutate.rs, and `Transaction` of src/transaction.rs with `begin`,
--   `run` and `commit`. What a query does to the graph is a parameter, so what is said holds for each
--   of the three ways to run one; `run_once`, and `rollback`, which drops the value, are left out.
-- Sync: `diverged`, `decide` and the outcomes, over a digest function as a parameter.
-- Tests: runs at concrete inputs, and the theorems at inputs that meet their hypotheses.
--
-- Conventions. A byte is a number below 256, a Rust `String` and a path are their bytes, `usize` has 64
-- bits, and a slice has fewer than 2 ^ 63 bytes, as Rust guarantees. A path has
-- no trailing slash. A commit's staged file and its flush are one write. Directory flushes, messages
-- and the `Display` of errors are not modelled, nor are the query engine, the `.nost` language, the
-- analyzers and the project layout above the storage core.
pub mod Base
pub mod Crc
pub mod Generation
pub mod Journal
pub mod Container
pub mod FileTransaction
pub mod Files
pub mod Ids
pub mod Ignore
pub mod Model
pub mod Encoding
pub mod Transactions
pub mod Storage
pub mod Sync
mod Tests
