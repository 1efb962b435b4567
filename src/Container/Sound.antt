-- ===== src/Container/Sound.antt =====
-- What `parse` guarantees of a file that it accepts.
use nostdb_core.Base.{
  same_bytes_eq, Option-cases, ◌+◌, ◌*◌, ◌≤◌, ◌≡◌, refl, ap, ◌∙◌, true, false, List, [], some, ◌⊎◌,
  inl, inr, Bytes, length, take, slice, arith,
}
use nostdb_core.Base.Words.{checked_add, checked_mul}
use nostdb_core.Crc.{crc32c}
use nostdb_core.Generation.{Generation}
use nostdb_core.Container.Kind.{ContainerError, Result, ok, err}
use nostdb_core.Container.Parse.{
  Container, Entry, Table, plan, load_all, u32_at, u64_at, check_header, check_table, regions,
  any_overlap, parse, magic, has_magic,
}
use nostdb_core.Container.Entries.{
  AllStored, DistinctKinds, PairwiseApart, AllPlaced, plan-AllStored, plan-DistinctKinds,
  any_overlap-PairwiseApart, load_all-AllPlaced,
}

-- The header's fields are what the format says, and its checksum is right.
pub record HeaderHolds (bytes : Bytes) (generation : Generation) : Type 0 where
  pub long_enough : 48 ≤ length bytes
  pub starts : slice bytes 0 8 ≡ some magic
  pub version : u32_at bytes 8 ≡ some 3
  pub own_length : u32_at bytes 12 ≡ some 48
  pub of_generation : u64_at bytes 16 ≡ some generation
  pub flags : u32_at bytes 36 ≡ some 0
  pub reserved : u32_at bytes 40 ≡ some 0
  pub checksum : u32_at bytes 44 ≡ some (crc32c (take 44 bytes))

has_magic-starts : (bytes : Bytes) → has_magic bytes ≡ true → slice bytes 0 8 ≡ some magic
unfolding has_magic
has_magic-starts bytes h = elim (Option-cases (slice bytes 0 8)) [
  | inl missing ↦ absurd (ground arith)
  | inr (front, there) ↦ there ∙ ap some (same_bytes_eq front magic (rw (there, has_magic) at h))
]

check_header-HeaderHolds :
    (bytes : Bytes) (g : Generation) → check_header bytes ≡ ok g → HeaderHolds bytes g
unfolding check_header slice
check_header-HeaderHolds bytes g h = record {
  long_enough = ground arith;
  starts = has_magic-starts bytes (ground arith);
  version = ground arith;
  own_length = ground arith;
  of_generation = ground arith;
  flags = ground arith;
  reserved = ground arith;
  checksum = ground arith;
}

-- The table is where the header says, behind the header and inside the file.
pub record TableHolds (bytes : Bytes) (table : Table) : Type 0 where
  pub of_count : u32_at bytes 32 ≡ some table.count
  pub of_offset : u64_at bytes 24 ≡ some table.offset
  pub few : table.count ≤ 4096
  pub above_header : 48 ≤ table.offset
  pub inside : table.offset + table.count * 32 ≤ length bytes

check_table-TableHolds :
    (bytes : Bytes) (table : Table) → check_table bytes ≡ ok table → TableHolds bytes table
unfolding check_table checked_add checked_mul
check_table-TableHolds bytes table h = record {
  of_count = ground arith;
  of_offset = ground arith;
  few = ground arith;
  above_header = ground arith;
  inside = ground arith;
}

-- The file describes the container: the header, the table and its entries hold, no kind is stored
-- twice, no two of the header, the table and the sections share a byte, and each section is the bytes
-- that its entry names, with their checksum.
pub record Describes (bytes : Bytes) (c : Container) : Type 0 where
  pub table : Table
  pub entries : List Entry
  pub header : HeaderHolds bytes c.generation
  pub placed : TableHolds bytes table
  pub complete : length entries ≡ table.count
  pub stored : AllStored bytes table.offset 0 entries
  pub kinds : DistinctKinds entries
  pub apart : PairwiseApart (regions table entries)
  pub sections : AllPlaced bytes entries c.sections

-- The steps of a `parse` that succeeds.
record Steps (bytes : Bytes) (c : Container) : Type 0 where
  table : Table
  entries : List Entry
  header : check_header bytes ≡ ok c.generation
  placed : check_table bytes ≡ ok table
  planned : plan table.count 0 bytes table.offset [] ≡ ok entries
  clear : any_overlap (regions table entries) ≡ false
  loaded : load_all bytes entries ≡ ok c.sections

Result-cases :
    {A : Type 0} (r : Result A) → ((a : A) × (r ≡ ok a)) ⊎ ((e : ContainerError) × (r ≡ err e))
Result-cases (ok a) = inl (a, refl)
Result-cases (err e) = inr (e, refl)

parse-Steps : (bytes : Bytes) (c : Container) → parse bytes ≡ ok c → Steps bytes c
unfolding parse
parse-Steps bytes c h = elim (Result-cases (check_table bytes)) [
  | inr (e, t) ↦ absurd (ground arith)
  | inl (table, t) ↦ elim (Result-cases (plan table.count 0 bytes table.offset [])) [
    | inr (e, p) ↦ absurd (ground arith)
    | inl (entries, p) ↦ record {
      table = table;
      entries = entries;
      header = ground arith;
      placed = t;
      planned = p;
      clear = ground arith;
      loaded = ground arith;
    }
  ]
]

-- If `parse` accepts a file, its header has the format's magic, version, length and checksum, and
-- the generation that is returned; the table has at most 4096 entries and lies behind the header
-- and inside the file; the entries are those that stand in it, and no kind is stored twice; no
-- two of the header, the table and the sections that are not empty share a byte; and the sections
-- are the bytes that the entries name, inside the file, with the kinds and the checksums that are
-- stored.
pub parse-Describes : (bytes : Bytes) (c : Container) → parse bytes ≡ ok c → Describes bytes c
parse-Describes bytes c h =
    let s = parse-Steps bytes c h in
    let (stored, n) = plan-AllStored bytes s.table.offset s.table.count 0 [] s.entries s.planned in
    record {
      table = s.table;
      entries = s.entries;
      header = check_header-HeaderHolds bytes c.generation s.header;
      placed = check_table-TableHolds bytes s.table s.placed;
      complete = n;
      stored = stored;
      kinds = plan-DistinctKinds bytes s.table.offset s.table.count 0 [] s.entries s.planned;
      apart = any_overlap-PairwiseApart _ s.clear;
      sections = load_all-AllPlaced bytes s.entries c.sections s.loaded;
    }
