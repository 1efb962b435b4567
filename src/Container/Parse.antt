-- ===== src/Container/Parse.antt =====
-- `Container::parse`: the twelve checks in their order. A file has at most `isize::MAX` bytes and
-- `usize` has 64 bits, so that `usize::try_from` succeeds on what these checks let through.
use nostdb_core.Base.{
  ℕ, zero, suc, ◌+◌, ◌*◌, Bool, false, not, ◌&&◌, ◌||◌, List, [], ◌∷◌, ◌++◌, Option, none, some,
  ◌==◌, ltb, if◌then◌else◌, Bytes, length, slice, same_bytes,
}
use nostdb_core.Base.Words.{checked_add, checked_mul, from_le}
use nostdb_core.Crc.{crc32c}
use nostdb_core.Generation.{Generation}
use nostdb_core.Container.Kind.{
  SectionKind, Section, section_count, too_short, bad_magic, wrong_header_length, header_checksum,
  reserved_not_zero, undefined_flag, table_out_of_bounds, section_out_of_bounds, section_overlap,
  duplicate_section_kind, section_checksum, corrupt, unsupported_version, limit_exceeded, Result,
  ok, ◌>>=◌, ◌>>◌, refuse_if, ok_or, from_raw, same_kind,
}

abbrev pub magic : Bytes
magic = 0x4E ∷ 0x4F ∷ 0x53 ∷ 0x54 ∷ 0x44 ∷ 0x42 ∷ 0x1A ∷ 0x0A ∷ []

abbrev pub header_length : ℕ
header_length = 48

abbrev pub section_entry_length : ℕ
section_entry_length = 32

-- The one member of `SUPPORTED_FORMAT_VERSIONS`.
abbrev pub format_version : ℕ
format_version = 3

abbrev pub max_section_count : ℕ
max_section_count = 4096

abbrev pub header_crc_offset : ℕ
header_crc_offset = 44

pub record Container : Type 0 where
  pub generation : Generation
  pub sections : List Section

-- `u32_at` and `u64_at`, at a width in bytes.
unfoldable pub word_at : ℕ → Bytes → ℕ → Option ℕ
word_at width bytes at = elim (checked_add at width) [
  | none ↦ none
  | some end ↦ elim (slice bytes at end) [ none ↦ none | some array ↦ some (from_le array) ]
]

abbrev pub u32_at : Bytes → ℕ → Option ℕ
u32_at = word_at 4

abbrev pub u64_at : Bytes → ℕ → Option ℕ
u64_at = word_at 8

unfoldable pub has_magic : Bytes → Bool
has_magic bytes = elim (slice bytes 0 8) [ none ↦ false | some front ↦ same_bytes front magic ]

-- Checks 1 to 6; the generation is read behind them.
unfoldable pub check_header : Bytes → Result Generation
check_header bytes = do
  refuse_if (ltb (length bytes) header_length) (corrupt too_short)
  refuse_if (not (has_magic bytes)) (corrupt bad_magic)
  version ← ok_or (u32_at bytes 8) too_short
  refuse_if (not (version == format_version)) (unsupported_version version)
  stored_length ← ok_or (u32_at bytes 12) too_short
  refuse_if (not (stored_length == header_length)) (corrupt wrong_header_length)
  covered ← ok_or (slice bytes 0 header_crc_offset) too_short
  stored_crc ← ok_or (u32_at bytes header_crc_offset) too_short
  refuse_if (not (crc32c covered == stored_crc)) (corrupt header_checksum)
  flags ← ok_or (u32_at bytes 36) too_short
  refuse_if (not (flags == 0)) (corrupt undefined_flag)
  reserved ← ok_or (u32_at bytes 40) too_short
  refuse_if (not (reserved == 0)) (corrupt reserved_not_zero)
  ok_or (u64_at bytes 16) too_short

-- Where the table lies.
pub record Table : Type 0 where
  pub count : ℕ
  pub offset : ℕ
  pub end : ℕ

-- Checks 7 and 8.
unfoldable pub check_table : Bytes → Result Table
check_table bytes = do
  count ← ok_or (u32_at bytes 32) too_short
  refuse_if (ltb max_section_count count) (limit_exceeded section_count count)
  offset ← ok_or (u64_at bytes 24) too_short
  length' ← ok_or (checked_mul count section_entry_length) table_out_of_bounds
  end ← ok_or (checked_add offset length') table_out_of_bounds
  refuse_if (ltb offset header_length || ltb (length bytes) end) (corrupt table_out_of_bounds)
  ok (record { count = count; offset = offset; end = end })

-- A section that the table plans; the stored kind is kept for the set of kinds.
pub record Entry : Type 0 where
  pub kind : SectionKind
  pub raw_kind : ℕ
  pub offset : ℕ
  pub length : ℕ
  pub stored : ℕ

-- The entry at `base`, with check 9.
unfoldable pub read_entry : Bytes → ℕ → Result Entry
read_entry bytes base = do
  raw_kind ← ok_or (u32_at bytes base) table_out_of_bounds
  reserved ← ok_or (u32_at bytes (base + 4)) table_out_of_bounds
  reserved' ← ok_or (u32_at bytes (base + 28)) table_out_of_bounds
  refuse_if (not (reserved == 0) || not (reserved' == 0)) (corrupt reserved_not_zero)
  kind ← from_raw raw_kind
  offset ← ok_or (u64_at bytes (base + 8)) table_out_of_bounds
  length' ← ok_or (u64_at bytes (base + 16)) table_out_of_bounds
  stored ← ok_or (u32_at bytes (base + 24)) table_out_of_bounds
  end ← ok_or (checked_add offset length') section_out_of_bounds
  refuse_if (ltb offset header_length || ltb (length bytes) end) (corrupt section_out_of_bounds)
  ok (record {
    kind = kind;
    raw_kind = raw_kind;
    offset = offset;
    length = length';
    stored = stored;
  })

unfoldable pub contains : ℕ → List ℕ → Bool
contains n [] = false
contains n (m ∷ ms) = n == m || contains n ms

-- `entry_offset` of the entry `index`.
unfoldable pub entry_base : ℕ → ℕ → Option ℕ
entry_base offset index = elim (checked_mul index section_entry_length) [
  | none ↦ none
  | some skipped ↦ checked_add offset skipped
]

-- The loop over the table, with check 11: `left` entries are to be read, from `index` on, and
-- `kinds` is the set of the kinds seen.
unfoldable pub plan : ℕ → ℕ → Bytes → ℕ → List ℕ → Result (List Entry)
plan zero index bytes offset kinds = ok []
plan (suc left) index bytes offset kinds = do
  base ← ok_or (entry_base offset index) table_out_of_bounds
  entry ← read_entry bytes base
  refuse_if (contains entry.raw_kind kinds) (corrupt duplicate_section_kind)
  rest ← plan left (index + 1) bytes offset (entry.raw_kind ∷ kinds)
  ok (entry ∷ rest)

pub record Region : Type 0 where
  pub start : ℕ
  pub end : ℕ

-- `if length > 0 { regions.push(…) }`
unfoldable pub occupied : ℕ → ℕ → List Region
occupied start length =
    if ltb 0 length then record { start = start; end = start + length } ∷ [] else []

unfoldable pub section_regions : List Entry → List Region
section_regions [] = []
section_regions (e ∷ es) = occupied e.offset e.length ++ section_regions es

-- `regions`: the header, the table and the sections, those of no bytes left out.
unfoldable pub regions : Table → List Entry → List Region
regions table entries =
    record { start = 0; end = header_length }
    ∷ (occupied table.offset (table.count * section_entry_length) ++ section_regions entries)

unfoldable pub overlaps : Region → Region → Bool
overlaps a b = ltb a.start b.end && ltb b.start a.end

unfoldable pub overlaps_any : Region → List Region → Bool
overlaps_any a [] = false
overlaps_any a (b ∷ bs) = overlaps a b || overlaps_any a bs

-- Check 10: some two of the regions overlap.
unfoldable pub any_overlap : List Region → Bool
any_overlap [] = false
any_overlap (a ∷ as') = overlaps_any a as' || any_overlap as'

-- Check 12.
unfoldable pub load : Bytes → Entry → Result Section
load bytes e = do
  payload ← ok_or (slice bytes e.offset (e.offset + e.length)) section_out_of_bounds
  refuse_if (not (crc32c payload == e.stored)) (corrupt section_checksum)
  ok (record { kind = e.kind; payload = payload })

unfoldable pub load_all : Bytes → List Entry → Result (List Section)
load_all bytes [] = ok []
load_all bytes (e ∷ es) = do section ← load bytes e; rest ← load_all bytes es; ok (section ∷ rest)

unfoldable pub parse : Bytes → Result Container
parse bytes = do
  generation ← check_header bytes
  table ← check_table bytes
  entries ← plan table.count 0 bytes table.offset []
  refuse_if (any_overlap (regions table entries)) (corrupt section_overlap)
  sections ← load_all bytes entries
  ok (record { generation = generation; sections = sections })

-- `section`: the payload of the first section of a kind.
unfoldable pub section : SectionKind → List Section → Option Bytes
section kind [] = none
section kind (s ∷ rest) = if same_kind s.kind kind then some s.payload else section kind rest
