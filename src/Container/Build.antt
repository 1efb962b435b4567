-- ===== src/Container/Build.antt =====
-- `ContainerBuilder`.
use nostdb_core.Base.{ℕ, ◌+◌, ◌*◌, ◌%◌, Bool, false, ◌||◌, List, [], ◌∷◌, ◌++◌, ltb, Bytes, length}
use nostdb_core.Base.Words.{u32_mod, le_bytes}
use nostdb_core.Crc.{crc32c}
use nostdb_core.Generation.{Generation}
use nostdb_core.Container.Kind.{
  SectionKind, Section, section_count, duplicate_section_kind, corrupt, limit_exceeded, Result, ok,
  ◌>>◌, refuse_if, raw, same_kind,
}
use nostdb_core.Container.Parse.{
  magic, header_length, section_entry_length, format_version, max_section_count,
}

pub record ContainerBuilder : Type 0 where
  pub generation : Generation
  pub sections : List Section

unfoldable pub new : Generation → ContainerBuilder
new generation = record { generation = generation; sections = [] }

unfoldable pub holds_kind : SectionKind → List Section → Bool
holds_kind kind [] = false
holds_kind kind (s ∷ rest) = same_kind s.kind kind || holds_kind kind rest

unfoldable pub push_section : ContainerBuilder → SectionKind → Bytes → Result ContainerBuilder
push_section b kind payload = do
  refuse_if (holds_kind kind b.sections) (corrupt duplicate_section_kind)
  ok (record b { sections = b.sections ++ record { kind = kind; payload = payload } ∷ [] })

-- One entry of the table, for a section whose payload begins at `cursor`.
unfoldable pub entry_bytes : ℕ → Section → Bytes
entry_bytes cursor s =
    le_bytes 4 (raw s.kind)
    ++ (le_bytes 4 0
        ++ (le_bytes 8 cursor
            ++ (le_bytes 8 (length s.payload) ++ (le_bytes 4 (crc32c s.payload) ++ le_bytes 4 0))))

unfoldable pub table_bytes : ℕ → List Section → Bytes
table_bytes cursor [] = []
table_bytes cursor (s ∷ rest) = entry_bytes cursor s ++ table_bytes (cursor + length s.payload) rest

unfoldable pub payload_bytes : List Section → Bytes
payload_bytes [] = []
payload_bytes (s ∷ rest) = s.payload ++ payload_bytes rest

-- The header up to its checksum, for a table behind it.
unfoldable pub header_fields : Generation → ℕ → Bytes
header_fields generation count =
    magic
    ++ (le_bytes 4 format_version
        ++ (le_bytes 4 header_length
            ++ (le_bytes 8 generation
                ++ (le_bytes 8 header_length
                    ++ (le_bytes 4 (count % u32_mod) ++ (le_bytes 4 0 ++ le_bytes 4 0))))))

unfoldable pub header_bytes : Generation → ℕ → Bytes
header_bytes generation count =
    header_fields generation count ++ le_bytes 4 (crc32c (header_fields generation count))

unfoldable pub build : ContainerBuilder → Result Bytes
build b = do
  let count = length b.sections
  refuse_if (ltb max_section_count count) (limit_exceeded section_count count)
  ok (
      header_bytes b.generation count
      ++ (table_bytes (header_length + count * section_entry_length) b.sections
          ++ payload_bytes b.sections))
