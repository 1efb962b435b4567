-- ===== src/Encoding/Graphs.antt =====
-- `encode_graph` and `decode_graph`, and the database around them.
use nostdb_core.Base.{
  ℕ, Bool, true, false, ◌&&◌, List, [], ◌∷◌, Option, none, some, if◌then◌else◌, Bytes,
}
use nostdb_core.Base.Results.{Result, ok, err, ◌>>=◌}
use nostdb_core.Generation.{Generation}
use nostdb_core.Container.{SectionKind, Section, Container, section}
use nostdb_core.Files.{Io}
use nostdb_core.Storage
use nostdb_core.Storage.{Database, StorageError}
use nostdb_core.Model.Names.{Xid}
use nostdb_core.Model.Records.{Graph}
use nostdb_core.Encoding.Errors.{DecodeError, missing_section}
use nostdb_core.Encoding.Strings.{Strings, no_strings, encode}
use nostdb_core.Encoding.Write.{put_section, put_node, put_edge, put_link, put_schema}
use nostdb_core.Encoding.Reader.{Reader, Table, return, run, read_count, repeat, finish, read_table}
use nostdb_core.Encoding.Reader
use nostdb_core.Encoding.ReadNamed.{read_node, read_edge, read_link, read_schema}

-- The four payloads, and the string table behind them.
pub record Payloads : Type 0 where
  pub nodes : Bytes
  pub edges : Bytes
  pub links : Bytes
  pub schemas : Bytes
  pub strings : Strings

unfoldable pub payloads : Graph → Payloads
payloads graph =
    let (nodes, s1) = put_section put_node graph.nodes no_strings in
    let (edges, s2) = put_section put_edge graph.edges s1 in
    let (links, s3) = put_section put_link graph.links s2 in
    let (schemas, s4) = put_section put_schema graph.schemas s3 in
    record { nodes = nodes; edges = edges; links = links; schemas = schemas; strings = s4 }

-- A section is pushed, in front of those that follow, unless it has no record.
unfoldable pub push_unless_empty {ℓ} :
    {A : Type ℓ} → List A → SectionKind → Bytes → List Section → List Section
push_unless_empty [] kind payload rest = rest
push_unless_empty (_ ∷ _) kind payload rest = record { kind = kind; payload = payload } ∷ rest

unfoldable pub sections_of : Graph → Payloads → List Section
sections_of graph p =
    let schemas = push_unless_empty graph.schemas SectionKind.schemas p.schemas [] in
    let links = push_unless_empty graph.links SectionKind.links p.links schemas in
    let edges = push_unless_empty graph.edges SectionKind.edges p.edges links in
    let nodes = push_unless_empty graph.nodes SectionKind.nodes p.nodes edges in
    record { kind = SectionKind.string_table; payload = encode p.strings } ∷ nodes

unfoldable pub encode_graph : Graph → List Section
encode_graph graph = sections_of graph (payloads graph)

abbrev pub is_none {ℓ} : {A : Type ℓ} → Option A → Bool
is_none none = true
is_none (some _) = false

unfoldable pub table_of : List Section → Result DecodeError Table
table_of sections = elim (section SectionKind.string_table sections) [
  | some payload ↦ run read_table payload
  | none ↦
      if is_none (section SectionKind.nodes sections)
        && is_none (section SectionKind.edges sections)
        && is_none (section SectionKind.links sections)
      then ok []
      else err (missing_section SectionKind.string_table)
]

unfoldable pub read_counted : {A : Type 0} → ℕ → Reader A → Reader (List A)
read_counted least read_one = Reader.◌>>=◌ (read_count least) (λ count. repeat count read_one)

-- A section's payload: the count, the records and the end.
unfoldable pub read_records : {A : Type 0} → ℕ → Reader A → Reader (List A)
read_records least read_one =
    Reader.◌>>=◌ (read_counted least read_one)
      (λ records. Reader.◌>>=◌ finish (λ _. return records))

-- The records of a section, which may be absent.
unfoldable pub read_section :
    {A : Type 0} → Reader (List A) → Option Bytes → Result DecodeError (List A)
read_section reader none = ok []
read_section reader (some payload) = run reader payload

module _ (xid : Xid) where
  unfoldable pub decode_sections : List Section → Table → Result DecodeError Graph
  decode_sections sections table = do
    nodes ←
        read_section (read_records 28 (read_node table xid)) (section SectionKind.nodes sections)
    edges ←
        read_section (read_records 40 (read_edge table xid)) (section SectionKind.edges sections)
    links ← read_section (read_records 8 (read_link table xid)) (section SectionKind.links sections)
    schemas ←
        read_section (read_records 12 (read_schema table xid))
          (section SectionKind.schemas sections)
    ok (record { nodes = nodes; edges = edges; links = links; schemas = schemas })

  unfoldable pub decode_graph : Container → Result DecodeError Graph
  decode_graph container = do
    table ← table_of container.sections
    decode_sections container.sections table

  unfoldable pub read_graph : Database → Result DecodeError Graph
  read_graph database = decode_graph database.container

-- `commit_graph`
unfoldable pub commit_graph : Database → Graph → Io StorageError (Generation × Database)
commit_graph database graph = Storage.commit database (encode_graph graph)
