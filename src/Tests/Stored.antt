-- ===== src/Tests/Stored.antt =====
-- A graph of one link in the database "db", and a container of its bytes.
use nostdb_core.Base.{
  ◌*◌, ◌≤◌, ◌≡◌, refl, true, Bool, List, [], ◌∷◌, ◌&&◌, none, some, ltb, if◌then◌else◌, length,
  same_bytes, Bytes, AllBytes, arith,
}
use nostdb_core.Base.Results.{ok}
use nostdb_core.Base.Utf8.{is_utf8, IsUtf8}
use nostdb_core.Base.Words.{le_bytes}
use nostdb_core.Container.{
  Section, string_table, nodes, edges, links, schemas, section, raw, from_raw, contains,
  payload_bytes,
}
use nostdb_core.Container.RoundTrip.{IsBuildable}
use nostdb_core.Files.{FilePath, FileMap}
use nostdb_core.Storage.{Database, sibling}
use nostdb_core.Storage.Paths.{staged_of}
use nostdb_core.Model.Records.{Graph}
use nostdb_core.Encoding.Strings.{
  ◌>>◌, put_all, put, put_u32, put_string, put_optional, intern, lookup, next_place, encode,
  encode_entries,
}
use nostdb_core.Encoding.Write.{put_section, put_link}
use nostdb_core.Encoding.Graphs.{
  payloads, push_unless_empty, sections_of, encode_graph, decode_graph,
}
use nostdb_core.Encoding.Valid.{IsGraph}
use nostdb_core.Encoding.RoundTrip.{decode_graph-encode_graph}
use nostdb_core.Encoding.Room.{room, decode_graph-room}
use nostdb_core.Encoding.Trusted.{AllPayloads, decode_graph-IsGraph}
use nostdb_core.Encoding.Stored.{IsStored, commit_graph-IsStored}
use nostdb_core.Tests.Encodings.{letters, link_target, key, target_text, key_name}

abbrev pub graph : Graph
graph = record {
  nodes = [];
  edges = [];
  links = record { source = link_target; alias = some key } ∷ [];
  schemas = [];
}

pub graph-IsGraph : IsGraph letters graph
graph-IsGraph = record {
  nodes = (omega arith, tt);
  edges = (omega arith, tt);
  links = (omega arith, (record { source = target_text; alias = key_name }, tt));
  schemas = (omega arith, tt);
}

abbrev text_bytes : Bytes
text_bytes = 2 ∷ 0 ∷ 0 ∷ 0 ∷ 3 ∷ 0 ∷ 0 ∷ 0 ∷ 46 ∷ 47 ∷ 97 ∷ 3 ∷ 0 ∷ 0 ∷ 0 ∷ 107 ∷ 101 ∷ 121 ∷ []

abbrev link_bytes : Bytes
link_bytes = 1 ∷ 0 ∷ 0 ∷ 0 ∷ 0 ∷ 0 ∷ 0 ∷ 0 ∷ 1 ∷ 0 ∷ 0 ∷ 0 ∷ []

abbrev pub stored_sections : List Section
stored_sections =
    record { kind = string_table; payload = text_bytes }
    ∷ record { kind = links; payload = link_bytes }
    ∷ []

is_stored : encode_graph graph ≡ stored_sections
unfolding encode_graph sections_of push_unless_empty payloads put_section ◌>>◌ put_all put put_u32
    put_string put_optional intern lookup same_bytes next_place put_link encode encode_entries
    le_bytes
is_stored = refl

-- The payloads are bytes, tested.
are_bytes : Bytes → Bool
are_bytes [] = true
are_bytes (b ∷ bytes) = ltb b 256 && are_bytes bytes

are_bytes→AllBytes : (bytes : Bytes) → are_bytes bytes ≡ true → AllBytes bytes
unfolding are_bytes
are_bytes→AllBytes [] h = tt
are_bytes→AllBytes (b ∷ bytes) h = ground (arith, are_bytes→AllBytes bytes)

stored-AllPayloads : AllPayloads stored_sections
unfolding are_bytes
stored-AllPayloads = (are_bytes→AllBytes text_bytes refl, (are_bytes→AllBytes link_bytes refl, tt))

pub texts_count : length (payloads graph).strings.entries ≡ 2
unfolding payloads put_section ◌>>◌ put_all put put_u32 put_string put_optional intern lookup
    same_bytes next_place put_link
texts_count = refl

pub decoded :
    decode_graph letters (record { generation = 1; sections = stored_sections }) ≡ ok graph
decoded =
    rw is_stored at
      (decode_graph-encode_graph letters graph graph-IsGraph (omega (arith, texts_count)) 1)

decode_graph-IsGraph_example : IsGraph letters graph
decode_graph-IsGraph_example =
    decode_graph-IsGraph letters (record { generation = 1; sections = stored_sections }) graph
      stored-AllPayloads decoded

decode_graph-room_example :
    (0 * 28 ≤ room (section nodes stored_sections))
    × (0 * 40 ≤ room (section edges stored_sections))
    × (1 * 8 ≤ room (section links stored_sections))
    × (0 * 12 ≤ room (section schemas stored_sections))
decode_graph-room_example =
    decode_graph-room letters (record { generation = 1; sections = stored_sections }) graph decoded

abbrev pub path : FilePath
path = b'd' ∷ b'b' ∷ []

abbrev pub database : Database
database = record { path = path; container = record { generation = 1; sections = [] } }

abbrev pub only_database : FileMap
only_database q = if same_bytes path q then some (1 ∷ []) else none

pub staged-IsUtf8 : IsUtf8 (staged_of path)
unfolding sibling is_utf8
staged-IsUtf8 = refl

pub path-IsUtf8 : IsUtf8 path
unfolding is_utf8
path-IsUtf8 = refl

stored-IsBuildable : IsBuildable (record { generation = 2; sections = stored_sections })
unfolding raw from_raw contains payload_bytes
stored-IsBuildable = record {
  generation_fits = omega arith;
  few = omega arith;
  fresh = ((refl, omega arith), refl, ((refl, omega arith), refl, tt));
  fits = omega arith;
}

pub encoded-IsBuildable : IsBuildable (record { generation = 2; sections = encode_graph graph })
encoded-IsBuildable = rw is_stored stored-IsBuildable

commit_graph-IsStored_example : IsStored letters database graph only_database
commit_graph-IsStored_example =
    commit_graph-IsStored letters database graph only_database graph-IsGraph
      (omega (arith, texts_count)) encoded-IsBuildable staged-IsUtf8 path-IsUtf8
