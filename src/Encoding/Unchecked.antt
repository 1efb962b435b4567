-- ===== src/Encoding/Unchecked.antt =====
-- The readers of src/encoding.rs without the check of a count: as many records are read as it says.
use nostdb_core.Base.{ℕ, zero, suc, ◌&&◌, List, [], none, some, if◌then◌else◌}
use nostdb_core.Base.Results
use nostdb_core.Base.Results.{Result, ok, err}
use nostdb_core.Container.{SectionKind, Section, Container, section}
use nostdb_core.Model.Names.{Xid}
use nostdb_core.Model.Values.{PropertyValue, Entries, max_nesting_depth}
use nostdb_core.Model.Schemas.{FieldType, Schema}
use nostdb_core.Model.Records.{Contribution, Node, Edge, Graph}
use nostdb_core.Encoding.Errors.{DecodeError, missing_section}
use nostdb_core.Encoding.Reader.{
  Reader, Table, ◌>>=◌, return, take_bytes, read_u8, read_u32, id16, peek, repeat, finish, run,
  read_entry,
}
use nostdb_core.Encoding.Read.{too_deep, read_evidence, decode_owner, read_reference}
use nostdb_core.Encoding.ReadNamed.{
  read_name, read_items, read_entries, value_of_tag, read_fields, read_array, type_of_tag,
  read_link, read_endpoints,
}
use nostdb_core.Encoding.Graphs.{is_none, read_section}

unfoldable pub table_unchecked : Reader Table
table_unchecked = do count ← read_u32; entries ← repeat count read_entry; _ ← finish; return entries

unfoldable pub records_unchecked : {A : Type 0} → Reader A → Reader (List A)
records_unchecked read_one = do
  count ← read_u32
  records ← repeat count read_one
  _ ← finish
  return records

module _ (table : Table) where
  unfoldable pub contribution_unchecked : Reader Contribution
  contribution_unchecked = do
    owner ← decode_owner table
    source_unit ← id16
    count ← read_u32
    evidence ← repeat count (read_evidence table)
    return (record { owner = owner; source_unit = source_unit; evidence = evidence })

  unfoldable pub contributions_unchecked : Reader (List Contribution)
  contributions_unchecked = do count ← read_u32; repeat count contribution_unchecked

  module _ (xid : Xid) where
    unfoldable pub list_unchecked : Reader PropertyValue → Reader PropertyValue
    list_unchecked inside = do
      _ ← take_bytes 1
      count ← read_u32
      items ← read_items table xid inside count
      return (PropertyValue.list items)

    unfoldable pub map_unchecked : Reader PropertyValue → Reader PropertyValue
    map_unchecked inside = do
      _ ← take_bytes 1
      count ← read_u32
      entries ← read_entries table xid inside count
      return (PropertyValue.map entries)

    unfoldable pub value_unchecked : ℕ → Reader PropertyValue
    value_unchecked zero = do tag ← peek; value_of_tag table xid too_deep too_deep tag
    value_unchecked (suc levels) = do
      tag ← peek
      value_of_tag table xid (list_unchecked (value_unchecked levels))
          (map_unchecked (value_unchecked levels)) tag

    unfoldable pub properties_unchecked : Reader Entries
    properties_unchecked = do
      count ← read_u32
      read_entries table xid (value_unchecked max_nesting_depth) count

    unfoldable pub object_unchecked : Reader FieldType → Reader FieldType
    object_unchecked inside = do
      count ← read_u32
      fields ← read_fields table xid inside count
      return (FieldType.object fields)

    unfoldable pub type_unchecked : ℕ → Reader FieldType
    type_unchecked zero = do tag ← read_u8; type_of_tag table xid too_deep too_deep tag
    type_unchecked (suc levels) = do
      tag ← read_u8
      type_of_tag table xid (read_array table xid (type_unchecked levels))
          (object_unchecked (type_unchecked levels)) tag

    unfoldable pub node_unchecked : Reader Node
    node_unchecked = do
      id ← id16
      label_count ← read_u32
      labels ← repeat label_count (read_name table xid)
      properties ← properties_unchecked
      contributions ← contributions_unchecked
      return (record {
        id = id;
        labels = labels;
        properties = properties;
        contributions = contributions;
      })

    unfoldable pub edge_unchecked : Reader Edge
    edge_unchecked = do
      id ← id16
      source ← read_reference table
      target ← read_reference table
      relation ← read_name table xid
      properties ← properties_unchecked
      contributions ← contributions_unchecked
      return (record {
        id = id;
        source = source;
        target = target;
        relation = relation;
        properties = properties;
        contributions = contributions;
      })

    unfoldable pub schema_unchecked : Reader Schema
    schema_unchecked = do
      name ← read_name table xid
      endpoints ← read_endpoints table xid
      field_count ← read_u32
      fields ← read_fields table xid (type_unchecked max_nesting_depth) field_count
      return (record { name = name; endpoints = endpoints; fields = fields })

unfoldable pub table_of_unchecked : List Section → Result DecodeError Table
table_of_unchecked sections = elim (section SectionKind.string_table sections) [
  | some payload ↦ run table_unchecked payload
  | none ↦
      if is_none (section SectionKind.nodes sections)
        && is_none (section SectionKind.edges sections)
        && is_none (section SectionKind.links sections)
      then ok []
      else err (missing_section SectionKind.string_table)
]

unfoldable pub sections_unchecked : Xid → List Section → Table → Result DecodeError Graph
sections_unchecked xid sections table =
    Results.◌>>=◌
      (read_section (records_unchecked (node_unchecked table xid))
        (section SectionKind.nodes sections))
      (λ nodes.
        Results.◌>>=◌
          (read_section (records_unchecked (edge_unchecked table xid))
            (section SectionKind.edges sections))
          (λ edges.
            Results.◌>>=◌
              (read_section (records_unchecked (read_link table xid))
                (section SectionKind.links sections))
              (λ links.
                Results.◌>>=◌
                  (read_section (records_unchecked (schema_unchecked table xid))
                    (section SectionKind.schemas sections))
                  (λ schemas.
                    ok (record {
                      nodes = nodes;
                      edges = edges;
                      links = links;
                      schemas = schemas;
                    })))))

unfoldable pub graph_unchecked : Xid → Container → Result DecodeError Graph
graph_unchecked xid container =
    Results.◌>>=◌ (table_of_unchecked container.sections)
      (sections_unchecked xid container.sections)
