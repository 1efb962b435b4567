-- ===== src/Encoding/ReadNamed.antt =====
-- The readers of what holds names: values, types and the records of the four sections.
use nostdb_core.Base.{ℕ, zero, suc, Option, none, some, ◌==◌, if◌then◌else◌, Bytes}
use nostdb_core.Base.Results.{map_err}
use nostdb_core.Model.Names.{Xid, name}
use nostdb_core.Model.Values.{
  PropertyValue, of_scalar, Items, no_items, item, Entries, no_entries, entry, max_nesting_depth,
}
use nostdb_core.Model.Schemas.{
  FieldType, Fields, no_fields, field, SchemaField, schema_field, Schema, EndpointConstraint,
}
use nostdb_core.Model.Records.{Node, Edge, Link}
use nostdb_core.Encoding.Errors.{What, unknown_tag, invalid_name}
use nostdb_core.Encoding.Reader.{
  Reader, Table, ◌>>=◌, return, fail, lift, take_bytes, read_u8, read_u32, id16, read_count, peek,
  repeat, read_string, read_optional,
}
use nostdb_core.Encoding.Read.{
  read_contributions, read_flag, read_locator, read_reference, read_scalar, read_scalar_type,
  tag_is, too_deep,
}

module _ (table : Table) where
  module _ (xid : Xid) where
    -- A label, a relation, a key or an alias.
    unfoldable pub as_name : Bytes → Reader Bytes
    as_name value = lift (map_err invalid_name (name xid value))

    unfoldable pub read_name : Reader Bytes
    read_name = do value ← read_string table; as_name value

    unfoldable pub optional_name : Option Bytes → Reader (Option Bytes)
    optional_name none = return none
    optional_name (some value) = do checked ← as_name value; return (some checked)

    unfoldable pub read_optional_name : Reader (Option Bytes)
    read_optional_name = do value ← read_optional table; optional_name value

    -- The loops of a list and of an object, with the reader of what is inside.
    unfoldable pub read_items : Reader PropertyValue → ℕ → Reader Items
    read_items inside zero = return no_items
    read_items inside (suc count) = do
      value ← inside
      rest ← read_items inside count
      return (item value rest)

    unfoldable pub read_entries : Reader PropertyValue → ℕ → Reader Entries
    read_entries inside zero = return no_entries
    read_entries inside (suc count) = do
      key ← read_name
      value ← inside
      rest ← read_entries inside count
      return (entry key value rest)

    unfoldable pub read_list : Reader PropertyValue → Reader PropertyValue
    read_list inside = do
      _ ← take_bytes 1
      count ← read_count 2
      items ← read_items inside count
      return (PropertyValue.list items)

    unfoldable pub read_map : Reader PropertyValue → Reader PropertyValue
    read_map inside = do
      _ ← take_bytes 1
      count ← read_count 6
      entries ← read_entries inside count
      return (PropertyValue.map entries)

    unfoldable pub read_scalar_value : Reader PropertyValue
    read_scalar_value = do scalar ← read_scalar table; return (of_scalar scalar)

    unfoldable pub value_of_tag :
        Reader PropertyValue → Reader PropertyValue → Option ℕ → Reader PropertyValue
    value_of_tag of_list of_map tag =
        if tag_is 7 tag then of_list else if tag_is 8 tag then of_map else read_scalar_value

    -- Over the levels that are left below this one: `MAX_NESTING_DEPTH` less the depth.
    unfoldable pub read_value : ℕ → Reader PropertyValue
    read_value zero = do tag ← peek; value_of_tag too_deep too_deep tag
    read_value (suc levels) = do
      tag ← peek
      value_of_tag (read_list (read_value levels)) (read_map (read_value levels)) tag

    unfoldable pub read_properties : Reader Entries
    read_properties = do count ← read_count 6; read_entries (read_value max_nesting_depth) count

    -- `read_field`, with the reader of its type.
    unfoldable pub read_field : Reader FieldType → Reader SchemaField
    read_field of_type = do
      key ← read_name
      declared ← of_type
      required ← read_flag What.required_marker
      return (schema_field key declared required)

    unfoldable pub read_fields : Reader FieldType → ℕ → Reader Fields
    read_fields of_type zero = return no_fields
    read_fields of_type (suc count) = do
      first ← read_field of_type
      rest ← read_fields of_type count
      return (field first rest)

    unfoldable pub read_array : Reader FieldType → Reader FieldType
    read_array inside = do inner ← inside; return (FieldType.array inner)

    unfoldable pub read_object : Reader FieldType → Reader FieldType
    read_object inside = do
      count ← read_count 13
      fields ← read_fields inside count
      return (FieldType.object fields)

    unfoldable pub type_of_tag : Reader FieldType → Reader FieldType → ℕ → Reader FieldType
    type_of_tag of_array of_object tag =
        if tag == 1
        then read_scalar_type
        else if tag == 2
        then of_array
        else if tag == 3
        then of_object
        else fail (unknown_tag What.field_type tag)

    -- Over the levels that are left, as `read_value`.
    unfoldable pub read_field_type : ℕ → Reader FieldType
    read_field_type zero = do tag ← read_u8; type_of_tag too_deep too_deep tag
    read_field_type (suc levels) = do
      tag ← read_u8
      type_of_tag (read_array (read_field_type levels)) (read_object (read_field_type levels)) tag

    -- The records of the four sections, `decode_graph`.
    unfoldable pub read_node : Reader Node
    read_node = do
      id ← id16
      label_count ← read_count 4
      labels ← repeat label_count read_name
      properties ← read_properties
      contributions ← read_contributions table
      return (record {
        id = id;
        labels = labels;
        properties = properties;
        contributions = contributions;
      })

    unfoldable pub read_edge : Reader Edge
    read_edge = do
      id ← id16
      source ← read_reference table
      target ← read_reference table
      relation ← read_name
      properties ← read_properties
      contributions ← read_contributions table
      return (record {
        id = id;
        source = source;
        target = target;
        relation = relation;
        properties = properties;
        contributions = contributions;
      })

    unfoldable pub read_link : Reader Link
    read_link = do
      source ← read_locator table
      alias ← read_optional_name
      return (record { source = source; alias = alias })

    unfoldable pub read_constraint : Reader (Option EndpointConstraint)
    read_constraint = do
      source ← read_name
      target ← read_name
      return (some (record { source = source; target = target }))

    unfoldable pub endpoints_of : ℕ → Reader (Option EndpointConstraint)
    endpoints_of tag =
        if tag == 0
        then return none
        else if tag == 1
        then read_constraint
        else fail (unknown_tag What.endpoint_constraint tag)

    unfoldable pub read_endpoints : Reader (Option EndpointConstraint)
    read_endpoints = do tag ← read_u32; endpoints_of tag

    unfoldable pub read_schema : Reader Schema
    read_schema = do
      name ← read_name
      endpoints ← read_endpoints
      field_count ← read_count 13
      fields ← read_fields (read_field_type max_nesting_depth) field_count
      return (record { name = name; endpoints = endpoints; fields = fields })
