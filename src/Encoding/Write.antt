-- ===== src/Encoding/Write.antt =====
-- The writers of records.
use nostdb_core.Base.{ℕ, Bool, true, false, List, [], ◌∷◌, Option, none, some, Bytes, length}
use nostdb_core.Base.Words.{le_bytes}
use nostdb_core.Model.Values.{
  PropertyScalar, PropertyValue, Items, no_items, item, Entries, no_entries, entry, count_items,
  count_entries,
}
use nostdb_core.Model.Schemas.{
  raw, FieldType, Fields, no_fields, field, SchemaField, schema_field, count_fields, Schema,
  EndpointConstraint,
}
use nostdb_core.Model.Evidence.{
  SourcePosition, SourceRange, EvidenceMethod, deterministic, ai_inferred, user_declared,
  Confidence, extracted, inferred, ambiguous, Evidence,
}
use nostdb_core.Model.Records.{Contribution, NodeReference, local, external, Node, Edge, Link}
use nostdb_core.Encoding.Strings.{
  Put, ◌>>◌, put, put_u32, put_u64, put_string, put_optional, put_all,
}

unfoldable pub put_bool : Bool → Bytes
put_bool true = 1 ∷ []
put_bool false = 0 ∷ []

-- The tags are the source's constants: `VALUE_BOOLEAN` and so on.
unfoldable pub put_scalar : PropertyScalar → Put
put_scalar (PropertyScalar.boolean value) = do put (1 ∷ []); put (put_bool value)
put_scalar (PropertyScalar.integer value) = do put (2 ∷ []); put_u64 value
put_scalar (PropertyScalar.float value) = do put (3 ∷ []); put_u64 value
put_scalar (PropertyScalar.string value) = do put (4 ∷ []); put_string value
put_scalar (PropertyScalar.bytes value) = do put (5 ∷ []); put_u32 (length value); put value
put_scalar (PropertyScalar.datetime value) = do put (6 ∷ []); put_string value

-- `u32::from(required)`
unfoldable pub u32_of : Bool → ℕ
u32_of true = 1
u32_of false = 0

unfoldable mutual
  pub put_field : SchemaField → Put
  put_field (schema_field key declared required) = do
    put_string key
    put_field_type declared
    put_u32 (u32_of required)

  pub put_fields : Fields → Put
  put_fields no_fields = put []
  put_fields (field f rest) = do put_field f; put_fields rest

  pub put_field_type : FieldType → Put
  put_field_type (FieldType.scalar scalar) = do put (1 ∷ []); put_u32 (raw scalar)
  put_field_type (FieldType.array inner) = do put (2 ∷ []); put_field_type inner
  put_field_type (FieldType.object fields) = do
    put (3 ∷ [])
    put_u32 (count_fields fields)
    put_fields fields

unfoldable mutual
  pub put_value : PropertyValue → Put
  put_value (PropertyValue.list items) = do
    put (7 ∷ [])
    put_u32 (count_items items)
    put_items items
  put_value (PropertyValue.map entries) = do
    put (8 ∷ [])
    put_u32 (count_entries entries)
    put_entries entries
  put_value (PropertyValue.boolean value) = put_scalar (PropertyScalar.boolean value)
  put_value (PropertyValue.integer value) = put_scalar (PropertyScalar.integer value)
  put_value (PropertyValue.float value) = put_scalar (PropertyScalar.float value)
  put_value (PropertyValue.string value) = put_scalar (PropertyScalar.string value)
  put_value (PropertyValue.bytes value) = put_scalar (PropertyScalar.bytes value)
  put_value (PropertyValue.datetime value) = put_scalar (PropertyScalar.datetime value)

  pub put_items : Items → Put
  put_items no_items = put []
  put_items (item value rest) = do put_value value; put_items rest

  pub put_entries : Entries → Put
  put_entries no_entries = put []
  put_entries (entry key held rest) = do put_string key; put_value held; put_entries rest

unfoldable pub put_properties : Entries → Put
put_properties properties = do put_u32 (count_entries properties); put_entries properties

unfoldable pub put_position : SourcePosition → Put
put_position position = do put_u32 position.line; put_u32 position.column; put_u64 position.offset

unfoldable pub put_range : Option SourceRange → Put
put_range none = put (0 ∷ [])
put_range (some range) = do put (1 ∷ []); put_position range.start; put_position range.end

unfoldable pub put_method : EvidenceMethod → Put
put_method deterministic = put (1 ∷ [])
put_method ai_inferred = put (2 ∷ [])
put_method user_declared = put (3 ∷ [])

unfoldable pub put_confidence : Confidence → Put
put_confidence extracted = put (1 ∷ [])
put_confidence (inferred score) = do put (2 ∷ []); put (le_bytes 4 score)
put_confidence (ambiguous score) = do put (3 ∷ []); put (le_bytes 4 score)

unfoldable pub put_evidence : Evidence → Put
put_evidence evidence = do
  put_string evidence.source
  put_optional evidence.resolved_revision
  put_optional evidence.path
  put_string evidence.content_digest
  put_range evidence.range
  put_string evidence.producer
  put_string evidence.producer_version
  put_method evidence.method
  put_confidence evidence.confidence

unfoldable pub put_owner : Bytes → Put
put_owner owner = do put (4 ∷ []); put_string owner

unfoldable pub put_contribution : Contribution → Put
put_contribution contribution = do
  put_owner contribution.owner
  put contribution.source_unit
  put_u32 (length contribution.evidence)
  put_all put_evidence contribution.evidence

unfoldable pub put_contributions : List Contribution → Put
put_contributions contributions = do
  put_u32 (length contributions)
  put_all put_contribution contributions

unfoldable pub put_reference : NodeReference → Put
put_reference (local id) = do put (1 ∷ []); put id
put_reference (external scoped) = do put (2 ∷ []); put_string scoped.source; put scoped.local

-- The records of the four sections, `encode_graph`.
unfoldable pub put_node : Node → Put
put_node node = do
  put node.id
  put_u32 (length node.labels)
  put_all put_string node.labels
  put_properties node.properties
  put_contributions node.contributions

unfoldable pub put_edge : Edge → Put
put_edge edge = do
  put edge.id
  put_reference edge.source
  put_reference edge.target
  put_string edge.relation
  put_properties edge.properties
  put_contributions edge.contributions

unfoldable pub put_link : Link → Put
put_link link = do put_string link.source; put_optional link.alias

unfoldable pub put_endpoints : Option EndpointConstraint → Put
put_endpoints none = put_u32 0
put_endpoints (some constraint) = do
  put_u32 1
  put_string constraint.source
  put_string constraint.target

unfoldable pub put_schema : Schema → Put
put_schema schema = do
  put_string schema.name
  put_endpoints schema.endpoints
  put_u32 (count_fields schema.fields)
  put_fields schema.fields

unfoldable pub put_section {ℓ} : {A : Type ℓ} → (A → Put) → List A → Put
put_section put_one records = do put_u32 (length records); put_all put_one records
