-- ===== src/Encoding/Valid.antt =====
-- What a graph's types guarantee, and what the lengths of the format allow.
use nostdb_core.Base.{ℕ, ◌≤◌, ◌<◌, ◌≡◌, List, [], ◌∷◌, Option, none, some, Bytes, length}
use nostdb_core.Base.Results.{ok}
use nostdb_core.Base.Words.{u32_mod, u64_mod}
use nostdb_core.Model.Names.{Xid, name}
use nostdb_core.Model.Texts.{text}
use nostdb_core.Model.Numbers.{finite_f64, score}
use nostdb_core.Model.DateTime.{date_time}
use nostdb_core.Model.Values.{
  PropertyScalar, PropertyValue, Items, no_items, item, Entries, no_entries, entry, count_items,
  count_entries, max_nesting_depth, nesting_entries,
}
use nostdb_core.Model.Schemas.{
  FieldType, Fields, no_fields, field, SchemaField, schema_field, count_fields, nesting_fields,
  Schema, EndpointConstraint,
}
use nostdb_core.Model.Evidence.{
  SourcePosition, SourceRange, source_range, Confidence, extracted, inferred, ambiguous,
  content_digest, Evidence,
}
use nostdb_core.Model.Records.{
  Contribution, NodeReference, local, external, Node, Edge, Link, Graph,
}
use nostdb_core.Encoding.Codes.{IsText}

abbrev pub All : {A : Type 0} → (A → Type 0) → List A → Type 0
All P [] = Unit
All P (x ∷ xs) = P x × All P xs

abbrev pub IfPresent : {A : Type 0} → (A → Type 0) → Option A → Type 0
IfPresent P none = Unit
IfPresent P (some x) = P x

abbrev pub IsTrimmed : Bytes → Type 0
IsTrimmed value = IsText value × (text value ≡ ok value)

abbrev pub IsDigest : Bytes → Type 0
IsDigest value = IsText value × (content_digest value ≡ ok value)

abbrev pub IsScore : ℕ → Type 0
IsScore bits = (bits < u32_mod) × (score bits ≡ ok bits)

abbrev pub IsId : Bytes → Type 0
IsId id = length id ≡ 16

abbrev pub IsScalar : PropertyScalar → Type 0
IsScalar (PropertyScalar.boolean value) = Unit
IsScalar (PropertyScalar.integer bits) = bits < u64_mod
IsScalar (PropertyScalar.float bits) = (bits < u64_mod) × (finite_f64 bits ≡ ok bits)
IsScalar (PropertyScalar.string value) = IsText value
IsScalar (PropertyScalar.bytes value) = length value < u32_mod
IsScalar (PropertyScalar.datetime value) = IsText value × (date_time value ≡ ok value)

abbrev pub IsPosition : SourcePosition → Type 0
IsPosition position =
    (position.line < u32_mod) × (position.column < u32_mod) × (position.offset < u64_mod)

abbrev pub IsRange : SourceRange → Type 0
IsRange range =
    IsPosition range.start × IsPosition range.end × (source_range range.start range.end ≡ ok range)

abbrev pub IsConfidence : Confidence → Type 0
IsConfidence extracted = Unit
IsConfidence (inferred bits) = IsScore bits
IsConfidence (ambiguous bits) = IsScore bits

pub record IsEvidence (e : Evidence) : Type 0 where
  pub source : IsTrimmed e.source
  pub resolved_revision : IfPresent IsTrimmed e.resolved_revision
  pub path : IfPresent IsTrimmed e.path
  pub content_digest : IsDigest e.content_digest
  pub range : IfPresent IsRange e.range
  pub producer : IsTrimmed e.producer
  pub producer_version : IsTrimmed e.producer_version
  pub confidence : IsConfidence e.confidence

pub record IsContribution (c : Contribution) : Type 0 where
  pub owner : IsTrimmed c.owner
  pub source_unit : IsId c.source_unit
  pub evidence : All IsEvidence c.evidence
  pub count : length c.evidence < u32_mod

abbrev pub AreContributions : List Contribution → Type 0
AreContributions cs = (length cs < u32_mod) × All IsContribution cs

abbrev pub IsReference : NodeReference → Type 0
IsReference (local id) = IsId id
IsReference (external scoped) = IsTrimmed scoped.source × IsId scoped.local

module _ (xid : Xid) where
  abbrev pub IsName : Bytes → Type 0
  IsName value = IsText value × (name xid value ≡ ok value)

  unfoldable mutual
    pub IsValue : PropertyValue → Type 0
    IsValue (PropertyValue.boolean value) = IsScalar (PropertyScalar.boolean value)
    IsValue (PropertyValue.integer value) = IsScalar (PropertyScalar.integer value)
    IsValue (PropertyValue.float value) = IsScalar (PropertyScalar.float value)
    IsValue (PropertyValue.string value) = IsScalar (PropertyScalar.string value)
    IsValue (PropertyValue.bytes value) = IsScalar (PropertyScalar.bytes value)
    IsValue (PropertyValue.datetime value) = IsScalar (PropertyScalar.datetime value)
    IsValue (PropertyValue.list items) = (count_items items < u32_mod) × AreItems items
    IsValue (PropertyValue.map entries) = (count_entries entries < u32_mod) × AreEntries entries

    pub AreItems : Items → Type 0
    AreItems no_items = Unit
    AreItems (item value rest) = IsValue value × AreItems rest

    pub AreEntries : Entries → Type 0
    AreEntries no_entries = Unit
    AreEntries (entry key value rest) = IsName key × IsValue value × AreEntries rest

  unfoldable mutual
    pub IsFieldType : FieldType → Type 0
    IsFieldType (FieldType.scalar scalar) = Unit
    IsFieldType (FieldType.array inner) = IsFieldType inner
    IsFieldType (FieldType.object fields) = (count_fields fields < u32_mod) × AreFields fields

    pub AreFields : Fields → Type 0
    AreFields no_fields = Unit
    AreFields (field first rest) = IsField first × AreFields rest

    pub IsField : SchemaField → Type 0
    IsField (schema_field key declared required) = IsName key × IsFieldType declared

  pub record AreProperties (entries : Entries) : Type 0 where
    pub count : count_entries entries < u32_mod
    pub entries_hold : AreEntries entries
    pub shallow : nesting_entries entries ≤ max_nesting_depth

  pub record IsNode (n : Node) : Type 0 where
    pub id : IsId n.id
    pub label_count : length n.labels < u32_mod
    pub labels : All IsName n.labels
    pub properties : AreProperties n.properties
    pub contributions : AreContributions n.contributions

  pub record IsEdge (e : Edge) : Type 0 where
    pub id : IsId e.id
    pub source : IsReference e.source
    pub target : IsReference e.target
    pub relation : IsName e.relation
    pub properties : AreProperties e.properties
    pub contributions : AreContributions e.contributions

  pub record IsLink (l : Link) : Type 0 where
    pub source : IsTrimmed l.source
    pub alias : IfPresent IsName l.alias

  abbrev pub IsConstraint : EndpointConstraint → Type 0
  IsConstraint constraint = IsName constraint.source × IsName constraint.target

  pub record IsSchema (s : Schema) : Type 0 where
    pub name : IsName s.name
    pub endpoints : IfPresent IsConstraint s.endpoints
    pub count : count_fields s.fields < u32_mod
    pub fields : AreFields s.fields
    pub shallow : nesting_fields s.fields ≤ max_nesting_depth

  -- The graph meets the rules of its types, and its lists have 32-bit lengths.
  pub record IsGraph (g : Graph) : Type 0 where
    pub nodes : (length g.nodes < u32_mod) × All IsNode g.nodes
    pub edges : (length g.edges < u32_mod) × All IsEdge g.edges
    pub links : (length g.links < u32_mod) × All IsLink g.links
    pub schemas : (length g.schemas < u32_mod) × All IsSchema g.schemas
