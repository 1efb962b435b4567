-- ===== src/Tests/Encodings.antt =====
-- A graph with a node, an edge, a link and a schema, and what it is stored as.
use nostdb_core.Base.{
  ◌<◌, ℕ, length, same_bytes, ◌≡◌, refl, Bool, true, ◌&&◌, ◌||◌, [], ◌∷◌, none, some, leb, Bytes,
  arith,
}
use nostdb_core.Base.Results.{ok}
use nostdb_core.Model.Names.{Xid, name, check_characters, all_continue, among}
use nostdb_core.Model.Values.{
  depth, count_entries, count_items, nesting, PropertyValue, no_items, item, Entries, no_entries,
  entry,
}
use nostdb_core.Model.Schemas.{
  count_fields, nesting_fields, ScalarType, FieldType, no_fields, field, schema_field,
}
use nostdb_core.Model.Evidence.{
  source_range, content_digest, split_colon, all, SourcePosition, ai_inferred, inferred,
}
use nostdb_core.Model.Records.{Node, Contribution, local, external, Graph}
use nostdb_core.Encoding.Graphs.{encode_graph, decode_graph, payloads}
use nostdb_core.Encoding.Takes.{accepted}
use nostdb_core.Encoding.Unchecked.{graph_unchecked}
use nostdb_core.Encoding.Counted.{decode_graph-unchecked}
use nostdb_core.Base.{◌↔◌}
use nostdb_core.Model.Violations.{
  node_violations, no_contribution, unless_any, duplicates, duplicates_from, keys_of,
}
use nostdb_core.Model.Duplicates.{count, IsDistinct, count-duplicates, node_violations_iff}
use nostdb_core.Model.Depths.{depth-nesting}
use nostdb_core.Encoding.Valid.{
  IsValue, IsFieldType, IsGraph, IsName, IsTrimmed, IsDigest, IsScore, AreProperties,
  IsContribution,
}
use nostdb_core.Encoding.Codes.{IsText}
use nostdb_core.Base.Utf8.{is_utf8}
use nostdb_core.Model.Texts.{text, all_whitespace, last_is_whitespace, find_control}
use nostdb_core.Model.Numbers.{score}
use nostdb_core.Model.DateTime.{
  date_time, is_ascii, read_parts, four_digits, two_digits, expect_byte, contains, fraction, offset,
  check_ranges, days_in_month, is_leap_year,
}
use nostdb_core.Encoding.Strings.{
  ◌>>◌, put_all, put, put_u32, put_u64, put_string, put_optional, intern, lookup, next_place,
}
use nostdb_core.Encoding.Write.{
  put_section, put_node, put_edge, put_link, put_schema, put_fields, put_endpoints, put_properties,
  put_value, put_scalar, put_bool, put_contributions, put_contribution, put_owner, put_evidence,
  put_range, put_position, put_method, put_confidence, put_reference,
}
use nostdb_core.Encoding.RoundTrip.{decode_graph-encode_graph}

abbrev is_letter : ℕ → Bool
is_letter c = (leb 65 c && leb c 90) || (leb 97 c && leb c 122)

-- The tests of `unicode_ident` on ASCII letters.
abbrev pub letters : Xid
letters = record { is_xid_start = is_letter; is_xid_continue = is_letter }

-- `./a`
abbrev pub link_target : Bytes
link_target = 46 ∷ 47 ∷ 97 ∷ []

-- `Fn`
abbrev label : Bytes
label = 70 ∷ 110 ∷ []

-- `key`
abbrev pub key : Bytes
key = 107 ∷ 101 ∷ 121 ∷ []

-- `Call`
abbrev relation : Bytes
relation = 67 ∷ 97 ∷ 108 ∷ 108 ∷ []

-- `p`
abbrev producer : Bytes
producer = 112 ∷ []

-- `2024-02-29T23:59:60Z`
abbrev timestamp : Bytes
timestamp =
    50 ∷ 48 ∷ 50 ∷ 52 ∷ 45 ∷ 48 ∷ 50 ∷ 45 ∷ 50 ∷ 57 ∷ 84 ∷ 50 ∷ 51 ∷ 58 ∷ 53 ∷ 57 ∷ 58 ∷ 54 ∷ 48
    ∷ 90 ∷ []

-- `s:0a0a0a0a0a0a0a0a0a0a0a0a0a0a0a0a`
abbrev digest : Bytes
digest =
    115 ∷ 58 ∷ 48 ∷ 97 ∷ 48 ∷ 97 ∷ 48 ∷ 97 ∷ 48 ∷ 97 ∷ 48 ∷ 97 ∷ 48 ∷ 97 ∷ 48 ∷ 97 ∷ 48 ∷ 97 ∷ 48
    ∷ 97 ∷ 48 ∷ 97 ∷ 48 ∷ 97 ∷ 48 ∷ 97 ∷ 48 ∷ 97 ∷ 48 ∷ 97 ∷ 48 ∷ 97 ∷ 48 ∷ 97 ∷ []

abbrev node_id : Bytes
node_id = 7 ∷ 7 ∷ 7 ∷ 7 ∷ 7 ∷ 7 ∷ 7 ∷ 7 ∷ 7 ∷ 7 ∷ 7 ∷ 7 ∷ 7 ∷ 7 ∷ 7 ∷ 7 ∷ []

abbrev edge_id : Bytes
edge_id = 9 ∷ 9 ∷ 9 ∷ 9 ∷ 9 ∷ 9 ∷ 9 ∷ 9 ∷ 9 ∷ 9 ∷ 9 ∷ 9 ∷ 9 ∷ 9 ∷ 9 ∷ 9 ∷ []

abbrev position : SourcePosition
position = record { line = 1; column = 1; offset = 0 }

abbrev contribution : Contribution
contribution = record {
  owner = producer;
  source_unit = edge_id;
  evidence =
      record {
        source = link_target;
        resolved_revision = none;
        path = some producer;
        content_digest = digest;
        range = some (record { start = position; end = position });
        producer = producer;
        producer_version = producer;
        method = ai_inferred;
        confidence = inferred 0x3F000000;
      }
      ∷ [];
}

abbrev properties : Entries
properties =
    entry key
      (PropertyValue.list (
        item (PropertyValue.datetime timestamp)
          (item (PropertyValue.map (entry key (PropertyValue.boolean true) no_entries)) no_items)))
      no_entries

abbrev graph : Graph
graph = record {
  nodes =
      record {
        id = node_id;
        labels = label ∷ [];
        properties = properties;
        contributions = contribution ∷ [];
      }
      ∷ [];
  edges =
      record {
        id = edge_id;
        source = local node_id;
        target = external (record { source = link_target; local = node_id });
        relation = relation;
        properties = no_entries;
        contributions = [];
      }
      ∷ [];
  links = record { source = link_target; alias = some key } ∷ [];
  schemas =
      record {
        name = label;
        endpoints = none;
        fields =
            field (schema_field key (FieldType.array (FieldType.scalar ScalarType.datetime)) true)
              no_fields;
      }
      ∷ [];
}

label_name : IsName letters label
unfolding is_utf8 name check_characters all_continue among same_bytes
label_name = ((refl, omega arith), refl)

pub key_name : IsName letters key
unfolding is_utf8 name check_characters all_continue among same_bytes
key_name = ((refl, omega arith), refl)

relation_name : IsName letters relation
unfolding is_utf8 name check_characters all_continue among same_bytes
relation_name = ((refl, omega arith), refl)

pub target_text : IsTrimmed link_target
unfolding is_utf8 text all_whitespace last_is_whitespace find_control
target_text = ((refl, omega arith), refl)

producer_text : IsTrimmed producer
unfolding is_utf8 text all_whitespace last_is_whitespace find_control
producer_text = ((refl, omega arith), refl)

digest_text : IsDigest digest
unfolding is_utf8 content_digest split_colon all
digest_text = ((refl, omega arith), refl)

leap_second : date_time timestamp ≡ ok timestamp
unfolding date_time is_ascii read_parts four_digits two_digits expect_byte contains fraction offset
    check_ranges days_in_month is_leap_year
leap_second = refl

half : IsScore 0x3F000000
unfolding score
half = (omega arith, refl)

range_valid : source_range position position ≡ ok (record { start = position; end = position })
unfolding source_range
range_valid = refl

timestamp-IsText : IsText timestamp
unfolding is_utf8
timestamp-IsText = (refl, omega arith)

properties_valid : AreProperties letters properties
unfolding count_entries count_items IsValue nesting
properties_valid = record {
  count = omega arith;
  entries_hold = (
    key_name,
    (omega arith, ((timestamp-IsText, leap_second), ((omega arith, (key_name, tt, tt)), tt))),
    tt,
  );
  shallow = omega arith;
}

no_properties_valid : AreProperties letters no_entries
unfolding count_entries IsValue nesting
no_properties_valid = record { count = omega arith; entries_hold = tt; shallow = omega arith }

contribution_valid : IsContribution contribution
contribution_valid = record {
  owner = producer_text;
  source_unit = refl;
  evidence = (
    record {
      source = target_text;
      resolved_revision = tt;
      path = producer_text;
      content_digest = digest_text;
      range = (
        (omega arith, omega arith, omega arith),
        (omega arith, omega arith, omega arith),
        range_valid,
      );
      producer = producer_text;
      producer_version = producer_text;
      confidence = half;
    },
    tt,
  );
  count = omega arith;
}

graph-IsGraph : IsGraph letters graph
unfolding count_fields IsFieldType nesting_fields
graph-IsGraph = record {
  nodes = (
    omega arith,
    (
      record {
        id = refl;
        label_count = omega arith;
        labels = (label_name, tt);
        properties = properties_valid;
        contributions = (omega arith, (contribution_valid, tt));
      },
      tt,
    ),
  );
  edges = (
    omega arith,
    (
      record {
        id = refl;
        source = refl;
        target = (target_text, refl);
        relation = relation_name;
        properties = no_properties_valid;
        contributions = (omega arith, tt);
      },
      tt,
    ),
  );
  links = (omega arith, (record { source = target_text; alias = key_name }, tt));
  schemas = (
    omega arith,
    (
      record {
        name = label_name;
        endpoints = tt;
        count = omega arith;
        fields = ((key_name, tt), tt);
        shallow = omega arith;
      },
      tt,
    ),
  );
}

-- Its texts are seven, each stored once.
texts_count : length (payloads graph).strings.entries ≡ 7
unfolding payloads put_section ◌>>◌ put_all put put_u32 put_u64 put_string put_optional intern
    lookup same_bytes next_place put_node put_edge put_link put_schema put_fields put_endpoints
    put_properties put_value put_scalar put_bool put_contributions put_contribution put_owner
    put_evidence put_range put_position put_method put_confidence put_reference
texts_count = refl

decode_graph-encode_graph_example :
    decode_graph letters (record { generation = 1; sections = encode_graph graph }) ≡ ok graph
decode_graph-encode_graph_example =
    decode_graph-encode_graph letters graph graph-IsGraph (omega (arith, texts_count)) 1

-- A graph that is decoded with its checks of counts and without them.
decode_graph-unchecked_example :
    accepted (decode_graph letters (record { generation = 1; sections = encode_graph graph }))
    ≡ accepted (graph_unchecked letters (record { generation = 1; sections = encode_graph graph }))
decode_graph-unchecked_example =
    decode_graph-unchecked letters (record { generation = 1; sections = encode_graph graph })

abbrev object : PropertyValue
object = PropertyValue.map (entry key (PropertyValue.boolean true) no_entries)

-- A list of an object.
depth-nesting_example : depth (PropertyValue.list (item object no_items)) ≡ some 2
unfolding nesting
depth-nesting_example = depth-nesting (PropertyValue.list (item object no_items))

-- A label that stands three times is reported once.
count-duplicates_example : count key (duplicates (key ∷ label ∷ key ∷ key ∷ [])) ≡ 1
unfolding count same_bytes
count-duplicates_example = count-duplicates key (key ∷ label ∷ key ∷ key ∷ [])

abbrev unowned : Node
unowned = record { id = node_id; labels = label ∷ []; properties = properties; contributions = [] }

node_violations_iff_example : (node_violations unowned ≡ []) ↔ (
    (0 < length unowned.labels)
    × IsDistinct unowned.labels
    × IsDistinct (keys_of unowned.properties)
    × (0 < length unowned.contributions))
node_violations_iff_example = node_violations_iff unowned

reported : node_violations unowned ≡ no_contribution ∷ []
unfolding node_violations unless_any duplicates duplicates_from among keys_of same_bytes
reported = refl
