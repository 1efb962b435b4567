-- ===== src/Encoding/Read.antt =====
-- The readers of records, over the string table.
use nostdb_core.Base.{
  ℕ, suc, Bool, true, false, not, List, Option, none, some, ◌==◌, if◌then◌else◌, Bytes,
}
use nostdb_core.Base.Results.{map_err}
use nostdb_core.Model.Texts.{text, locator}
use nostdb_core.Model.Numbers.{finite_f64, score}
use nostdb_core.Model.DateTime.{date_time}
use nostdb_core.Model.Values.{PropertyScalar, max_nesting_depth}
use nostdb_core.Model.Schemas.{from_raw, FieldType}
use nostdb_core.Model.Evidence.{
  SourcePosition, SourceRange, source_range, EvidenceMethod, deterministic, ai_inferred,
  user_declared, Confidence, extracted, inferred, ambiguous, content_digest, Evidence,
}
use nostdb_core.Model.Records.{Contribution, NodeReference, local, external}
use nostdb_core.Encoding.Errors.{
  What, unknown_tag, nesting_too_deep, invalid_locator, invalid_text, invalid_number,
  invalid_date_time, invalid_score, invalid_digest, invalid_range,
}
use nostdb_core.Encoding.Reader.{
  Reader, Table, ◌>>=◌, return, fail, lift, take_bytes, read_u8, read_u32, read_u64, id16,
  read_count, repeat, read_string, read_optional,
}

unfoldable pub tag_is : ℕ → Option ℕ → Bool
tag_is tag none = false
tag_is tag (some found) = found == tag

-- Through the constructors of the model.
abbrev pub as_text : Bytes → Reader Bytes
as_text value = lift (map_err invalid_text (text value))

abbrev pub as_locator : Bytes → Reader Bytes
as_locator value = lift (map_err invalid_locator (locator value))

unfoldable pub read_range_between : SourcePosition → SourcePosition → Reader SourceRange
read_range_between start end = lift (map_err invalid_range (source_range start end))

unfoldable pub read_position : Reader SourcePosition
read_position = do
  line ← read_u32
  column ← read_u32
  offset ← read_u64
  return (record { line = line; column = column; offset = offset })

unfoldable pub read_some_range : Reader (Option SourceRange)
read_some_range = do
  start ← read_position
  end ← read_position
  range ← read_range_between start end
  return (some range)

unfoldable pub range_of : ℕ → Reader (Option SourceRange)
range_of flag = if flag == 0 then return none else read_some_range

unfoldable pub read_range : Reader (Option SourceRange)
read_range = do flag ← read_u8; range_of flag

unfoldable pub method_of : ℕ → Reader EvidenceMethod
method_of tag =
    if tag == 1
    then return deterministic
    else if tag == 2
    then return ai_inferred
    else if tag == 3
    then return user_declared
    else fail (unknown_tag What.evidence_method tag)

unfoldable pub read_method : Reader EvidenceMethod
read_method = do tag ← read_u8; method_of tag

unfoldable pub read_score : Reader ℕ
read_score = do bits ← read_u32; lift (map_err invalid_score (score bits))

unfoldable pub confidence_of : ℕ → Reader Confidence
confidence_of tag =
    let scored_inference : Reader Confidence = (do score ← read_score; return (inferred score)) in
    let scored_choice : Reader Confidence = (do score ← read_score; return (ambiguous score)) in
    if tag == 1
    then return extracted
    else if tag == 2
    then scored_inference
    else if tag == 3
    then scored_choice
    else fail (unknown_tag What.confidence tag)

unfoldable pub read_confidence : Reader Confidence
read_confidence = do tag ← read_u8; confidence_of tag

-- `read_flag`
unfoldable pub flag_of : What → ℕ → Reader Bool
flag_of what tag =
    if tag == 0 then return false else if tag == 1 then return true else fail (unknown_tag what tag)

unfoldable pub read_flag : What → Reader Bool
read_flag what = do tag ← read_u32; flag_of what tag

unfoldable pub scalar_type_of : ℕ → Reader FieldType
scalar_type_of raw = elim (from_raw raw) [
  | none ↦ fail (unknown_tag What.scalar_type raw)
  | some scalar ↦ return (FieldType.scalar scalar)
]

unfoldable pub read_scalar_type : Reader FieldType
read_scalar_type = do raw ← read_u32; scalar_type_of raw

-- The depth that is refused: one more than the deepest level.
abbrev pub too_deep : {A : Type 0} → Reader A
too_deep = fail (nesting_too_deep (suc max_nesting_depth))

unfoldable pub optional_text : Option Bytes → Reader (Option Bytes)
optional_text none = return none
optional_text (some value) = do checked ← as_text value; return (some checked)

module _ (table : Table) where
  unfoldable pub read_text : Reader Bytes
  read_text = do value ← read_string table; as_text value

  unfoldable pub read_locator : Reader Bytes
  read_locator = do value ← read_string table; as_locator value

  unfoldable pub read_optional_text : Reader (Option Bytes)
  read_optional_text = do value ← read_optional table; optional_text value

  unfoldable pub read_digest : Reader Bytes
  read_digest = do value ← read_string table; lift (map_err invalid_digest (content_digest value))

  unfoldable pub read_date_time : Reader Bytes
  read_date_time = do value ← read_string table; lift (map_err invalid_date_time (date_time value))

  unfoldable pub read_finite : Reader ℕ
  read_finite = do bits ← read_u64; lift (map_err invalid_number (finite_f64 bits))

  unfoldable pub read_bytes : Reader Bytes
  read_bytes = do length ← read_u32; take_bytes length

  unfoldable pub scalar_of_tag : ℕ → Reader PropertyScalar
  scalar_of_tag tag =
      let boolean : Reader PropertyScalar = (do
        byte ← read_u8
        return (PropertyScalar.boolean (not (byte == 0)))) in
      let integer : Reader PropertyScalar = (do
        bits ← read_u64
        return (PropertyScalar.integer bits)) in
      let float : Reader PropertyScalar = (do
        bits ← read_finite
        return (PropertyScalar.float bits)) in
      let string : Reader PropertyScalar = (do
        value ← read_string table
        return (PropertyScalar.string value)) in
      let bytes : Reader PropertyScalar = (do
        value ← read_bytes
        return (PropertyScalar.bytes value)) in
      let datetime : Reader PropertyScalar = (do
        value ← read_date_time
        return (PropertyScalar.datetime value)) in
      if tag == 1
      then boolean
      else if tag == 2
      then integer
      else if tag == 3
      then float
      else if tag == 4
      then string
      else if tag == 5
      then bytes
      else if tag == 6
      then datetime
      else fail (unknown_tag What.property_scalar tag)

  unfoldable pub read_scalar : Reader PropertyScalar
  read_scalar = do tag ← read_u8; scalar_of_tag tag

  unfoldable pub read_evidence : Reader Evidence
  read_evidence = do
    source ← read_locator
    resolved_revision ← read_optional_text
    path ← read_optional_text
    content_digest ← read_digest
    range ← read_range
    producer ← read_text
    producer_version ← read_text
    method ← read_method
    confidence ← read_confidence
    return (record {
      source = source;
      resolved_revision = resolved_revision;
      path = path;
      content_digest = content_digest;
      range = range;
      producer = producer;
      producer_version = producer_version;
      method = method;
      confidence = confidence;
    })

  unfoldable pub owner_of_tag : ℕ → Reader Bytes
  owner_of_tag tag = if tag == 4 then read_text else fail (unknown_tag What.owner tag)

  unfoldable pub decode_owner : Reader Bytes
  decode_owner = do tag ← read_u8; owner_of_tag tag

  unfoldable pub read_contribution : Reader Contribution
  read_contribution = do
    owner ← decode_owner
    source_unit ← id16
    count ← read_count 24
    evidence ← repeat count read_evidence
    return (record { owner = owner; source_unit = source_unit; evidence = evidence })

  unfoldable pub read_contributions : Reader (List Contribution)
  read_contributions = do count ← read_count 21; repeat count read_contribution

  unfoldable pub reference_of_tag : ℕ → Reader NodeReference
  reference_of_tag tag =
      let here : Reader NodeReference = (do id ← id16; return (local id)) in
      let elsewhere : Reader NodeReference = (do
        source ← read_locator
        id ← id16
        return (external (record { source = source; local = id }))) in
      if tag == 1
      then here
      else if tag == 2
      then elsewhere
      else fail (unknown_tag What.node_reference tag)

  unfoldable pub read_reference : Reader NodeReference
  read_reference = do tag ← read_u8; reference_of_tag tag
