-- ===== src/Encoding/Errors.antt =====
-- `DecodeError`.
use nostdb_core.Base.{ℕ}
use nostdb_core.Container.{SectionKind}
use nostdb_core.Model.Names.{NameError}
use nostdb_core.Model.Texts.{TextError}
use nostdb_core.Model.Numbers.{NumberError, ScoreError}
use nostdb_core.Model.DateTime.{DateTimeError}
use nostdb_core.Model.Evidence.{DigestError, RangeError}

-- What an unknown tag was to be.
pub data What : Type 0 where
  property_scalar evidence_method confidence owner node_reference endpoint_constraint : What
  required_marker scalar_type field_type : What

pub data DecodeError : Type 0 where
  truncated trailing_bytes invalid_utf8 : DecodeError
  unknown_tag : What → ℕ → DecodeError
  string_index_out_of_range count_too_large nesting_too_deep : ℕ → DecodeError
  missing_section : SectionKind → DecodeError
  invalid_name : NameError → DecodeError
  invalid_locator invalid_text : TextError → DecodeError
  invalid_number : NumberError → DecodeError
  invalid_date_time : DateTimeError → DecodeError
  invalid_score : ScoreError → DecodeError
  invalid_digest : DigestError → DecodeError
  invalid_range : RangeError → DecodeError
