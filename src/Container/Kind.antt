-- ===== src/Container/Kind.antt =====
-- Section kinds, sections and errors.
use nostdb_core.Base.{
  ℕ, Bool, true, false, Option, none, some, ◌&&◌, ◌==◌, leb, if◌then◌else◌, Bytes,
}

pub data SectionKind : Type 0 where
  string_table nodes edges properties schemas constraints evidence : SectionKind
  contributions links link_snapshots analyzer_metadata sync_metadata : SectionKind
  indexes build_coverage : SectionKind
  reserved : ℕ → SectionKind
  experimental : ℕ → SectionKind

pub record Section : Type 0 where
  pub kind : SectionKind
  pub payload : Bytes

pub data Limit : Type 0 where
  section_count : Limit

pub data CorruptReason : Type 0 where
  too_short bad_magic wrong_header_length header_checksum : CorruptReason
  reserved_not_zero undefined_flag table_out_of_bounds : CorruptReason
  invalid_section_kind section_out_of_bounds section_overlap : CorruptReason
  duplicate_section_kind section_checksum : CorruptReason

pub data ContainerError : Type 0 where
  corrupt : CorruptReason → ContainerError
  unsupported_version : ℕ → ContainerError
  limit_exceeded : Limit → ℕ → ContainerError

pub data Result {ℓ} (A : Type ℓ) : Type ℓ where
  ok : A → Result A
  err : ContainerError → Result A

infixl 5 ◌>>=◌ ◌>>◌
abbrev pub ◌>>=◌ {ℓ κ} : {A : Type ℓ} {B : Type κ} → Result A → (A → Result B) → Result B
err refusal >>= next = err refusal
ok value >>= next = next value

abbrev pub ◌>>◌ {ℓ} : {B : Type ℓ} → Result (Unit {0}) → Result B → Result B
first >> second = first >>= λ _. second

-- `if b { return Err(e); }`
abbrev pub refuse_if : Bool → ContainerError → Result (Unit {0})
refuse_if true e = err e
refuse_if false e = ok tt

-- `o.ok_or(ContainerError::Corrupt(reason))?`
abbrev pub ok_or {ℓ} : {A : Type ℓ} → Option A → CorruptReason → Result A
ok_or none reason = err (corrupt reason)
ok_or (some a) reason = ok a

-- `raw`
unfoldable pub raw : SectionKind → ℕ
raw string_table = 1
raw nodes = 2
raw edges = 3
raw properties = 4
raw schemas = 5
raw constraints = 6
raw evidence = 7
raw contributions = 8
raw links = 9
raw link_snapshots = 10
raw analyzer_metadata = 11
raw sync_metadata = 12
raw indexes = 13
raw build_coverage = 14
raw (reserved value) = value
raw (experimental value) = value

-- The kinds 1 to 14, in the order of their stored values.
standard_kind : ℕ → SectionKind
standard_kind value =
    if value == 1
    then string_table
    else if value == 2
    then nodes
    else if value == 3
    then edges
    else if value == 4
    then properties
    else if value == 5
    then schemas
    else if value == 6
    then constraints
    else if value == 7
    then evidence
    else if value == 8
    then contributions
    else if value == 9
    then links
    else if value == 10
    then link_snapshots
    else if value == 11
    then analyzer_metadata
    else if value == 12
    then sync_metadata
    else if value == 13
    then indexes
    else build_coverage

-- `from_raw`
unfoldable pub from_raw : ℕ → Result SectionKind
unfolding standard_kind
from_raw value =
    if value == 0
    then err (corrupt invalid_section_kind)
    else if leb value 14
    then ok (standard_kind value)
    else if leb value 32767
    then ok (reserved value)
    else ok (experimental value)

-- `is_known`
unfoldable pub is_known : SectionKind → Bool
is_known (reserved _) = false
is_known (experimental _) = false
is_known _ = true

-- The derived equality: the same constructor, with the same value.
variant : SectionKind → ℕ
variant (reserved _) = 0
variant (experimental _) = 15
variant kind = raw kind

unfoldable pub same_kind : SectionKind → SectionKind → Bool
unfolding variant raw
same_kind a b = variant a == variant b && raw a == raw b
