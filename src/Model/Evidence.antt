-- ===== src/Model/Evidence.antt =====
-- `Evidence` and its parts, `src/evidence.rs`; `Score` is in Numbers.
use nostdb_core.Base.{
  ℕ, ◌%◌, Bool, true, false, not, ◌&&◌, ◌||◌, [], ◌∷◌, Option, none, some, ◌==◌, ltb, leb,
  if◌then◌else◌, Bytes, length,
}
use nostdb_core.Base.Results.{Result, ok, err}

pub record SourcePosition : Type 0 where
  pub line : ℕ
  pub column : ℕ
  pub offset : ℕ

pub record SourceRange : Type 0 where
  pub start : SourcePosition
  pub end : SourcePosition

pub data RangeError : Type 0 where
  end_before_start zero_line_or_column : RangeError

abbrev pub has_zero : SourcePosition → Bool
has_zero position = position.line == 0 || position.column == 0

-- `SourceRange::new`
unfoldable pub source_range : SourcePosition → SourcePosition → Result RangeError SourceRange
source_range start end =
    if has_zero start || has_zero end
    then err zero_line_or_column
    else if ltb end.offset start.offset
    then err end_before_start
    else ok (record { start = start; end = end })

pub data EvidenceMethod : Type 0 where
  deterministic ai_inferred user_declared : EvidenceMethod

pub data Confidence : Type 0 where
  extracted : Confidence
  inferred ambiguous : ℕ → Confidence

pub data DigestError : Type 0 where
  missing_algorithm invalid_algorithm invalid_hex_digit : DigestError
  invalid_hex_length : ℕ → DigestError

abbrev pub min_hex_digits : ℕ
min_hex_digits = 32

-- `split_once(':')`
unfoldable pub split_colon : Bytes → Option (Bytes × Bytes)
split_colon [] = none
split_colon (c ∷ rest) =
    let later = split_colon rest in
    if c == b':'
    then some ([], rest)
    else elim later [ none ↦ none | some (before, after) ↦ some (c ∷ before, after) ]

-- `chars().all(…)`
unfoldable pub all : (ℕ → Bool) → Bytes → Bool
all test [] = true
all test (c ∷ rest) = test c && all test rest

abbrev pub is_digit : ℕ → Bool
is_digit c = leb b'0' c && leb c b'9'

abbrev pub is_algorithm_char : ℕ → Bool
is_algorithm_char c = (leb b'a' c && leb c b'z') || is_digit c || c == b'-'

abbrev pub is_hex_char : ℕ → Bool
is_hex_char c = is_digit c || (leb b'a' c && leb c b'f')

abbrev pub is_nothing : Bytes → Bool
is_nothing [] = true
is_nothing (_ ∷ _) = false

-- `ContentDigest::new`
unfoldable pub content_digest : Bytes → Result DigestError Bytes
content_digest value = elim (split_colon value) [
  | none ↦ err missing_algorithm
  | some (algorithm, hex) ↦
      if is_nothing algorithm || not (all is_algorithm_char algorithm)
      then err invalid_algorithm
      else if ltb (length hex) min_hex_digits || not (length hex % 2 == 0)
      then err (invalid_hex_length (length hex))
      else if not (all is_hex_char hex)
      then err invalid_hex_digit
      else ok value
]

pub record Evidence : Type 0 where
  pub source : Bytes
  pub resolved_revision : Option Bytes
  pub path : Option Bytes
  pub content_digest : Bytes
  pub range : Option SourceRange
  pub producer : Bytes
  pub producer_version : Bytes
  pub method : EvidenceMethod
  pub confidence : Confidence
