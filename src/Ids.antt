-- ===== src/Ids.antt =====
-- The text form of identifiers, `src/id.rs`. A text is the bytes of a Rust `String`, and a `char` is
-- its UTF-8 bytes.
pub mod RoundTrip
use nostdb_core.Base.{
  strip_prefix, ℕ, suc, ◌+◌, ◌-◌, ◌*◌, ◌/◌, ◌%◌, Bool, not, ◌&&◌, ◌||◌, [], ◌∷◌, ◌++◌, Option, none,
  some, ◌==◌, ltb, leb, if◌then◌else◌, Bytes, length,
}

abbrev pub encoded_length : ℕ
encoded_length = 36

-- `HYPHENS.contains`
unfoldable pub is_hyphen : ℕ → Bool
is_hyphen position = position == 8 || (position == 13 || (position == 18 || position == 23))

unfoldable pub nibble : ℕ → ℕ
nibble value = if leb value 9 then b'0' + value else b'a' + (value - 10)

unfoldable pub hex_value : ℕ → Option ℕ
hex_value character =
    if leb b'0' character && leb character b'9'
    then some (character - b'0')
    else if leb b'a' character && leb character b'f'
    then some (character - b'a' + 10)
    else none

-- The loop of `encode`, from a byte's index on.
unfoldable pub encode_from : ℕ → Bytes → Bytes
encode_from index [] = []
encode_from index (byte ∷ rest) =
    let digits = nibble (byte / 16) ∷ nibble (byte % 16) ∷ encode_from (index + 1) rest in
    if index == 4 || (index == 6 || (index == 8 || index == 10)) then b'-' ∷ digits else digits

unfoldable pub encode : Bytes → Bytes
encode bytes = encode_from 0 bytes

pub data IdError : Type 0 where
  missing_prefix : Bytes → IdError
  wrong_length : ℕ → ℕ → IdError
  misplaced_hyphen : ℕ → IdError
  invalid_character : Bytes → IdError

pub data Result (A : Type 0) : Type 0 where
  ok : A → Result A
  err : IdError → Result A

unfoldable pub is_continuation : ℕ → Bool
is_continuation byte = leb 128 byte && ltb byte 192

-- `chars().count()`: the bytes that begin a character.
unfoldable pub char_count : Bytes → ℕ
unfolding is_continuation
char_count [] = 0
char_count (byte ∷ rest) = if is_continuation byte then char_count rest else suc (char_count rest)

continuations : Bytes → Bytes
unfolding is_continuation
continuations [] = []
continuations (byte ∷ rest) =
    let more = continuations rest in if is_continuation byte then byte ∷ more else []

-- `chars().find(|c| !c.is_ascii()).unwrap_or('?')`
unfoldable pub first_non_ascii : Bytes → Bytes
unfolding continuations
first_non_ascii [] = b'?' ∷ []
first_non_ascii (byte ∷ rest) =
    if ltb byte 128 then first_non_ascii rest else byte ∷ continuations rest

-- The loop of `decode` at `position`: `high` is the first digit of a pair, and `bytes` those written.
unfoldable pub decode_from : Bytes → ℕ → Option ℕ → Bytes → Result Bytes
decode_from [] position high bytes = ok bytes
decode_from (character ∷ rest) position high bytes =
    let skipped = decode_from rest (position + 1) high bytes in
    if is_hyphen position
    then (if character == b'-' then skipped else err (misplaced_hyphen position))
    else if character == b'-'
    then err (misplaced_hyphen position)
    else elim (hex_value character) [
      | none ↦ err (invalid_character (character ∷ []))
      | some value ↦ elim high [
        | none ↦ decode_from rest (position + 1) (some value) bytes
        | some first ↦ decode_from rest (position + 1) none (bytes ++ (first * 16 + value) ∷ [])
      ]
    ]

unfoldable pub decode : Bytes → Result Bytes
decode text =
    if not (char_count text == encoded_length)
    then err (wrong_length encoded_length (char_count text))
    else if not (length text == encoded_length)
    then err (invalid_character (first_non_ascii text))
    else decode_from text 0 none []

-- `Display` and `FromStr` of an identifier type with a prefix.
unfoldable pub to_string : Bytes → Bytes → Bytes
to_string prefix bytes = prefix ++ encode bytes

unfoldable pub from_str : Bytes → Bytes → Result Bytes
from_str prefix text = elim (strip_prefix prefix text) [
  | none ↦ err (missing_prefix prefix)
  | some body ↦ decode body
]

-- `n_`, `e_` and `u_`
abbrev pub node_prefix : Bytes
node_prefix = b'n' ∷ b'_' ∷ []

abbrev pub edge_prefix : Bytes
edge_prefix = b'e' ∷ b'_' ∷ []

abbrev pub source_unit_prefix : Bytes
source_unit_prefix = b'u' ∷ b'_' ∷ []
