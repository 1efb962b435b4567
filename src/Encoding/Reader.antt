-- ===== src/Encoding/Reader.antt =====
-- `Reader` and `Table`. The code keeps the payload and the place in it, and reads nothing before
-- that place: a reader here takes what is left, and returns its value with what is left behind it.
-- A payload has fewer than 2 ^ 63 bytes, so that the place never overflows.
use nostdb_core.Base.{
  ℕ, zero, suc, ◌/◌, ◌==◌, List, [], ◌∷◌, Option, none, some, leb, ltb, if◌then◌else◌, Bytes,
  length, take, drop,
}
use nostdb_core.Base.Results.{Result, ok, err}
use nostdb_core.Base.Words.{from_le}
use nostdb_core.Base.Utf8.{is_utf8}
use nostdb_core.Encoding.Errors.{
  DecodeError, truncated, trailing_bytes, count_too_large, invalid_utf8, string_index_out_of_range,
}
use nostdb_core.Encoding.Strings.{no_string}

abbrev pub Reader : Type 0 → Type 0
Reader A = Bytes → Result DecodeError (A × Bytes)

infixl 5 ◌>>=◌
unfoldable pub ◌>>=◌ : {A B : Type 0} → Reader A → (A → Reader B) → Reader B
(first >>= next) bytes = elim (first bytes) [ err e ↦ err e | ok (value, rest) ↦ next value rest ]

unfoldable pub return : {A : Type 0} → A → Reader A
return value bytes = ok (value, bytes)

unfoldable pub fail : {A : Type 0} → DecodeError → Reader A
fail e bytes = err e

-- A value that a constructor may refuse.
unfoldable pub lift : {A : Type 0} → Result DecodeError A → Reader A
lift (ok value) bytes = ok (value, bytes)
lift (err e) bytes = err e

unfoldable pub take_bytes : ℕ → Reader Bytes
take_bytes n bytes = if leb n (length bytes) then ok (take n bytes, drop n bytes) else err truncated

-- `first().copied().unwrap_or_default()`
abbrev pub first_or_zero : Bytes → ℕ
first_or_zero [] = 0
first_or_zero (b ∷ _) = b

unfoldable pub read_u8 : Reader ℕ
read_u8 = do bytes ← take_bytes 1; return (first_or_zero bytes)

-- `u32`, and `f32` as its bit pattern.
unfoldable pub read_u32 : Reader ℕ
read_u32 = do array ← take_bytes 4; return (from_le array)

-- `u64`, and `i64` and `f64` as their bit patterns.
unfoldable pub read_u64 : Reader ℕ
read_u64 = do array ← take_bytes 8; return (from_le array)

unfoldable pub id16 : Reader Bytes
id16 = take_bytes 16

-- `remaining() / minimum_record_bytes.max(1)`
abbrev pub capacity : ℕ → Bytes → ℕ
capacity zero bytes = length bytes
capacity (suc least) bytes = length bytes / suc least

unfoldable pub bounded : ℕ → ℕ → Reader ℕ
bounded least count bytes =
    if ltb (capacity least bytes) count then err (count_too_large count) else ok (count, bytes)

unfoldable pub read_count : ℕ → Reader ℕ
read_count least = do count ← read_u32; bounded least count

-- The byte that is next, if there is one; it is not consumed.
unfoldable pub peek : Reader (Option ℕ)
peek [] = ok (none, [])
peek (b ∷ bytes) = ok (some b, b ∷ bytes)

unfoldable pub finish : Reader Unit
finish [] = ok (tt, [])
finish (_ ∷ _) = err trailing_bytes

-- `for _ in 0..count`, with what is read pushed to a list.
unfoldable pub repeat : {A : Type 0} → ℕ → Reader A → Reader (List A)
repeat zero read_one = return []
repeat (suc count) read_one = do x ← read_one; xs ← repeat count read_one; return (x ∷ xs)

-- The value of a reader that starts at the payload.
unfoldable pub run : {A : Type 0} → Reader A → Bytes → Result DecodeError A
run reader payload = elim (reader payload) [ err e ↦ err e | ok (value, _) ↦ ok value ]

abbrev pub Table : Type 0
Table = List Bytes

unfoldable pub checked_text : Bytes → Reader Bytes
checked_text bytes = if is_utf8 bytes then return bytes else fail invalid_utf8

unfoldable pub read_entry : Reader Bytes
read_entry = do length ← read_u32; bytes ← take_bytes length; checked_text bytes

unfoldable pub read_table : Reader Table
read_table = do count ← read_count 4; entries ← repeat count read_entry; _ ← finish; return entries

-- `entries.get(position)`
unfoldable pub get_elem? : List Bytes → ℕ → Option Bytes
get_elem? [] n = none
get_elem? (entry ∷ rest) zero = some entry
get_elem? (entry ∷ rest) (suc n) = get_elem? rest n

abbrev pub or_out_of_range : ℕ → Option Bytes → Result DecodeError Bytes
or_out_of_range index (some entry) = ok entry
or_out_of_range index none = err (string_index_out_of_range index)

module _ (table : Table) where
  unfoldable pub get : ℕ → Result DecodeError Bytes
  get index = or_out_of_range index (get_elem? table index)

  -- `table.get(reader.u32()?)?`
  unfoldable pub read_string : Reader Bytes
  read_string = do index ← read_u32; lift (get index)

  unfoldable pub optional : ℕ → Reader (Option Bytes)
  optional index =
      let present : Reader (Option Bytes) = (do entry ← lift (get index); return (some entry)) in
      if index == no_string then return none else present

  -- `table.optional(reader.u32()?)?`
  unfoldable pub read_optional : Reader (Option Bytes)
  read_optional = do index ← read_u32; optional index
