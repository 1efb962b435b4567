-- ===== src/Encoding/Strings.antt =====
-- `Strings`, the string table that is built while the records are written, and the writer. What a
-- writer appends to the section is returned with the table behind it.
use nostdb_core.Base.{
  ℕ, ◌-◌, ◌%◌, List, [], ◌∷◌, ◌++◌, Option, none, some, ltb, if◌then◌else◌, Bytes, length,
  same_bytes,
}
use nostdb_core.Base.Words.{u32_mod, le_bytes}

-- `NO_STRING`
abbrev pub no_string : ℕ
no_string = 0xFFFFFFFF

-- The index holds the entries' places; an insertion is in front of what it holds.
pub record Strings : Type 0 where
  pub entries : List Bytes
  pub index : List (Bytes × ℕ)

abbrev pub no_strings : Strings
no_strings = record { entries = []; index = [] }

-- `index.get(value)`
unfoldable pub lookup : Bytes → List (Bytes × ℕ) → Option ℕ
lookup value [] = none
lookup value ((key, place) ∷ rest) =
    let later = lookup value rest in if same_bytes key value then some place else later

-- `u32::try_from(len).unwrap_or(NO_STRING - 1)`
unfoldable pub next_place : List Bytes → ℕ
next_place entries = if ltb (length entries) u32_mod then length entries else no_string - 1

unfoldable pub intern : Strings → Bytes → ℕ × Strings
intern strings value = elim (lookup value strings.index) [
  | some found ↦ (found, strings)
  | none ↦ (
    next_place strings.entries,
    record {
      entries = strings.entries ++ value ∷ [];
      index = (value, next_place strings.entries) ∷ strings.index;
    },
  )
]

abbrev pub Put : Type 0
Put = Strings → Bytes × Strings

infixr 5 ◌>>◌
unfoldable pub ◌>>◌ : Put → Put → Put
(first >> second) strings =
    let (out, between) = first strings in let (more, after) = second between in (out ++ more, after)

-- `out.extend_from_slice(bytes)`
unfoldable pub put : Bytes → Put
put bytes strings = (bytes, strings)

-- `value as u32` keeps the low 32 bits.
unfoldable pub put_u32 : ℕ → Put
put_u32 value = put (le_bytes 4 (value % u32_mod))

unfoldable pub put_u64 : ℕ → Put
put_u64 value = put (le_bytes 8 value)

-- `put_u32(out, strings.intern(value))`
unfoldable pub put_string : Bytes → Put
put_string value strings = let (place, after) = intern strings value in put_u32 place after

-- `put_u32(out, strings.optional(value))`
unfoldable pub put_optional : Option Bytes → Put
put_optional none = put_u32 no_string
put_optional (some value) = put_string value

-- A loop that writes one record after another.
unfoldable pub put_all {ℓ} : {A : Type ℓ} → (A → Put) → List A → Put
put_all put_one [] = put []
put_all put_one (x ∷ xs) = put_one x >> put_all put_one xs

unfoldable pub encode_entries : List Bytes → Bytes
encode_entries [] = []
encode_entries (entry ∷ rest) =
    le_bytes 4 (length entry % u32_mod) ++ (entry ++ encode_entries rest)

-- `Strings::encode`
unfoldable pub encode : Strings → Bytes
encode strings = le_bytes 4 (length strings.entries % u32_mod) ++ encode_entries strings.entries
