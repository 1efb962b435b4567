-- ===== src/Model/Names.antt =====
-- The identifier rule of `src/name.rs`, over the two character tests of the `unicode_ident` crate.
use nostdb_core.Base.{ℕ, Bool, false, ◌||◌, List, [], ◌∷◌, ◌==◌, if◌then◌else◌, Bytes, same_bytes}
use nostdb_core.Base.Results.{Result, ok, err}
use nostdb_core.Base.Utf8.{chars}

-- `is_xid_start` and `is_xid_continue` of `unicode_ident`.
pub record Xid : Type 0 where
  pub is_xid_start : ℕ → Bool
  pub is_xid_continue : ℕ → Bool

pub data NameError : Type 0 where
  empty reserved : NameError
  invalid_start invalid_continue : ℕ → NameError

-- as, bytes, datetime, edge, false, node, schema, true
abbrev pub reserved_words : List Bytes
reserved_words =
    (97 ∷ 115 ∷ [])
    ∷ (98 ∷ 121 ∷ 116 ∷ 101 ∷ 115 ∷ [])
    ∷ (100 ∷ 97 ∷ 116 ∷ 101 ∷ 116 ∷ 105 ∷ 109 ∷ 101 ∷ [])
    ∷ (101 ∷ 100 ∷ 103 ∷ 101 ∷ [])
    ∷ (102 ∷ 97 ∷ 108 ∷ 115 ∷ 101 ∷ [])
    ∷ (110 ∷ 111 ∷ 100 ∷ 101 ∷ [])
    ∷ (115 ∷ 99 ∷ 104 ∷ 101 ∷ 109 ∷ 97 ∷ [])
    ∷ (116 ∷ 114 ∷ 117 ∷ 101 ∷ [])
    ∷ []

-- `RESERVED_WORDS.contains(value)`
unfoldable pub among : List Bytes → Bytes → Bool
among [] value = false
among (word ∷ words) value = same_bytes word value || among words value

module _ (xid : Xid) where
  -- The loop over the characters behind the first.
  unfoldable pub all_continue : List ℕ → Result NameError Unit
  all_continue [] = ok tt
  all_continue (character ∷ rest) =
      let later = all_continue rest in
      if xid.is_xid_continue character then later else err (invalid_continue character)

  unfoldable pub check_characters : List ℕ → Result NameError Unit
  check_characters [] = err empty
  check_characters (first ∷ rest) =
      if xid.is_xid_start first || first == b'_'
      then all_continue rest
      else err (invalid_start first)

  -- `validate`, and the name that the constructors wrap.
  unfoldable pub name : Bytes → Result NameError Bytes
  name value = elim (check_characters (chars value)) [
    | err e ↦ err e
    | ok _ ↦ if among reserved_words value then err reserved else ok value
  ]
