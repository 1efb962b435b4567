-- ===== src/Model/Texts.antt =====
-- `CanonicalSourceLocator::new` (`src/locator.rs`) and `NonEmptyText::new` (`src/text.rs`), which
-- make the same checks, and the scheme of a locator.
use nostdb_core.Base.{
  ℕ, Bool, true, false, ◌&&◌, ◌||◌, List, [], ◌∷◌, Option, none, some, ◌==◌, leb, if◌then◌else◌,
  Bytes,
}
use nostdb_core.Base.Results.{Result, ok, err}
use nostdb_core.Base.Utf8.{chars}

-- `LocatorError` and `TextError`.
pub data TextError : Type 0 where
  empty untrimmed : TextError
  control_character : ℕ → TextError

-- `char::is_whitespace`: the White_Space property of Unicode.
abbrev pub is_whitespace : ℕ → Bool
is_whitespace c =
    (leb 9 c && leb c 13)
    || c == 32
    || c == 0x85
    || c == 0xA0
    || c == 0x1680
    || (leb 0x2000 c && leb c 0x200A)
    || c == 0x2028
    || c == 0x2029
    || c == 0x202F
    || c == 0x205F
    || c == 0x3000

-- `char::is_control`: the general category Cc.
abbrev pub is_control : ℕ → Bool
is_control c = leb c 0x1F || (leb 0x7F c && leb c 0x9F)

-- `value.trim().is_empty()`
unfoldable pub all_whitespace : List ℕ → Bool
all_whitespace [] = true
all_whitespace (c ∷ rest) = is_whitespace c && all_whitespace rest

unfoldable pub last_is_whitespace : List ℕ → Bool
last_is_whitespace [] = false
last_is_whitespace (c ∷ []) = is_whitespace c
last_is_whitespace (c ∷ d ∷ rest) = last_is_whitespace (d ∷ rest)

abbrev pub first_is_whitespace : List ℕ → Bool
first_is_whitespace [] = false
first_is_whitespace (c ∷ _) = is_whitespace c

-- `value.trim() != value`: there is whitespace at an end.
abbrev pub is_untrimmed : List ℕ → Bool
is_untrimmed text = first_is_whitespace text || last_is_whitespace text

-- `chars().find(is_control)`
unfoldable pub find_control : List ℕ → Option ℕ
find_control [] = none
find_control (c ∷ rest) = let later = find_control rest in if is_control c then some c else later

unfoldable pub text : Bytes → Result TextError Bytes
text value =
    if all_whitespace (chars value)
    then err empty
    else if is_untrimmed (chars value)
    then err untrimmed
    else elim (find_control (chars value)) [
      | some found ↦ err (control_character found)
      | none ↦ ok value
    ]

-- `NonEmptyText::new` and `CanonicalSourceLocator::new` are this one check.
abbrev pub locator : Bytes → Result TextError Bytes
locator = text
