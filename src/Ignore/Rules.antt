-- ===== src/Ignore/Rules.antt =====
-- `Rule`: a line of an ignore file, and whether it matches a path.
use nostdb_core.Base.{
  ℕ, suc, ◌%◌, Bool, true, false, not, ◌&&◌, ◌||◌, [], ◌∷◌, Option, none, some, ◌==◌, if◌then◌else◌,
}
use nostdb_core.Ignore.Glob.{Chars, starts_with, is_nil, glob}

pub record Rule : Type 0 where
  pub pattern : Chars
  pub negated : Bool
  pub directory_only : Bool
  pub anchored : Bool

abbrev pub reversed : Chars → Chars → Chars
reversed done [] = done
reversed done (c ∷ rest) = reversed (c ∷ done) rest

-- `trim_start_matches(' ')`
unfoldable pub trim_start_spaces : Chars → Chars
trim_start_spaces [] = []
trim_start_spaces (c ∷ rest) =
    let more = trim_start_spaces rest in if c == b' ' then more else c ∷ rest

-- The number of backslashes at the front, of a line that is read from its end.
unfoldable pub backslashes : Chars → ℕ
backslashes [] = 0
backslashes (c ∷ rest) = let more = backslashes rest in if c == b'\\' then suc more else 0

-- The loop over the end of the line, which is read from its end.
unfoldable pub trim_end_from : Chars → Chars
trim_end_from [] = []
trim_end_from (c ∷ rest) =
    let shorter = trim_end_from rest in
    if c == b' ' then (if backslashes rest % 2 == 1 then c ∷ rest else shorter) else c ∷ rest

unfoldable pub trim_trailing_unescaped_spaces : Chars → Chars
trim_trailing_unescaped_spaces line = reversed [] (trim_end_from (reversed [] line))

-- `strip_prefix(c)`, with the text itself where it does not apply.
abbrev pub without_prefix : ℕ → Chars → Chars
without_prefix c [] = []
without_prefix c (x ∷ rest) = if x == c then rest else x ∷ rest

-- `strip_suffix('/')`: whether it applies, and what is left.
abbrev pub strip_end : Chars → Bool × Chars
strip_end [] = (false, [])
strip_end (c ∷ rest) =
    if c == b'/' then (true, reversed [] rest) else (false, reversed [] (c ∷ rest))

unfoldable pub strip_slash : Chars → Bool × Chars
strip_slash text = strip_end (reversed [] text)

-- An escaped leading `#` or `!`.
unfoldable pub unescape : Chars → Chars
unescape [] = []
unescape (a ∷ []) = a ∷ []
unescape (a ∷ b ∷ rest) =
    if a == b'\\' && b == b'#'
    then b ∷ rest
    else if a == b'\\' && b == b'!'
    then rest
    else a ∷ b ∷ rest

unfoldable pub has_slash : Chars → Bool
has_slash [] = false
has_slash (c ∷ rest) = c == b'/' || has_slash rest

abbrev pub trim_slashes_from : Chars → Chars
trim_slashes_from [] = []
trim_slashes_from (c ∷ rest) =
    let more = trim_slashes_from rest in if c == b'/' then more else c ∷ rest

-- `trim_end_matches('/')`
unfoldable pub trim_end_slashes : Chars → Chars
trim_end_slashes text = reversed [] (trim_slashes_from (reversed [] text))

-- From the line with its `!` removed.
unfoldable pub compile : Bool → Bool × Chars → Option Rule
compile negated (directory_only, rest) =
    if is_nil rest
    then none
    else some (record {
      pattern = without_prefix b'/' rest;
      negated = negated;
      directory_only = directory_only;
      anchored = has_slash (trim_end_slashes rest);
    })

unfoldable pub parse_trimmed : Chars → Option Rule
parse_trimmed trimmed =
    if is_nil trimmed || starts_with b'#' trimmed
    then none
    else compile (starts_with b'!' trimmed) (strip_slash (unescape (without_prefix b'!' trimmed)))

-- `Rule::parse`
unfoldable pub parse : Chars → Option Rule
parse line = parse_trimmed (trim_trailing_unescaped_spaces (trim_start_spaces line))

-- `match_indices('/').any(…)`: what follows each slash.
unfoldable pub any_tail : (Chars → Bool) → Chars → Bool
any_tail matches [] = false
any_tail matches (c ∷ rest) = (c == b'/' && matches rest) || any_tail matches rest

-- `Rule::matches`
unfoldable pub matches : Rule → Chars → Bool → Bool
matches rule relative is_dir =
    if rule.directory_only && not is_dir
    then false
    else if rule.anchored
    then glob rule.pattern relative
    else if glob rule.pattern relative
    then true
    else any_tail (glob rule.pattern) relative
