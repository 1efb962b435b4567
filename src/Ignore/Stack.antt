-- ===== src/Ignore/Stack.antt =====
-- `IgnoreFile` and `IgnoreStack`.
use nostdb_core.Base.{
  ℕ, Bool, true, false, not, ◌&&◌, List, [], ◌∷◌, ◌++◌, Option, none, some, ◌==◌, if◌then◌else◌,
  length, take, strip_prefix,
}
use nostdb_core.Ignore.Glob.{Chars, starts_with, is_nil}
use nostdb_core.Ignore.Rules.{Rule, parse, matches, trim_end_slashes}

pub record IgnoreFile : Type 0 where
  pub base : Chars
  pub rules : List Rule

abbrev pub push_char : ℕ → List Chars → List Chars
push_char c [] = (c ∷ []) ∷ []
push_char c (line ∷ lines) = (c ∷ line) ∷ lines

-- `str::lines`: a line ends at `\n` or `\r\n`.
unfoldable pub lines : Chars → List Chars
lines [] = []
lines (c ∷ rest) =
    let more = lines rest in
    if c == 10 then [] ∷ more else if c == 13 && starts_with 10 rest then more else push_char c more

-- `filter_map(Rule::parse)`
unfoldable pub rules_of : List Chars → List Rule
rules_of [] = []
rules_of (line ∷ lines) = elim (parse line) [
  | none ↦ rules_of lines
  | some rule ↦ rule ∷ rules_of lines
]

-- `IgnoreFile::parse`
unfoldable pub parse_file : Chars → Chars → IgnoreFile
parse_file text base = record { base = trim_end_slashes base; rules = rules_of (lines text) }

-- The path below the file's directory.
unfoldable pub below : Chars → Chars → Option Chars
below base relative = if is_nil base then some relative else elim (strip_prefix base relative) [
  | none ↦ none
  | some rest ↦ strip_prefix (b'/' ∷ []) rest
]

-- `rules.iter().rev().find(…)`
unfoldable pub find_last : (Rule → Bool) → List Rule → Option Rule
find_last test [] = none
find_last test (rule ∷ rules) = elim (find_last test rules) [
  | some later ↦ some later
  | none ↦ if test rule then some rule else none
]

-- `decide`
unfoldable pub decide : IgnoreFile → Chars → Bool → Option Rule
decide file relative is_dir = elim (below file.base relative) [
  | none ↦ none
  | some path ↦ find_last (λ rule. matches rule path is_dir) file.rules
]

pub record IgnoreStack : Type 0 where
  pub files : List IgnoreFile

abbrev pub no_rules : List Rule → Bool
no_rules [] = true
no_rules (_ ∷ _) = false

unfoldable pub push : IgnoreStack → IgnoreFile → IgnoreStack
push stack file = if no_rules file.rules then stack else record { files = stack.files ++ file ∷ [] }

unfoldable pub depth : IgnoreStack → ℕ
depth stack = length stack.files

unfoldable pub truncate : IgnoreStack → ℕ → IgnoreStack
truncate stack depth = record { files = take depth stack.files }

-- `files.iter().rev().find_map(…)`
unfoldable pub deciding : List IgnoreFile → Chars → Bool → Option Rule
deciding [] relative is_dir = none
deciding (file ∷ files) relative is_dir = elim (deciding files relative is_dir) [
  | some rule ↦ some rule
  | none ↦ decide file relative is_dir
]

unfoldable pub excludes : IgnoreStack → Chars → Bool → Bool
excludes stack relative is_dir = elim (deciding stack.files relative is_dir) [
  | none ↦ false
  | some rule ↦ not rule.negated
]
