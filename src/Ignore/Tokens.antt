-- ===== src/Ignore/Tokens.antt =====
-- What a pattern means, with no search in it: its tokens, and the paths that a list of tokens stands
-- for.
use nostdb_core.Base.{
  ℕ, zero, suc, ◌≡◌, Bool, true, false, not, ◌&&◌, ◌||◌, List, [], ◌∷◌, ◌++◌, Option, none, some,
  ◌==◌, leb, if◌then◌else◌, length,
}
use nostdb_core.Ignore.Glob.{Chars}

-- `any_path` is `**`, `any_name` is `*`, and `any_char` is `?`. A class is negated or not, and lists
-- its ranges.
pub data Token : Type 0 where
  any_path any_name any_char : Token
  literal : ℕ → Token
  class : Bool → List (ℕ × ℕ) → Token

unfoldable pub in_ranges : List (ℕ × ℕ) → ℕ → Bool
in_ranges [] c = false
in_ranges ((low, high) ∷ rest) c = (leb low c && leb c high) || in_ranges rest c

abbrev pub push_range : ℕ → ℕ → Option (List (ℕ × ℕ) × Chars) → Option (List (ℕ × ℕ) × Chars)
push_range low high none = none
push_range low high (some (rs, after)) = some ((low, high) ∷ rs, after)

-- The ranges up to the closing bracket, a character being the range from itself to itself. A first
-- `]` closes nothing.
unfoldable pub read_ranges : Bool → Chars → Option (List (ℕ × ℕ) × Chars)
read_ranges first [] = none
read_ranges first (low ∷ []) = if low == b']' && not first then some ([], []) else none
read_ranges first (low ∷ next ∷ []) =
    let single = push_range low low (read_ranges false (next ∷ [])) in
    if low == b']' && not first then some ([], next ∷ []) else single
read_ranges first (low ∷ next ∷ high ∷ rest) =
    let range = push_range low high (read_ranges false rest) in
    let single = push_range low low (read_ranges false (next ∷ high ∷ rest)) in
    if low == b']' && not first
    then some ([], next ∷ high ∷ rest)
    else if next == b'-' && not (high == b']')
    then range
    else single

abbrev pub read_class : Chars → Option (Bool × List (ℕ × ℕ) × Chars)
read_class [] = none
read_class (c ∷ rest) =
    if c == b'!' || c == b'^'
    then (elim (read_ranges true rest) [ none ↦ none | some (rs, after) ↦ some (true, rs, after) ])
    else (elim (read_ranges true (c ∷ rest)) [
      | none ↦ none
      | some (rs, after) ↦ some (false, rs, after)
    ])

abbrev pub skip_slash : Chars → Chars
skip_slash [] = []
skip_slash (c ∷ rest) = if c == b'/' then rest else c ∷ rest

abbrev pub star_token : Chars → Token × Chars
star_token [] = (any_name, [])
star_token (q ∷ after) = if q == b'*' then (any_path, skip_slash after) else (any_name, q ∷ after)

abbrev pub class_token : Chars → Option (Bool × List (ℕ × ℕ) × Chars) → Token × Chars
class_token rest none = (literal b'[', rest)
class_token rest (some (negated, ranges, after)) = (class negated ranges, after)

abbrev pub escape_token : Chars → Token × Chars
escape_token [] = (literal b'\\', [])
escape_token (c ∷ after) = (literal c, after)

-- The first token of a pattern, and what follows it.
unfoldable pub next_token : ℕ → Chars → Token × Chars
next_token p rest =
    if p == b'*'
    then star_token rest
    else if p == b'?'
    then (any_char, rest)
    else if p == b'['
    then class_token rest (read_class rest)
    else if p == b'\\'
    then escape_token rest
    else (literal p, rest)

-- A token takes a character or more, so that the pattern's length is fuel enough.
unfoldable pub tokens_from : ℕ → Chars → List Token
tokens_from zero pattern = []
tokens_from (suc fuel) [] = []
tokens_from (suc fuel) (p ∷ rest) =
    let (token, after) = next_token p rest in token ∷ tokens_from fuel after

abbrev pub tokens : Chars → List Token
tokens pattern = tokens_from (suc (length pattern)) pattern

-- The character is one that the token stands for.
abbrev pub Takes : Token → ℕ → Type 0
Takes any_char c = (c == b'/') ≡ false
Takes (literal x) c = (c == x) ≡ true
Takes (class negated ranges) c = in_ranges ranges c ≡ not negated
Takes _ c = ⊥

unfoldable pub HasNoSlash : Chars → Type 0
HasNoSlash [] = Unit
HasNoSlash (c ∷ cs) = ((c == b'/') ≡ false) × HasNoSlash cs

-- The path is something that the token stands for, followed by something with `P`.
abbrev pub Then : Token → (Chars → Type 0) → Chars → Type 0
Then any_path P path = (u v : Chars) × (path ≡ u ++ v) × P v
Then any_name P path = (u v : Chars) × (path ≡ u ++ v) × HasNoSlash u × P v
Then token P path = (c : ℕ) × (v : Chars) × (path ≡ c ∷ v) × Takes token c × P v

unfoldable pub Denotes : List Token → Chars → Type 0
Denotes [] path = path ≡ []
Denotes (token ∷ rest) path = Then token (Denotes rest) path
