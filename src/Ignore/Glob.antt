-- ===== src/Ignore/Glob.antt =====
-- `glob`, `matches_from` and `character_class`. The code walks the pattern and the path by indices
-- that only grow, and reads nothing before them: here each is what is left of it.
use nostdb_core.Base.{
  ℕ, zero, suc, Bool, true, false, not, ◌&&◌, ◌||◌, List, [], ◌∷◌, Option, none, some, ◌==◌, leb,
  if◌then◌else◌, length,
}

abbrev pub Chars : Type 0
Chars = List ℕ

-- `first() == Some(&c)`
abbrev pub starts_with : ℕ → Chars → Bool
starts_with c [] = false
starts_with c (x ∷ _) = x == c

abbrev pub is_nil : Chars → Bool
is_nil [] = true
is_nil (_ ∷ _) = false

abbrev pub within : Option ℕ → ℕ → ℕ → Bool
within none low high = false
within (some character) low high = leb low character && leb character high

abbrev pub is_candidate : Option ℕ → ℕ → Bool
is_candidate none low = false
is_candidate (some character) low = character == low

-- `accepts != negated`
abbrev pub differs : Bool → Bool → Bool
differs accepts negated = if negated then not accepts else accepts

-- The loop of `character_class`: whether the class accepts the candidate, and what follows it.
module _ (candidate : Option ℕ) (negated : Bool) where
  unfoldable pub class_loop : Bool → Bool → Chars → Option (Bool × Chars)
  class_loop first accepts [] = none
  class_loop first accepts (low ∷ []) =
      if low == b']' && not first then some (differs accepts negated, []) else none
  class_loop first accepts (low ∷ next ∷ []) =
      let single = class_loop false (accepts || is_candidate candidate low) (next ∷ []) in
      if low == b']' && not first then some (differs accepts negated, next ∷ []) else single
  class_loop first accepts (low ∷ next ∷ high ∷ rest) =
      let range = class_loop false (accepts || within candidate low high) rest in
      let single = class_loop false (accepts || is_candidate candidate low) (next ∷ high ∷ rest) in
      if low == b']' && not first
      then some (differs accepts negated, next ∷ high ∷ rest)
      else if next == b'-' && not (high == b']')
      then range
      else single

-- `character_class`, behind the opening bracket.
unfoldable pub character_class : Chars → Option ℕ → Option (Bool × Chars)
character_class [] candidate = none
character_class (c ∷ rest) candidate =
    if c == b'!' || c == b'^'
    then class_loop candidate true true false rest
    else class_loop candidate false true false (c ∷ rest)

abbrev pub head : Chars → Option ℕ
head [] = none
head (c ∷ _) = some c

-- `(t..=path.len()).any(…)`
unfoldable pub any_later : (Chars → Bool) → Chars → Bool
any_later matches [] = matches []
any_later matches (c ∷ path) = matches (c ∷ path) || any_later matches path

-- `(t..=limit).any(…)`, up to the next separator.
unfoldable pub any_in_name : (Chars → Bool) → Chars → Bool
any_in_name matches [] = matches []
any_in_name matches (c ∷ path) =
    let later = any_in_name matches path in
    matches (c ∷ path) || (if c == b'/' then false else later)

-- One character of the path that passes a test, and the rest.
unfoldable pub one_then : (ℕ → Bool) → (Chars → Bool) → Chars → Bool
one_then test matches [] = false
one_then test matches (c ∷ path) = test c && matches path

-- The branch of `**`: `**/` may also stand for nothing.
unfoldable pub double_star : (Chars → Chars → Bool) → Chars → Chars → Bool
double_star matches [] path = any_later (matches []) path
double_star matches (c ∷ rest) path =
    if c == b'/'
    then (if matches rest path then true else any_later (matches rest) path)
    else any_later (matches (c ∷ rest)) path

-- The branches of `**` and of a single `*`.
unfoldable pub star_branch : (Chars → Chars → Bool) → Chars → Chars → Bool
star_branch matches [] path = any_in_name (matches []) path
star_branch matches (q ∷ after) path =
    if q == b'*' then double_star matches after path else any_in_name (matches (q ∷ after)) path

-- The branch of `[`, where an open class is the character `[`.
unfoldable pub class_branch : (Chars → Chars → Bool) → Chars → Chars → Bool
class_branch matches rest path = elim (character_class rest (head path)) [
  | none ↦ one_then (λ c. c == b'[') (matches rest) path
  | some (accepts, after) ↦ one_then (λ _. accepts) (matches after) path
]

-- The branch of a backslash with a character behind it.
unfoldable pub escape_branch : (Chars → Chars → Bool) → Chars → Chars → Bool
escape_branch matches [] path = one_then (λ c. c == b'\\') (matches []) path
escape_branch matches (literal ∷ rest) path = one_then (λ c. c == literal) (matches rest) path

-- Each round takes a character or more off the pattern. `Ignore.Decides` shows that fuel above the
-- pattern's length is enough.
unfoldable pub matches_from : ℕ → Chars → Chars → Bool
matches_from zero pattern path = false
matches_from (suc fuel) [] path = is_nil path
matches_from (suc fuel) (p ∷ rest) path =
    let matches = matches_from fuel in
    if p == b'*'
    then star_branch matches rest path
    else if p == b'?'
    then one_then (λ c. not (c == b'/')) (matches rest) path
    else if p == b'['
    then class_branch matches rest path
    else if p == b'\\'
    then escape_branch matches rest path
    else one_then (λ c. c == p) (matches rest) path

unfoldable pub glob : Chars → Chars → Bool
glob pattern path = matches_from (suc (length pattern)) pattern path
