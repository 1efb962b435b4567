-- ===== src/Ignore/Gaps.antt =====
-- Where the matcher and the reader of a line part from Git.
use nostdb_core.Base.{
  ℕ, zero, suc, ◌<◌, ◌≡◌, ◌≢◌, refl, ap, true, false, [], ◌∷◌, ◌++◌, ◌==◌, length, arith,
}
use nostdb_core.Ignore.Glob.{
  Chars, matches_from, glob, one_then, class_branch, character_class, class_loop,
}
use nostdb_core.Ignore.Tokens.{next_token, tokens_from, Denotes}
use nostdb_core.Ignore.Shorter.{length-next_token}
use nostdb_core.Ignore.Decides.{glob-Denotes}
use nostdb_core.Ignore.Rules.{
  trim_start_spaces, unescape, parse_trimmed, parse, strip_slash, compile,
}
use nostdb_core.Ignore.Trimmed.{ne_test, reversed_onto, trim_trailing-kept}

-- Fuel above the pattern's length makes no difference.
tokens_from-fuel :
    (f g : ℕ) (p : Chars) → length p < f → length p < g → tokens_from f p ≡ tokens_from g p
unfolding tokens_from
tokens_from-fuel zero g p h k = absurd (omega arith)
tokens_from-fuel (suc f) zero p h k = absurd (omega arith)
tokens_from-fuel (suc f) (suc g) [] h k = refl
tokens_from-fuel (suc f) (suc g) (p ∷ rest) h k =
    let shorter = length-next_token p rest in
    ap (◌∷◌ (next_token p rest).0)
      (tokens_from-fuel f g (next_token p rest).1 (omega arith) (omega arith))

-- If a pattern matches a path, then the pattern with `**/` before it matches every path that ends in
-- that one, also where the part before it ends inside a name.
pub glob-double_star_suffix :
    (pattern before path : Chars)
    → glob pattern path ≡ true
    → glob (b'*' ∷ b'*' ∷ b'/' ∷ pattern) (before ++ path) ≡ true
unfolding Denotes tokens_from next_token
glob-double_star_suffix pattern before path h =
    let n : ℕ = suc (suc (suc (length pattern))) in
    let meant : Denotes (tokens_from n pattern) path =
      rw (tokens_from-fuel (suc (length pattern)) n pattern (omega arith) (omega arith)) at
        ((glob-Denotes pattern path).0 h) in
    (glob-Denotes (b'*' ∷ b'*' ∷ b'/' ∷ pattern) (before ++ path)).1 (before, path, refl, meant)

-- A class that is negated and lists one character, which is no slash and no closing bracket, matches
-- the slash.
pub glob-negated_slash :
    (c : ℕ) → c ≢ b'/' → c ≢ b']' → glob (b'[' ∷ b'!' ∷ c ∷ b']' ∷ []) (b'/' ∷ []) ≡ true
unfolding glob matches_from class_branch character_class class_loop one_then
glob-negated_slash c n m = ground arith

unescape-plain : (c : ℕ) (body : Chars) → (c == b'\\') ≡ false → unescape (c ∷ body) ≡ c ∷ body
unfolding unescape
unescape-plain c [] h = refl
unescape-plain c (d ∷ body) h = rw h refl

unescape-bang : (rest : Chars) → unescape (b'\\' ∷ b'!' ∷ rest) ≡ rest
unfolding unescape
unescape-bang rest = refl

-- An escaped `!` and the line without the two characters, when both have been trimmed.
parse_trimmed-escaped_bang :
    (c : ℕ) (body : Chars)
    → c ≢ b'!'
    → c ≢ b'#'
    → c ≢ b'\\'
    → parse_trimmed (b'\\' ∷ b'!' ∷ c ∷ body) ≡ parse_trimmed (c ∷ body)
unfolding parse_trimmed
parse_trimmed-escaped_bang c body p q r =
    rw (ne_test c b'#' q, ne_test c b'!' p, unescape-plain c body (ne_test c b'\\' r))
      (ap (λ text. compile false (strip_slash text)) (unescape-bang (c ∷ body)))

trim_start_spaces-kept : (c : ℕ) (body : Chars) → c ≢ b' ' → trim_start_spaces (c ∷ body) ≡ c ∷ body
unfolding trim_start_spaces
trim_start_spaces-kept c body space = rw (ne_test c b' ' space) refl

-- A line that starts with an escaped `!` makes the same rule as the line without the two characters,
-- if what is left is not empty and does not start with a space, a `!`, a `#` or a backslash.
pub parse-escaped_bang :
    (c : ℕ) (body : Chars)
    → c ≢ b' '
    → c ≢ b'!'
    → c ≢ b'#'
    → c ≢ b'\\'
    → parse (b'\\' ∷ b'!' ∷ c ∷ body) ≡ parse (c ∷ body)
unfolding parse
parse-escaped_bang c body space bang hash escape =
    let (rest, kept) = trim_trailing-kept c space escape body in
    rw
      (
        trim_start_spaces-kept c body space,
        trim_start_spaces-kept b'\\' (b'!' ∷ c ∷ body) (omega arith),
        kept (c ∷ body) [] (reversed_onto (c ∷ []) body),
        kept (b'\\' ∷ b'!' ∷ c ∷ body) (b'!' ∷ b'\\' ∷ [])
            (reversed_onto (c ∷ b'!' ∷ b'\\' ∷ []) body),
      )
      (parse_trimmed-escaped_bang c rest bang hash escape)
