-- ===== src/Tests/Ignores.antt =====
-- The pattern "a/**/*.c" and some paths, a line with an escaped `!`, and a stack of two files.
use nostdb_core.Base.{
  strip_prefix, ◌≡◌, ◌↔◌, ◌++◌, refl, true, false, not, ◌&&◌, [], ◌∷◌, none, some, arith,
}
use nostdb_core.Ignore.{
  Chars, glob, matches_from, star_branch, double_star, any_later, any_in_name, one_then, Rule,
  IgnoreFile, IgnoreStack, parse, matches, excludes, push, deciding, decide, below, find_last,
  any_tail,
}
use nostdb_core.Ignore.Tokens.{tokens, Denotes}
use nostdb_core.Ignore.Decides.{glob-Denotes}
use nostdb_core.Ignore.AnyDepth.{MatchesBelow, matches-MatchesBelow}
use nostdb_core.Ignore.Verdicts.{after_files, after_rules, excludes-after_files, excludes-push}
use nostdb_core.Ignore.Gaps.{glob-double_star_suffix, glob-negated_slash, parse-escaped_bang}

abbrev pattern : Chars
pattern = b'a' ∷ b'/' ∷ b'*' ∷ b'*' ∷ b'/' ∷ b'*' ∷ b'.' ∷ b'c' ∷ []

abbrev path : Chars
path = b'a' ∷ b'/' ∷ b'd' ∷ b'/' ∷ b'x' ∷ b'.' ∷ b'c' ∷ []

deep : glob pattern path ≡ true
unfolding glob matches_from star_branch double_star any_later any_in_name one_then
deep = refl

-- `*` does not cross a slash.
shallow : glob (b'a' ∷ b'*' ∷ b'c' ∷ []) (b'a' ∷ b'/' ∷ b'c' ∷ []) ≡ false
unfolding glob matches_from star_branch double_star any_later any_in_name one_then
shallow = refl

glob-Denotes_example : (glob pattern path ≡ true) ↔ Denotes (tokens pattern) path
glob-Denotes_example = glob-Denotes pattern path

abbrev name : Chars
name = b'f' ∷ b'o' ∷ b'o' ∷ []

foo : glob name name ≡ true
unfolding glob matches_from one_then
foo = refl

-- `**/foo` matches `xfoo`.
glob-double_star_suffix_example : glob (b'*' ∷ b'*' ∷ b'/' ∷ name) ((b'x' ∷ []) ++ name) ≡ true
glob-double_star_suffix_example = glob-double_star_suffix name (b'x' ∷ []) name foo

glob-negated_slash_example : glob (b'[' ∷ b'!' ∷ b'a' ∷ b']' ∷ []) (b'/' ∷ []) ≡ true
glob-negated_slash_example = glob-negated_slash b'a' (omega arith) (omega arith)

parse-escaped_bang_example :
    parse (b'\\' ∷ b'!' ∷ b'f' ∷ b'o' ∷ b' ' ∷ []) ≡ parse (b'f' ∷ b'o' ∷ b' ' ∷ [])
parse-escaped_bang_example =
    parse-escaped_bang b'f' (b'o' ∷ b' ' ∷ []) (omega arith) (omega arith) (omega arith)
      (omega arith)

abbrev rule : Rule
rule = record { pattern = name; negated = false; directory_only = true; anchored = false }

abbrev keep : Rule
keep = record { pattern = name; negated = true; directory_only = false; anchored = true }

matches-MatchesBelow_example :
    (matches rule (b'a' ∷ b'/' ∷ name) true ≡ true)
    ↔ (((rule.directory_only && not true) ≡ false) × MatchesBelow rule (b'a' ∷ b'/' ∷ name))
matches-MatchesBelow_example = matches-MatchesBelow rule (b'a' ∷ b'/' ∷ name) true

abbrev file : IgnoreFile
file = record { base = []; rules = rule ∷ [] }

abbrev deeper : IgnoreFile
deeper = record { base = b'a' ∷ []; rules = keep ∷ [] }

abbrev stack : IgnoreStack
stack = record { files = file ∷ deeper ∷ [] }

excludes-after_files_example :
    excludes stack (b'a' ∷ b'/' ∷ name) true
    ≡ after_files stack.files (b'a' ∷ b'/' ∷ name) true false
excludes-after_files_example = excludes-after_files stack (b'a' ∷ b'/' ∷ name) true

abbrev shallow_stack : IgnoreStack
shallow_stack = record { files = file ∷ [] }

excluded_before : excludes shallow_stack (b'a' ∷ b'/' ∷ name) true ≡ true
unfolding excludes deciding decide below find_last matches glob matches_from one_then any_tail
excluded_before = refl

-- The rule of the deeper file takes the name back in.
excludes-push_example :
    excludes (push shallow_stack deeper) (b'a' ∷ b'/' ∷ name) true
    ≡ (elim (below deeper.base (b'a' ∷ b'/' ∷ name)) [
      | none ↦ excludes shallow_stack (b'a' ∷ b'/' ∷ name) true
      | some path ↦
          after_rules deeper.rules path true (excludes shallow_stack (b'a' ∷ b'/' ∷ name) true)
    ])
excludes-push_example = excludes-push shallow_stack deeper (b'a' ∷ b'/' ∷ name) true

taken_back : excludes (push shallow_stack deeper) (b'a' ∷ b'/' ∷ name) true ≡ false
unfolding push excludes deciding decide below find_last matches glob matches_from one_then
    strip_prefix
taken_back = refl
