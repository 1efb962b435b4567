-- ===== src/Ignore/Decides.antt =====
-- `glob` answers true exactly on the paths that the pattern's tokens stand for.
use nostdb_core.Base.{
  ℕ, zero, suc, ◌<◌, ◌≡◌, ◌↔◌, refl, ap, Bool, true, false, not, List, [], ◌∷◌, ◌++◌, Option, none,
  some, inl, inr, Bool-cases, Option-cases, ◌==◌, length, arith,
}
use nostdb_core.Ignore.Glob.{
  Chars, differs, character_class, any_later, any_in_name, one_then, double_star, star_branch,
  class_branch, escape_branch, matches_from, glob,
}
use nostdb_core.Ignore.Tokens.{
  Token, any_path, any_name, any_char, literal, class, in_ranges, read_class, skip_slash,
  star_token, class_token, escape_token, next_token, tokens_from, tokens, Takes, HasNoSlash, Then,
  Denotes,
}
use nostdb_core.Ignore.Shorter.{length-next_token}
use nostdb_core.Ignore.Classes.{classified, character_class-read_class}

takes : Token → ℕ → Bool
takes any_char c = not (c == b'/')
takes (literal x) c = c == x
takes (class negated ranges) c = differs (in_ranges ranges c) negated
takes _ c = false

-- What the code does for a token.
run : Token → (Chars → Bool) → Chars → Bool
run any_path m path = any_later m path
run any_name m path = any_in_name m path
run any_char m path = one_then (takes any_char) m path
run (literal x) m path = one_then (takes (literal x)) m path
run (class n rs) m path = one_then (takes (class n rs)) m path

any_later_self : (m : Chars → Bool) (path : Chars) → m path ≡ true → any_later m path ≡ true
unfolding any_later
any_later_self m [] h = h
any_later_self m (c ∷ path) h = ground arith

double_star-skip_slash :
    (m : Chars → Chars → Bool) (after path : Chars)
    → double_star m after path ≡ any_later (m (skip_slash after)) path
unfolding double_star
double_star-skip_slash m [] path = refl
double_star-skip_slash m (c ∷ rest) path = ground (arith, any_later_self (m rest) path)

run-nil :
    (m : Chars → Chars → Bool) (rest : Chars) (r : Option (Bool × List (ℕ × ℕ) × Chars))
    → false ≡ run (class_token rest r).0 (m (class_token rest r).1) []
unfolding one_then run takes
run-nil m rest none = refl
run-nil m rest (some (n, rs, after)) = refl

run-cons :
    (m : Chars → Chars → Bool) (rest path : Chars) (x : ℕ)
    (r : Option (Bool × List (ℕ × ℕ) × Chars))
    → (elim (classified x r) [
      | none ↦ one_then (λ c. c == b'[') (m rest) (x ∷ path)
      | some (accepts, after) ↦ one_then (λ _. accepts) (m after) (x ∷ path)
    ])
      ≡ run (class_token rest r).0 (m (class_token rest r).1) (x ∷ path)
unfolding one_then run takes
run-cons m rest path x none = refl
run-cons m rest path x (some (n, rs, after)) = refl

class_branch-run :
    (m : Chars → Chars → Bool) (rest path : Chars)
    → class_branch m rest path
      ≡ run (class_token rest (read_class rest)).0 (m (class_token rest (read_class rest)).1) path
unfolding class_branch
class_branch-run m rest [] = elim (Option-cases (character_class rest none)) [
  | inl n ↦ rw (n, class_branch) (unfold one_then in run-nil m rest (read_class rest))
  | inr (a, s) ↦ rw (s, class_branch) (unfold one_then in run-nil m rest (read_class rest))
]
class_branch-run m rest (x ∷ path) =
    rw (character_class-read_class x rest, class_branch) (run-cons m rest path x (read_class rest))

star_branch-run :
    (m : Chars → Chars → Bool) (rest path : Chars)
    → star_branch m rest path ≡ run (star_token rest).0 (m (star_token rest).1) path
unfolding star_branch run
star_branch-run m [] path = refl
star_branch-run m (q ∷ after) path = elim (Bool-cases (q == b'*')) [
  | inl s ↦ rw s (double_star-skip_slash m after path)
  | inr s ↦ rw s refl
]

escape_branch-run :
    (m : Chars → Chars → Bool) (rest path : Chars)
    → escape_branch m rest path ≡ run (escape_token rest).0 (m (escape_token rest).1) path
unfolding escape_branch run takes
escape_branch-run m [] path = refl
escape_branch-run m (c ∷ after) path = refl

-- One round takes one token.
matches_from-next_token :
    (fuel p : ℕ) (rest path : Chars)
    → matches_from (suc fuel) (p ∷ rest) path
      ≡ run (next_token p rest).0 (matches_from fuel (next_token p rest).1) path
unfolding matches_from next_token run takes
matches_from-next_token fuel p rest path = elim (Bool-cases (p == b'*')) [
  | inl s ↦ rw s (star_branch-run (matches_from fuel) rest path)
  | inr s ↦ elim (Bool-cases (p == b'?')) [
    | inl e ↦ rw s (rw e refl)
    | inr e ↦ elim (Bool-cases (p == b'[')) [
      | inl c ↦ rw s (rw e (rw c (class_branch-run (matches_from fuel) rest path)))
      | inr c ↦ elim (Bool-cases (p == b'\\')) [
        | inl l ↦ rw s (rw e (rw c (rw l (escape_branch-run (matches_from fuel) rest path))))
        | inr l ↦ rw s (rw e (rw c (rw l refl)))
      ]
    ]
  ]
]

-- Both sides of a search, for a test that decides a predicate.
module _ (m : Chars → Bool) (P : Chars → Type 0) (e : (v : Chars) → (m v ≡ true) ↔ P v) where
  any_later→Then : (path : Chars) → any_later m path ≡ true → Then any_path P path
  unfolding any_later
  any_later→Then [] h = ([], [], refl, (e []).0 h)
  any_later→Then (c ∷ path) h = elim (Bool-cases (m (c ∷ path))) [
    | inl now ↦ ([], c ∷ path, refl, (e (c ∷ path)).0 now)
    | inr later ↦
        let (u, v, s, p) = any_later→Then path (rw later at h) in (c ∷ u, v, ap (◌∷◌ c) s, p)
  ]

  any_later-append : (u v : Chars) → P v → any_later m (u ++ v) ≡ true
  unfolding any_later
  any_later-append [] v p = any_later_self m v ((e v).1 p)
  any_later-append (c ∷ u) v p = ground (arith, any_later-append u v p)

  any_in_name→Then : (path : Chars) → any_in_name m path ≡ true → Then any_name P path
  unfolding any_in_name HasNoSlash
  any_in_name→Then [] h = ([], [], refl, tt, (e []).0 h)
  any_in_name→Then (c ∷ path) h = elim (Bool-cases (m (c ∷ path))) [
    | inl now ↦ ([], c ∷ path, refl, tt, (e (c ∷ path)).0 now)
    | inr later ↦ elim (Bool-cases (c == b'/')) [
      | inl slash ↦ absurd (ground arith)
      | inr name ↦
          let (u, v, s, n, p) = any_in_name→Then path (rw name at (rw later at h)) in
          (c ∷ u, v, ap (◌∷◌ c) s, (name, n), p)
    ]
  ]

  any_in_name_self : (path : Chars) → m path ≡ true → any_in_name m path ≡ true
  unfolding any_in_name
  any_in_name_self [] h = h
  any_in_name_self (c ∷ path) h = ground arith

  any_in_name-append : (u v : Chars) → HasNoSlash u → P v → any_in_name m (u ++ v) ≡ true
  unfolding any_in_name HasNoSlash
  any_in_name-append [] v n p = any_in_name_self v ((e v).1 p)
  any_in_name-append (c ∷ u) v n p = ground (arith, any_in_name-append u v n.1 p)

  module _ (test : ℕ → Bool) (T : ℕ → Type 0) (d : (c : ℕ) → (test c ≡ true) ↔ T c) where
    one_then→ :
        (path : Chars)
        → one_then test m path ≡ true
        → (c : ℕ) × (v : Chars) × (path ≡ c ∷ v) × T c × P v
    unfolding one_then
    one_then→ [] h = cc
    one_then→ (x ∷ path) h = (x, path, refl, (d x).0 (ground arith), (e path).0 (ground arith))

    one_then_iff :
        (path : Chars)
        → (one_then test m path ≡ true) ↔ ((c : ℕ) × (v : Chars) × (path ≡ c ∷ v) × T c × P v)
    unfolding one_then
    one_then_iff path = (
      one_then→ path,
      λ w. let (c, v, s, t, p) = w in let a = (d c).1 t in let b = (e v).1 p in rw s (ground arith),
    )

  run-Then : (token : Token) (path : Chars) → (run token m path ≡ true) ↔ Then token P path
  unfolding run takes
  run-Then any_path path =
      (any_later→Then path, λ w. let (u, v, s, p) = w in rw s (any_later-append u v p))
  run-Then any_name path =
      (any_in_name→Then path, λ w. let (u, v, s, n, p) = w in rw s (any_in_name-append u v n p))
  run-Then any_char path = one_then_iff (takes any_char) (Takes any_char) (λ c. ground arith) path
  run-Then (literal x) path =
      one_then_iff (takes (literal x)) (Takes (literal x)) (λ c. (λ h. h, λ h. h)) path
  run-Then (class n rs) path =
      one_then_iff (takes (class n rs)) (Takes (class n rs)) (λ c. ground arith) path

matches_from-Denotes :
    (fuel : ℕ) (pattern path : Chars)
    → length pattern < fuel
    → (matches_from fuel pattern path ≡ true) ↔ Denotes (tokens_from fuel pattern) path
unfolding matches_from tokens_from Denotes
matches_from-Denotes zero pattern path h = absurd (omega arith)
matches_from-Denotes (suc fuel) [] [] h = (λ _. refl, λ _. refl)
matches_from-Denotes (suc fuel) [] (c ∷ path) h = (λ e. cc, λ e. cc)
matches_from-Denotes (suc fuel) (p ∷ rest) path h =
    let (token, after) = next_token p rest in
    let shorter : length after < fuel = omega (arith, length-next_token p rest) in
    rw (matches_from-next_token fuel p rest path) (
      run-Then (matches_from fuel after) (Denotes (tokens_from fuel after))
        (λ v. matches_from-Denotes fuel after v shorter) token path)

-- A path matches a pattern exactly if it is what the pattern's tokens stand for, one after another:
-- `**` for any text, with a slash behind it left out; `*` for any text with no slash; `?` for a
-- character that is no slash; a class for a character in one of its ranges, or in none if it is
-- negated; and any other, or one behind a backslash, for itself.
pub glob-Denotes :
    (pattern path : Chars) → (glob pattern path ≡ true) ↔ Denotes (tokens pattern) path
unfolding glob
glob-Denotes pattern path = matches_from-Denotes (suc (length pattern)) pattern path (omega arith)
