-- ===== src/Ignore/Classes.antt =====
-- `character_class` is membership in the ranges that the class lists.
use nostdb_core.Base.{
  ℕ, ◌≡◌, refl, ap, ◌∙◌, Bool, true, false, not, ◌&&◌, ◌||◌, List, [], ◌∷◌, Option, none, some, inl,
  inr, Bool-cases, ◌==◌, leb, if◌then◌else◌, arith,
}
use nostdb_core.Ignore.Glob.{Chars, differs, class_loop, character_class}
use nostdb_core.Ignore.Tokens.{in_ranges, push_range, read_ranges, read_class}

-- What the loop over a class makes of the ranges, for a character.
abbrev judged : Bool → Bool → ℕ → Option (List (ℕ × ℕ) × Chars) → Option (Bool × Chars)
judged negated accepts x none = none
judged negated accepts x (some (rs, after)) =
    some (differs (accepts || in_ranges rs x) negated, after)

judged-push :
    (negated accepts : Bool) (x low high : ℕ) (r : Option (List (ℕ × ℕ) × Chars))
    → judged negated (accepts || (leb low x && leb x high)) x r
      ≡ judged negated accepts x (push_range low high r)
unfolding in_ranges
judged-push negated accepts x low high none = refl
judged-push negated accepts x low high (some (rs, after)) = ground arith

self_range : (x low : ℕ) → (x == low) ≡ (leb low x && leb x low)
self_range x low = ground arith

module _ (x : ℕ) (negated : Bool) where
  single_step :
      {r : Option (Bool × Chars)} (accepts : Bool) (low : ℕ) (s : Option (List (ℕ × ℕ) × Chars))
      → r ≡ judged negated (accepts || (x == low)) x s
      → r ≡ judged negated accepts x (push_range low low s)
  single_step accepts low s h =
      h
      ∙ ap (λ b. judged negated (accepts || b) x s) (self_range x low)
      ∙ judged-push negated accepts x low low s

  -- The three ends of a round.
  three_ways :
      (closes is_range accepts : Bool) {r s : Option (Bool × Chars)} (after : Chars)
      (rs ss : Option (List (ℕ × ℕ) × Chars))
      → r ≡ judged negated accepts x rs
      → s ≡ judged negated accepts x ss
      → (if closes then some (differs accepts negated, after) else if is_range then r else s)
        ≡ judged negated accepts x
            (if closes then some ([], after) else if is_range then rs else ss)
  unfolding in_ranges
  three_ways true is_range accepts after rs ss h k = ground arith
  three_ways false true accepts after rs ss h k = h
  three_ways false false accepts after rs ss h k = k

  class_loop-ranges :
      (first accepts : Bool) (p : Chars)
      → class_loop (some x) negated first accepts p ≡ judged negated accepts x (read_ranges first p)
  unfolding class_loop read_ranges in_ranges
  class_loop-ranges first accepts [] = refl
  class_loop-ranges first accepts (low ∷ []) = ground arith
  class_loop-ranges first accepts (low ∷ next ∷ []) =
      let single =
        single_step accepts low (read_ranges false (next ∷ []))
          (class_loop-ranges false (accepts || (x == low)) (next ∷ [])) in
      three_ways (low == b']' && not first) false accepts (next ∷ []) _ _ single single
  class_loop-ranges first accepts (low ∷ next ∷ high ∷ rest) =
      let single =
        single_step accepts low (read_ranges false (next ∷ high ∷ rest))
          (class_loop-ranges false (accepts || (x == low)) (next ∷ high ∷ rest)) in
      let range =
        class_loop-ranges false (accepts || (leb low x && leb x high)) rest
        ∙ judged-push negated accepts x low high (read_ranges false rest) in
      three_ways (low == b']' && not first) (next == b'-' && not (high == b']')) accepts
        (next ∷ high ∷ rest) _ _ range single

abbrev pub classified : ℕ → Option (Bool × List (ℕ × ℕ) × Chars) → Option (Bool × Chars)
classified x none = none
classified x (some (negated, rs, after)) = some (differs (in_ranges rs x) negated, after)

pub character_class-read_class :
    (x : ℕ) (p : Chars) → character_class p (some x) ≡ classified x (read_class p)
unfolding character_class
character_class-read_class x [] = refl
character_class-read_class x (c ∷ rest) = elim (Bool-cases (c == b'!' || c == b'^')) [
  | inl n ↦ rw n (class_loop-ranges x true true false rest ∙ tagged true (read_ranges true rest))
  | inr n ↦
      rw n (
        class_loop-ranges x false true false (c ∷ rest)
        ∙ tagged false (read_ranges true (c ∷ rest)))
]
  where
    tagged :
        (negated : Bool) (r : Option (List (ℕ × ℕ) × Chars))
        → judged negated false x r
          ≡ classified x (elim r [ none ↦ none | some (rs, after) ↦ some (negated, rs, after) ])
    tagged negated none = refl
    tagged negated (some (rs, after)) = refl
