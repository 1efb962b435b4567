-- ===== src/Ignore/Shorter.antt =====
-- Every token takes a character of the pattern.
use nostdb_core.Base.{
  ℕ, suc, ◌≤◌, Bool, true, false, not, ◌&&◌, ◌||◌, List, [], ◌∷◌, Option, none, some, inl, inr,
  Bool-cases, ◌==◌, if◌then◌else◌, length, arith,
}
use nostdb_core.Ignore.Glob.{Chars}
use nostdb_core.Ignore.Tokens.{
  push_range, read_ranges, read_class, class_token, star_token, escape_token, next_token,
}

abbrev IsWithin : ℕ → Option (List (ℕ × ℕ) × Chars) → Type 0
IsWithin n none = Unit
IsWithin n (some (rs, after)) = length after ≤ n

IsWithin-push :
    (n low high : ℕ) (r : Option (List (ℕ × ℕ) × Chars)) (k : ℕ)
    → n ≤ k
    → IsWithin n r
    → IsWithin k (push_range low high r)
IsWithin-push n low high none k e h = tt
IsWithin-push n low high (some (rs, after)) k e h = omega arith

IsWithin-if :
    (b : Bool) (n : ℕ) (r s : Option (List (ℕ × ℕ) × Chars))
    → IsWithin n r
    → IsWithin n s
    → IsWithin n (if b then r else s)
IsWithin-if true n r s h k = h
IsWithin-if false n r s h k = k

read_ranges-IsWithin : (first : Bool) (p : Chars) → IsWithin (length p) (read_ranges first p)
unfolding read_ranges
read_ranges-IsWithin first [] = tt
read_ranges-IsWithin first (low ∷ []) =
    IsWithin-if (low == b']' && not first) 1 (some ([], [])) none (omega arith) tt
read_ranges-IsWithin first (low ∷ next ∷ []) =
    IsWithin-if (low == b']' && not first) 2 (some ([], next ∷ [])) _ (omega arith) (
      IsWithin-push 1 low low (read_ranges false (next ∷ [])) 2 (omega arith)
        (read_ranges-IsWithin false (next ∷ [])))
read_ranges-IsWithin first (low ∷ next ∷ high ∷ rest) =
    let n : ℕ = suc (suc (suc (length rest))) in
    IsWithin-if (low == b']' && not first) n (some ([], next ∷ high ∷ rest)) _ (omega arith) (
      IsWithin-if (next == b'-' && not (high == b']')) n _ _
        (IsWithin-push (length rest) low high (read_ranges false rest) n (omega arith)
          (read_ranges-IsWithin false rest))
        (IsWithin-push (suc (suc (length rest))) low low (read_ranges false (next ∷ high ∷ rest)) n
          (omega arith) (read_ranges-IsWithin false (next ∷ high ∷ rest))))

length-class_token : (rest : Chars) → length (class_token rest (read_class rest)).1 ≤ length rest
length-class_token [] = omega arith
length-class_token (c ∷ rest) = elim (Bool-cases (c == b'!' || c == b'^')) [
  | inl n ↦ rw n (behind true (read_ranges true rest) (read_ranges-IsWithin true rest))
  | inr n ↦ rw n (whole (read_ranges true (c ∷ rest)) (read_ranges-IsWithin true (c ∷ rest)))
]
  where
    behind :
        (negated : Bool) (r : Option (List (ℕ × ℕ) × Chars))
        → IsWithin (length rest) r
        → length
            (class_token
              (c ∷ rest)
              (elim r [ none ↦ none | some (rs, after) ↦ some (negated, rs, after) ])).1
          ≤ suc (length rest)
    behind negated none h = omega arith
    behind negated (some (rs, after)) h = omega arith

    whole :
        (r : Option (List (ℕ × ℕ) × Chars))
        → IsWithin (suc (length rest)) r
        → length
            (class_token
              (c ∷ rest)
              (elim r [ none ↦ none | some (rs, after) ↦ some (false, rs, after) ])).1
          ≤ suc (length rest)
    whole none h = omega arith
    whole (some (rs, after)) h = omega arith

length-star_token : (rest : Chars) → length (star_token rest).1 ≤ length rest
length-star_token [] = omega arith
length-star_token (q ∷ []) = ground arith
length-star_token (q ∷ c ∷ after) = ground arith

pub length-next_token : (p : ℕ) (rest : Chars) → length (next_token p rest).1 ≤ length rest
unfolding next_token
length-next_token p rest = elim (Bool-cases (p == b'*')) [
  | inl s ↦ rw s (length-star_token rest)
  | inr s ↦ elim (Bool-cases (p == b'?')) [
    | inl e ↦ rw s (rw e (omega arith))
    | inr e ↦ elim (Bool-cases (p == b'[')) [
      | inl c ↦ rw s (rw e (rw c (length-class_token rest)))
      | inr c ↦ elim (Bool-cases (p == b'\\')) [
        | inl l ↦ rw s (rw e (rw c (rw l (escaped rest))))
        | inr l ↦ rw s (rw e (rw c (rw l (omega arith))))
      ]
    ]
  ]
]
  where
    escaped : (rest : Chars) → length (escape_token rest).1 ≤ length rest
    escaped [] = omega arith
    escaped (c ∷ after) = omega arith
