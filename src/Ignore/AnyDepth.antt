-- ===== src/Ignore/AnyDepth.antt =====
-- Where in a path a rule matches.
use nostdb_core.Base.{
  ◌≡◌, ◌↔◌, ◌⊎◌, ap, ◌∙◌, Bool, true, false, not, ◌&&◌, [], ◌∷◌, ◌++◌, inl, inr, Bool-cases, ◌==◌,
  ==_iff, arith,
}
use nostdb_core.Ignore.Glob.{Chars, glob}
use nostdb_core.Ignore.Rules.{Rule, matches, any_tail}

any_tail→ :
    (m : Chars → Bool) (path : Chars)
    → any_tail m path ≡ true
    → (u v : Chars) × (path ≡ u ++ b'/' ∷ v) × (m v ≡ true)
unfolding any_tail
any_tail→ m [] h = cc
any_tail→ m (c ∷ rest) h = elim (Bool-cases (c == b'/' && m rest)) [
  | inl here ↦ ([], rest, ap (λ k. k ∷ rest) ((==_iff c b'/').0 (ground arith)), ground arith)
  | inr later ↦ let (u, v, s, t) = any_tail→ m rest (rw later at h) in (c ∷ u, v, ap (◌∷◌ c) s, t)
]

any_tail-append : (m : Chars → Bool) (u v : Chars) → m v ≡ true → any_tail m (u ++ b'/' ∷ v) ≡ true
unfolding any_tail
any_tail-append m [] v h = ground arith
any_tail-append m (c ∷ u) v h = ground (arith, any_tail-append m u v h)

-- The rule matches the path itself, or, unless it is anchored, what is behind some ancestor.
abbrev pub MatchesBelow : Rule → Chars → Type 0
MatchesBelow rule path =
    (glob rule.pattern path ≡ true)
    ⊎ ((rule.anchored ≡ false)
        × ((u v : Chars) × (path ≡ u ++ b'/' ∷ v) × (glob rule.pattern v ≡ true)))

module _ (rule : Rule) (path : Chars) (is_dir : Bool) where
  matches→ :
      matches rule path is_dir ≡ true
      → ((rule.directory_only && not is_dir) ≡ false) × MatchesBelow rule path
  unfolding matches
  matches→ h = elim (Bool-cases (rule.directory_only && not is_dir)) [
    | inl out ↦ let h' = rw out at h in cc
    | inr in_place ↦ elim (Bool-cases (glob rule.pattern path)) [
      | inl whole ↦ (in_place, inl whole)
      | inr tail ↦ elim (Bool-cases rule.anchored) [
        | inl fixed ↦ let h' = rw tail at (rw fixed at (rw in_place at h)) in cc
        | inr free ↦ (
          in_place,
          inr (
            free,
            any_tail→ (glob rule.pattern) path (rw tail at (rw free at (rw in_place at h))),
          ),
        )
      ]
    ]
  ]

  matches← :
      (rule.directory_only && not is_dir) ≡ false
      → MatchesBelow rule path
      → matches rule path is_dir ≡ true
  unfolding matches
  matches← in_place (inl whole) = rw in_place (rw whole (ground arith))
  matches← in_place (inr (free, (u, v, s, t))) =
      let tail : any_tail (glob rule.pattern) path ≡ true =
        ap (any_tail (glob rule.pattern)) s ∙ any_tail-append (glob rule.pattern) u v t in
      rw in_place (rw free (rw tail (ground arith)))

-- A rule matches a path exactly if it is not for directories only or the path is a directory, and
-- its pattern matches the path or, unless the rule is anchored, what stands behind one of its slashes.
pub matches-MatchesBelow :
    (rule : Rule) (path : Chars) (is_dir : Bool)
    → (matches rule path is_dir ≡ true)
      ↔ (((rule.directory_only && not is_dir) ≡ false) × MatchesBelow rule path)
unfolding matches
matches-MatchesBelow rule path is_dir =
    (matches→ rule path is_dir, λ h. matches← rule path is_dir h.0 h.1)
