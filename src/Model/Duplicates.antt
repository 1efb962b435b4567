-- ===== src/Model/Duplicates.antt =====
-- What the collectors of duplicates report.
use nostdb_core.Base.{
  ℕ, suc, ◌-◌, ◌≤◌, ◌<◌, ◌≡◌, ◌↔◌, refl, sym, Bool, true, false, List, [], ◌∷◌, ◌++◌, map,
  if◌then◌else◌, Bytes, length, same_bytes, same_bytes_eq, same_bytes_refl, Bool-cases, inl, inr,
  arith,
}
use mathlib.Core.Path.{subst}
use Prim.Native.Nat.{min}
use nostdb_core.Model.Names.{among}
use nostdb_core.Model.Records.{Node}
use nostdb_core.Model.Violations.{
  RecordViolation, node_without_label, no_contribution, duplicate_label, duplicate_property_key,
  duplicates_from, duplicates, keys_of, unless_any, node_violations,
}

-- How often a key occurs.
unfoldable pub count : Bytes → List Bytes → ℕ
count key [] = 0
count key (x ∷ rest) = let more = count key rest in if same_bytes x key then suc more else more

-- How often the loop still reports a key.
abbrev due : Bool → Bool → ℕ → ℕ
due reported seen times = if reported then 0 else if seen then min 1 times else min 1 (times - 1)

-- The loop reports what is due of a key.
abbrev Reports : Bytes → List Bytes → List Bytes → List Bytes → Type 0
Reports key seen reported keys =
    count key (duplicates_from seen reported keys)
    ≡ due (among reported key) (among seen key) (count key keys)

met :
    (key : Bytes) (seen reported rest : List Bytes)
    → same_bytes key key ≡ true
    → Reports key seen reported rest
    → Reports key seen (key ∷ reported) rest
    → Reports key (key ∷ seen) reported rest
    → Reports key seen reported (key ∷ rest)
unfolding count duplicates_from among
met key seen reported rest e again second fresh = ground arith

passed :
    (key x : Bytes) (seen reported rest : List Bytes)
    → same_bytes x key ≡ false
    → Reports key seen reported rest
    → Reports key seen (x ∷ reported) rest
    → Reports key (x ∷ seen) reported rest
    → Reports key seen reported (x ∷ rest)
unfolding count duplicates_from among
passed key x seen reported rest e again second fresh = ground arith

count-duplicates_from :
    (key : Bytes) (seen reported keys : List Bytes)
    → count key (duplicates_from seen reported keys)
      ≡ due (among reported key) (among seen key) (count key keys)
unfolding count duplicates_from
count-duplicates_from key seen reported [] = ground arith
count-duplicates_from key seen reported (x ∷ rest) = elim (Bool-cases (same_bytes x key)) [
  | inl same ↦
      let it : key ≡ x = sym (same_bytes_eq x key same) in
      subst
        (λ y.
          count key (duplicates_from seen reported (y ∷ rest))
          ≡ due (among reported key) (among seen key) (count key (y ∷ rest)))
        it
        (met key seen reported rest (same_bytes_refl key)
          (count-duplicates_from key seen reported rest)
          (count-duplicates_from key seen (key ∷ reported) rest)
          (count-duplicates_from key (key ∷ seen) reported rest))
  | inr differ ↦
      passed key x seen reported rest differ (count-duplicates_from key seen reported rest)
        (count-duplicates_from key seen (x ∷ reported) rest)
        (count-duplicates_from key (x ∷ seen) reported rest)
]

-- Every key that occurs more than once is reported, once, and no other is.
pub count-duplicates :
    (key : Bytes) (keys : List Bytes) → count key (duplicates keys) ≡ min 1 (count key keys - 1)
unfolding duplicates among
count-duplicates key keys = count-duplicates_from key [] [] keys

abbrev pub IsDistinct : List Bytes → Type 0
IsDistinct keys = (key : Bytes) → count key keys ≤ 1

none_due :
    (keys found : List Bytes)
    → ((key : Bytes) → count key found ≡ min 1 (count key keys - 1))
    → IsDistinct keys
    → found ≡ []
unfolding count
none_due keys [] counts h = refl
none_due keys (d ∷ found) counts h =
    let twice : count d (d ∷ found) ≡ suc (count d found) = rw (same_bytes_refl d) refl in
    absurd (omega (arith, twice, counts d, h d))

IsDistinct-if :
    (keys found : List Bytes)
    → ((key : Bytes) → count key found ≡ min 1 (count key keys - 1))
    → found ≡ []
    → IsDistinct keys
unfolding count
IsDistinct-if keys [] counts e key = omega (arith, counts key)
IsDistinct-if keys (d ∷ found) counts e key = absurd cc

-- Nothing is reported exactly if the keys are distinct.
pub duplicates-IsDistinct : (keys : List Bytes) → (duplicates keys ≡ []) ↔ IsDistinct keys
duplicates-IsDistinct keys = (
  IsDistinct-if keys (duplicates keys) (λ key. count-duplicates key keys),
  none_due keys (duplicates keys) (λ key. count-duplicates key keys),
)

append-nil_inv {ℓ} : {A : Type ℓ} (xs ys : List A) → xs ++ ys ≡ [] → (xs ≡ []) × (ys ≡ [])
append-nil_inv [] ys h = (refl, h)
append-nil_inv (x ∷ xs) ys h = absurd cc

map-nil_inv {ℓ} : {A B : Type ℓ} (f : A → B) (xs : List A) → map f xs ≡ [] → xs ≡ []
map-nil_inv f [] h = refl
map-nil_inv f (x ∷ xs) h = absurd cc

unless_any_iff :
    {A : Type 0} (xs : List A) (violation : RecordViolation)
    → (unless_any xs violation ≡ []) ↔ (0 < length xs)
unfolding unless_any
unless_any_iff [] violation = (λ h. absurd cc, λ h. absurd (omega arith))
unless_any_iff (x ∷ xs) violation = (λ h. omega arith, λ h. refl)

-- A node breaks no rule exactly if it has a label and a contribution, no label stands in it twice,
-- and no key is set twice.
pub node_violations_iff :
    (n : Node)
    → (node_violations n ≡ []) ↔ (
        (0 < length n.labels)
        × IsDistinct n.labels
        × IsDistinct (keys_of n.properties)
        × (0 < length n.contributions))
unfolding node_violations
node_violations_iff n =
    let labels : List Bytes = n.labels in
    let keys : List Bytes = keys_of n.properties in
    let any_label = unless_any_iff n.labels node_without_label in
    let any_contribution = unless_any_iff n.contributions no_contribution in
    (
      λ h.
          let (a, bcd) = append-nil_inv (unless_any n.labels node_without_label) _ h in
          let (b, cd) = append-nil_inv (map duplicate_label (duplicates labels)) _ bcd in
          let (c, d) = append-nil_inv (map duplicate_property_key (duplicates keys)) _ cd in
          (
            any_label.0 a,
            (duplicates-IsDistinct labels).0 (map-nil_inv duplicate_label (duplicates labels) b),
            (duplicates-IsDistinct keys).0 (map-nil_inv duplicate_property_key (duplicates keys) c),
            any_contribution.0 d,
          ),
      λ (a, b, c, d).
          rw
            (
              any_label.1 a,
              (duplicates-IsDistinct labels).1 b,
              (duplicates-IsDistinct keys).1 c,
              any_contribution.1 d,
            )
            refl,
    )
