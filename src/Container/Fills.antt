-- ===== src/Container/Fills.antt =====
-- A builder is filled with sections of different kinds, which the loop of `commit` pushes.
use nostdb_core.Base.{ℕ, ◌≡◌, refl, true, false, List, [], ◌∷◌, ◌++◌, inl, inr, Bool-cases, arith}
use nostdb_core.Container.Kind.{SectionKind, Section, ok, raw, same_kind}
use nostdb_core.Container.Parse.{contains}
use nostdb_core.Container.Build.{ContainerBuilder, holds_kind, push_section}

-- The stored kinds of the sections are among those seen.
unfoldable pub AllSeen : List ℕ → List Section → Type 0
AllSeen seen [] = Unit
AllSeen seen (s ∷ ss) = (contains (raw s.kind) seen ≡ true) × AllSeen seen ss

AllSeen-later :
    (n : ℕ) (seen : List ℕ) (ss : List Section) → AllSeen seen ss → AllSeen (n ∷ seen) ss
unfolding AllSeen contains
AllSeen-later n seen [] h = tt
AllSeen-later n seen (s ∷ ss) h = (ground arith, AllSeen-later n seen ss h.1)

pub AllSeen-last :
    (seen : List ℕ) (ss : List Section) (s : Section)
    → AllSeen seen ss
    → AllSeen (raw s.kind ∷ seen) (ss ++ s ∷ [])
unfolding AllSeen contains
AllSeen-last seen [] s h = (ground arith, tt)
AllSeen-last seen (x ∷ xs) s h = (ground arith, AllSeen-last seen xs s h.1)

same_kind-raw : (a b : SectionKind) → same_kind a b ≡ true → raw a ≡ raw b
unfolding same_kind
same_kind-raw a b h = ground arith

holds_kind-fresh :
    (kind : SectionKind) (seen : List ℕ) (ss : List Section)
    → AllSeen seen ss
    → contains (raw kind) seen ≡ false
    → holds_kind kind ss ≡ false
unfolding AllSeen holds_kind
holds_kind-fresh kind seen [] h n = refl
holds_kind-fresh kind seen (s ∷ ss) h n = elim (Bool-cases (same_kind s.kind kind)) [
  | inl same ↦ (let c = h.0 in let e = same_kind-raw s.kind kind same in cc)
  | inr apart ↦ rw apart (holds_kind-fresh kind seen ss h.1 n)
]

pub push_section-fresh :
    (b : ContainerBuilder) (seen : List ℕ) (s : Section)
    → AllSeen seen b.sections
    → contains (raw s.kind) seen ≡ false
    → push_section b s.kind s.payload ≡ ok (record b { sections = b.sections ++ s ∷ [] })
unfolding push_section
push_section-fresh b seen s h n = rw (holds_kind-fresh s.kind seen b.sections h n) refl
