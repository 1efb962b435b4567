-- ===== src/Container/Entries.antt =====
-- The entries of the table, the regions of the file and the sections, in a file that `parse` accepts.
use nostdb_core.Base.{
  ℕ, zero, suc, ◌+◌, ◌*◌, ◌≤◌, ◌≡◌, ◌≢◌, refl, true, false, List, [], ◌∷◌, some, ◌⊎◌, Bytes, length,
  take, drop, slice, arith,
}
use nostdb_core.Base.Words.{checked_add, checked_mul}
use nostdb_core.Crc.{crc32c}
use nostdb_core.Container.Kind.{Section, ok, from_raw}
use nostdb_core.Container.Parse.{
  Entry, Region, read_entry, entry_base, plan, contains, load, load_all, u32_at, u64_at, overlaps,
  overlaps_any, any_overlap,
}

-- A section is what its entry says.
pub record Placed (bytes : Bytes) (e : Entry) (s : Section) : Type 0 where
  pub kind : s.kind ≡ e.kind
  pub inside : e.offset + e.length ≤ length bytes
  pub payload : s.payload ≡ take e.length (drop e.offset bytes)
  pub checksum : crc32c s.payload ≡ e.stored

load-Placed : (bytes : Bytes) (e : Entry) (s : Section) → load bytes e ≡ ok s → Placed bytes e s
unfolding load slice
load-Placed bytes e s h = record {
  kind = ground arith;
  inside = ground arith;
  payload = ground arith;
  checksum = ground arith;
}

-- The entry is what stands in the table at `base`.
pub record Stored (bytes : Bytes) (base : ℕ) (e : Entry) : Type 0 where
  pub raw_kind : u32_at bytes base ≡ some e.raw_kind
  pub kind : from_raw e.raw_kind ≡ ok e.kind
  pub offset : u64_at bytes (base + 8) ≡ some e.offset
  pub length' : u64_at bytes (base + 16) ≡ some e.length
  pub stored : u32_at bytes (base + 24) ≡ some e.stored
  pub above_header : 48 ≤ e.offset
  pub inside : e.offset + e.length ≤ length bytes

read_entry-Stored :
    (bytes : Bytes) (base : ℕ) (e : Entry) → read_entry bytes base ≡ ok e → Stored bytes base e
unfolding read_entry checked_add
read_entry-Stored bytes base e h = record {
  raw_kind = ground arith;
  kind = ground arith;
  offset = ground arith;
  length' = ground arith;
  stored = ground arith;
  above_header = ground arith;
  inside = ground arith;
}

-- The sections, one for each entry.
unfoldable pub AllPlaced : Bytes → List Entry → List Section → Type 0
AllPlaced bytes [] [] = Unit
AllPlaced bytes (e ∷ es) (s ∷ ss) = Placed bytes e s × AllPlaced bytes es ss
AllPlaced bytes _ _ = ⊥

pub load_all-AllPlaced :
    (bytes : Bytes) (es : List Entry) (ss : List Section)
    → load_all bytes es ≡ ok ss
    → AllPlaced bytes es ss
unfolding load_all AllPlaced
load_all-AllPlaced bytes [] [] h = tt
load_all-AllPlaced bytes [] (s ∷ ss) h = cc
load_all-AllPlaced bytes (e ∷ es) [] h = absurd (ground arith)
load_all-AllPlaced bytes (e ∷ es) (s ∷ ss) h =
    (load-Placed bytes e s (ground arith), load_all-AllPlaced bytes es ss (ground arith))

-- The entries, from the one at `index` on.
unfoldable pub AllStored : Bytes → ℕ → ℕ → List Entry → Type 0
AllStored bytes offset index [] = Unit
AllStored bytes offset index (e ∷ es) =
    Stored bytes (offset + index * 32) e × AllStored bytes offset (index + 1) es

-- No entry has the stored kind `n`; no two entries have the same one.
unfoldable pub NoneOfKind : ℕ → List Entry → Type 0
NoneOfKind n [] = Unit
NoneOfKind n (e ∷ es) = (e.raw_kind ≢ n) × NoneOfKind n es

unfoldable pub DistinctKinds : List Entry → Type 0
DistinctKinds [] = Unit
DistinctKinds (e ∷ es) = NoneOfKind e.raw_kind es × DistinctKinds es

-- One round of the loop over the table.
record Round (left index : ℕ) (bytes : Bytes) (offset : ℕ) (kinds : List ℕ) (e : Entry)
    (es : List Entry) : Type 0 where
  read : read_entry bytes (offset + index * 32) ≡ ok e
  fresh : contains e.raw_kind kinds ≡ false
  rest : plan left (index + 1) bytes offset (e.raw_kind ∷ kinds) ≡ ok es

module _ (bytes : Bytes) (offset : ℕ) where
  plan-Round :
      (left index : ℕ) (kinds : List ℕ) (e : Entry) (es : List Entry)
      → plan (suc left) index bytes offset kinds ≡ ok (e ∷ es)
      → Round left index bytes offset kinds e es
  unfolding plan entry_base checked_add checked_mul
  plan-Round left index kinds e es h = record {
    read = ground arith;
    fresh = ground arith;
    rest = ground arith;
  }

  pub plan-AllStored :
      (left index : ℕ) (kinds : List ℕ) (es : List Entry)
      → plan left index bytes offset kinds ≡ ok es
      → AllStored bytes offset index es × (length es ≡ left)
  unfolding plan AllStored
  plan-AllStored zero index kinds [] h = (tt, refl)
  plan-AllStored zero index kinds (e ∷ es) h = cc
  plan-AllStored (suc left) index kinds [] h = absurd (ground arith)
  plan-AllStored (suc left) index kinds (e ∷ es) h =
      let r = plan-Round left index kinds e es h in
      let (later, n) = plan-AllStored left (index + 1) (e.raw_kind ∷ kinds) es r.rest in
      ((read_entry-Stored bytes _ e r.read, later), omega (arith, n))

  plan-NoneOfKind :
      (n left index : ℕ) (kinds : List ℕ) (es : List Entry)
      → contains n kinds ≡ true
      → plan left index bytes offset kinds ≡ ok es
      → NoneOfKind n es
  unfolding plan NoneOfKind contains
  plan-NoneOfKind n zero index kinds [] c h = tt
  plan-NoneOfKind n zero index kinds (e ∷ es) c h = cc
  plan-NoneOfKind n (suc left) index kinds [] c h = absurd (ground arith)
  plan-NoneOfKind n (suc left) index kinds (e ∷ es) c h =
      let r = plan-Round left index kinds e es h in
      (
        λ same. let f = r.fresh in let g = rw same at f in cc,
        plan-NoneOfKind n left (index + 1) (e.raw_kind ∷ kinds) es (ground arith) r.rest,
      )

  pub plan-DistinctKinds :
      (left index : ℕ) (kinds : List ℕ) (es : List Entry)
      → plan left index bytes offset kinds ≡ ok es
      → DistinctKinds es
  unfolding plan DistinctKinds contains
  plan-DistinctKinds zero index kinds [] h = tt
  plan-DistinctKinds zero index kinds (e ∷ es) h = cc
  plan-DistinctKinds (suc left) index kinds [] h = absurd (ground arith)
  plan-DistinctKinds (suc left) index kinds (e ∷ es) h =
      let r = plan-Round left index kinds e es h in
      (
        plan-NoneOfKind e.raw_kind left (index + 1) (e.raw_kind ∷ kinds) es (ground arith) r.rest,
        plan-DistinctKinds left (index + 1) (e.raw_kind ∷ kinds) es r.rest,
      )

-- The two regions share no byte.
abbrev pub Apart : Region → Region → Type 0
Apart a b = (a.end ≤ b.start) ⊎ (b.end ≤ a.start)

unfoldable pub ApartFrom : Region → List Region → Type 0
ApartFrom a [] = Unit
ApartFrom a (b ∷ bs) = Apart a b × ApartFrom a bs

unfoldable pub PairwiseApart : List Region → Type 0
PairwiseApart [] = Unit
PairwiseApart (a ∷ as') = ApartFrom a as' × PairwiseApart as'

overlaps-Apart : (a b : Region) → overlaps a b ≡ false → Apart a b
unfolding overlaps
overlaps-Apart a b h = ground arith

overlaps_any-ApartFrom :
    (a : Region) (bs : List Region) → overlaps_any a bs ≡ false → ApartFrom a bs
unfolding overlaps_any ApartFrom
overlaps_any-ApartFrom a [] h = tt
overlaps_any-ApartFrom a (b ∷ bs) h =
    (overlaps-Apart a b (ground arith), overlaps_any-ApartFrom a bs (ground arith))

pub any_overlap-PairwiseApart : (rs : List Region) → any_overlap rs ≡ false → PairwiseApart rs
unfolding any_overlap PairwiseApart
any_overlap-PairwiseApart [] h = tt
any_overlap-PairwiseApart (a ∷ as') h =
    (overlaps_any-ApartFrom a as' (ground arith), any_overlap-PairwiseApart as' (ground arith))
