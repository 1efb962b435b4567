-- ===== src/Container/RoundTrip.antt =====
-- `parse` reads back what `build` wrote.
use nostdb_core.Base.{
  ℕ, ◌+◌, ◌*◌, ◌≤◌, ◌<◌, ◌≡◌, refl, ap, ◌∙◌, false, List, [], ◌∷◌, ◌++◌, ltb, Bytes, Bool-cases,
  inl, inr, length, drop, drop-drop, length-append, drop-length-append, max_length, arith,
}
use nostdb_core.Generation.{IsU64}
use nostdb_core.Container.Kind.{Section, ok}
use nostdb_core.Container.Parse.{
  Region, occupied, section_regions, regions, overlaps, overlaps_any, any_overlap,
  max_section_count, parse,
}
use nostdb_core.Container.Build.{ContainerBuilder, table_bytes, payload_bytes, header_bytes, build}
use nostdb_core.Container.Fields.{
  length-header_bytes, check_header-header_bytes, check_table-header_bytes,
}
use nostdb_core.Container.Layout.{
  AreFresh, entries_of, length-table_bytes, plan-table_bytes, load_all-entries_of,
}

-- Regions in order, the first at or behind `lo`.
abbrev InOrder : ℕ → List Region → Type 0
InOrder lo [] = Unit
InOrder lo (r ∷ rs) = (lo ≤ r.start) × (r.start ≤ r.end) × InOrder r.end rs

InOrder-le : (lo lo' : ℕ) (rs : List Region) → lo ≤ lo' → InOrder lo' rs → InOrder lo rs
InOrder-le lo lo' [] h k = tt
InOrder-le lo lo' (r ∷ rs) h (a, b, k) = (omega arith, b, k)

overlaps_any-InOrder :
    (a : Region) (rs : List Region) (lo : ℕ)
    → a.end ≤ lo
    → InOrder lo rs
    → overlaps_any a rs ≡ false
unfolding overlaps_any overlaps
overlaps_any-InOrder a [] lo h k = refl
overlaps_any-InOrder a (r ∷ rs) lo h (p, q, k) =
    let ih = overlaps_any-InOrder a rs r.end (omega arith) k in
    let apart : ltb r.start a.end ≡ false = ground arith in ground (arith, ih, apart)

-- Regions in order do not overlap.
any_overlap-InOrder : (lo : ℕ) (rs : List Region) → InOrder lo rs → any_overlap rs ≡ false
unfolding any_overlap
any_overlap-InOrder lo [] k = refl
any_overlap-InOrder lo (r ∷ rs) (p, q, k) =
    rw (overlaps_any-InOrder r rs r.end (omega arith) k) (any_overlap-InOrder r.end rs k)

-- Those of no bytes are left out.
occupied-InOrder :
    (lo start size : ℕ) (rs : List Region)
    → lo ≤ start
    → InOrder (start + size) rs
    → InOrder lo (occupied start size ++ rs)
unfolding occupied
occupied-InOrder lo start size rs h k = elim (Bool-cases (ltb 0 size)) [
  | inl some_bytes ↦ rw some_bytes (h, omega arith, k)
  | inr empty ↦ rw empty (InOrder-le lo (start + size) rs (omega arith) k)
]

sections-InOrder :
    (cursor : ℕ) (ss : List Section) → InOrder cursor (section_regions (entries_of cursor ss))
unfolding section_regions entries_of
sections-InOrder cursor [] = tt
sections-InOrder cursor (s ∷ ss) =
    occupied-InOrder cursor cursor (length s.payload) _ (omega arith)
      (sections-InOrder (cursor + length s.payload) ss)

abbrev data_start : ℕ → ℕ
data_start count = 48 + count * 32

regions-InOrder :
    (ss : List Section)
    → InOrder 0 (
        regions
          (record { count = length ss; offset = 48; end = data_start (length ss) })
          (entries_of (data_start (length ss)) ss))
unfolding regions
regions-InOrder ss = (
  omega arith,
  omega arith,
  occupied-InOrder 48 48 (length ss * 32) _ (omega arith)
      (sections-InOrder (data_start (length ss)) ss),
)

-- What `build` can lay out: at most 4096 sections, of stored kinds that differ and that `from_raw`
-- gives back, within the size of a slice.
pub record IsBuildable (b : ContainerBuilder) : Type 0 where
  pub generation_fits : IsU64 b.generation
  pub few : length b.sections ≤ max_section_count
  pub fresh : AreFresh [] b.sections
  pub fits : 48 + length b.sections * 32 + length (payload_bytes b.sections) < max_length

abbrev pub image : ContainerBuilder → Bytes
image b =
    header_bytes b.generation (length b.sections)
    ++ (table_bytes (data_start (length b.sections)) b.sections ++ payload_bytes b.sections)

module _ (b : ContainerBuilder) (v : IsBuildable b) where
  abbrev n : ℕ
  n = length b.sections

  abbrev table : Bytes
  table = table_bytes (data_start n) b.sections

  abbrev payloads : Bytes
  payloads = payload_bytes b.sections

  build-image : build b ≡ ok (image b)
  unfolding build
  build-image = let few : ltb 4096 n ≡ false = let f = v.few in ground arith in rw few refl

  length-image : length (image b) ≡ 48 + n * 32 + length payloads
  length-image = omega (
    arith,
    length-append (header_bytes b.generation n) (table ++ payloads),
    length-append table payloads,
    length-header_bytes b.generation n [],
    length-table_bytes (data_start n) b.sections,
  )

  behind_header : drop 48 (image b) ≡ table ++ payloads
  behind_header =
      rw (length-header_bytes b.generation n []) at
        (drop-length-append (header_bytes b.generation n) (table ++ payloads))

  behind_table : drop (data_start n) (image b) ≡ payloads
  behind_table =
      drop-drop 48 (n * 32) (image b)
      ∙ ap (drop (n * 32)) behind_header
      ∙ rw (length-table_bytes (data_start n) b.sections) at (drop-length-append table payloads)

  pub parse-image :
      parse (image b) ≡ ok (record { generation = b.generation; sections = b.sections })
  unfolding parse
  parse-image =
      let fits : length (image b) < max_length = omega (arith, length-image, v.fits) in
      let h =
        check_header-header_bytes b.generation n (table ++ payloads) v.generation_fits v.few fits in
      let t =
        check_table-header_bytes b.generation n (table ++ payloads) v.generation_fits v.few fits
          (omega (arith, length-image)) in
      let p =
        plan-table_bytes (image b) fits b.sections 0 (data_start n) [] payloads behind_header
          (omega (arith, length-image)) (omega arith) (omega (arith, length-image)) v.fresh in
      let o = any_overlap-InOrder 0 _ (regions-InOrder b.sections) in
      let l =
        load_all-entries_of (image b) fits b.sections (data_start n) behind_table
          (omega (arith, length-image)) in
      rw h (rw t (rw p (rw o (rw l refl))))

  -- A buildable container is built, and `parse` of its bytes gives back its generation and its
  -- sections, in their order.
  pub parse-build :
      (bytes : Bytes) × (build b ≡ ok bytes)
      × (parse bytes ≡ ok (record { generation = b.generation; sections = b.sections }))
  parse-build = (image b, build-image, parse-image)
