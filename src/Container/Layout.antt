-- ===== src/Container/Layout.antt =====
-- The sections that `build` lays out, one behind the other: what the table plans for them.
use nostdb_core.Base.{
  max_length, drop-drop, ℕ, ◌+◌, ◌*◌, ◌≤◌, ◌<◌, ◌≡◌, refl, ap, ◌∙◌, true, false, List, [], ◌∷◌,
  ◌++◌, append_assoc, some, ◌==◌, ltb, Bytes, length, drop, length-append, drop-length-append,
  arith,
}
use nostdb_core.Base.Words.{u32_mod, checked_add_fits, checked_mul_fits, le_bytes}
use nostdb_core.Crc.{crc32c}
use nostdb_core.Crc.Detects.{crc32c-lt}
use nostdb_core.Container.Kind.{SectionKind, Section, ok, raw, from_raw}
use nostdb_core.Container.Parse.{
  Entry, read_entry, entry_base, plan, contains, load, load_all, u32_at, u64_at,
}
use nostdb_core.Container.Build.{entry_bytes, table_bytes, payload_bytes}
use nostdb_core.Container.Fields.{slice-drop, word_at-drop}

-- The kind is one that `from_raw` gives back.
abbrev pub IsCanonical : SectionKind → Type 0
IsCanonical kind = (from_raw (raw kind) ≡ ok kind) × (raw kind < u32_mod)

-- No stored kind occurs in `seen`, and none twice.
abbrev pub AreFresh : List ℕ → List Section → Type 0
AreFresh seen [] = Unit
AreFresh seen (s ∷ rest) =
    IsCanonical s.kind × (contains (raw s.kind) seen ≡ false) × AreFresh (raw s.kind ∷ seen) rest

unfoldable pub entries_of : ℕ → List Section → List Entry
entries_of cursor [] = []
entries_of cursor (s ∷ rest) =
    record {
      kind = s.kind;
      raw_kind = raw s.kind;
      offset = cursor;
      length = length s.payload;
      stored = crc32c s.payload;
    }
    ∷ entries_of (cursor + length s.payload) rest

pub length-table_bytes :
    (cursor : ℕ) (ss : List Section) → length (table_bytes cursor ss) ≡ length ss * 32
unfolding table_bytes entry_bytes le_bytes
length-table_bytes cursor [] = refl
length-table_bytes cursor (s ∷ rest) =
    omega (arith, length-table_bytes (cursor + length s.payload) rest)

module _ (bytes : Bytes) (fits : length bytes < max_length) (cursor : ℕ) (s : Section)
    (rest : Bytes) (base : ℕ) (here : drop base bytes ≡ entry_bytes cursor s ++ rest)
    (room : base + 32 ≤ length bytes) (canonical : IsCanonical s.kind) (above : 48 ≤ cursor)
    (inside : cursor + length s.payload ≤ length bytes) where
  abbrev pub entry_at : Entry
  entry_at = record {
    kind = s.kind;
    raw_kind = raw s.kind;
    offset = cursor;
    length = length s.payload;
    stored = crc32c s.payload;
  }

  -- The bytes of the entry from its field at `k` on.
  field : (k : ℕ) → drop (base + k) bytes ≡ drop k (entry_bytes cursor s ++ rest)
  field k = drop-drop base k bytes ∙ ap (drop k) here

  kind_at : u32_at bytes base ≡ some (raw s.kind)
  unfolding entry_bytes le_bytes
  kind_at =
      word_at-drop 4 (raw s.kind) bytes (drop 4 (entry_bytes cursor s ++ rest)) base here
        (omega arith) fits canonical.1

  reserved_at : u32_at bytes (base + 4) ≡ some 0
  unfolding entry_bytes le_bytes
  reserved_at = word_at-drop 4 0 bytes _ (base + 4) (field 4) (omega arith) fits (omega arith)

  offset_at : u64_at bytes (base + 8) ≡ some cursor
  unfolding entry_bytes le_bytes
  offset_at = word_at-drop 8 cursor bytes _ (base + 8) (field 8) (omega arith) fits (omega arith)

  length_at : u64_at bytes (base + 16) ≡ some (length s.payload)
  unfolding entry_bytes le_bytes
  length_at =
      word_at-drop 8 (length s.payload) bytes _ (base + 16) (field 16) (omega arith) fits
        (omega arith)

  stored_at : u32_at bytes (base + 24) ≡ some (crc32c s.payload)
  unfolding entry_bytes le_bytes
  stored_at =
      word_at-drop 4 (crc32c s.payload) bytes _ (base + 24) (field 24) (omega arith) fits
        (crc32c-lt s.payload)

  reserved'_at : u32_at bytes (base + 28) ≡ some 0
  unfolding entry_bytes le_bytes
  reserved'_at = word_at-drop 4 0 bytes _ (base + 28) (field 28) (omega arith) fits (omega arith)

  pub read_entry-entry_bytes : read_entry bytes base ≡ ok entry_at
  unfolding read_entry
  read_entry-entry_bytes =
      let e = checked_add_fits cursor (length s.payload) (omega arith) in
      let low : ltb cursor 48 ≡ false = ground arith in
      let high : ltb (length bytes) (cursor + length s.payload) ≡ false = ground arith in
      rw kind_at (
        rw reserved_at (
          rw reserved'_at (
            rw canonical.0
              (rw offset_at (rw length_at (rw stored_at (rw e (rw (low, high) refl))))))))

module _ (bytes : Bytes) (fits : length bytes < max_length) where
  entry_base-lt :
      (index : ℕ) → 48 + index * 32 ≤ length bytes → entry_base 48 index ≡ some (48 + index * 32)
  unfolding entry_base
  entry_base-lt index room =
      rw (checked_mul_fits index 32 (omega arith), entry_base)
        (checked_add_fits 48 (index * 32) (omega arith))

  -- The loop over the table plans the sections, from any index and any cursor.
  pub plan-table_bytes :
      (ss : List Section) (index cursor : ℕ) (seen : List ℕ) (rest : Bytes)
      → drop (48 + index * 32) bytes ≡ table_bytes cursor ss ++ rest
      → 48 + (index + length ss) * 32 ≤ length bytes
      → 48 ≤ cursor
      → cursor + length (payload_bytes ss) ≤ length bytes
      → AreFresh seen ss
      → plan (length ss) index bytes 48 seen ≡ ok (entries_of cursor ss)
  unfolding plan entries_of
  plan-table_bytes [] index cursor seen rest e room above inside fresh = refl
  plan-table_bytes (s ∷ ss) index cursor seen rest e room above inside (canonical, new, fresh) =
      let base : ℕ = 48 + index * 32 in
      let total : length (payload_bytes (s ∷ ss)) ≡ length s.payload + length (payload_bytes ss) =
        unfold payload_bytes in length-append s.payload (payload_bytes ss) in
      let later : Bytes = table_bytes (cursor + length s.payload) ss ++ rest in
      let here : drop base bytes ≡ entry_bytes cursor s ++ later =
        e
        ∙ unfold table_bytes in
          append_assoc (entry_bytes cursor s) (table_bytes (cursor + length s.payload) ss) rest in
      let behind : drop (48 + (index + 1) * 32) bytes ≡ later =
        ap (λ k. drop k bytes) (omega arith)
        ∙ drop-drop base 32 bytes
        ∙ ap (drop 32) here
        ∙ unfold entry_bytes le_bytes in refl in
      let entry =
        read_entry-entry_bytes bytes fits cursor s later base here (omega arith) canonical above
          (omega (arith, total)) in
      let ih =
        plan-table_bytes ss (index + 1) (cursor + length s.payload) (raw s.kind ∷ seen) rest behind
          (omega arith) (omega arith) (omega (arith, total)) fresh in
      rw (entry_base-lt index (omega arith)) (rw entry (rw new (rw ih refl)))

  -- The payloads are loaded, and their checksums match.
  pub load_all-entries_of :
      (ss : List Section) (cursor : ℕ)
      → drop cursor bytes ≡ payload_bytes ss
      → cursor + length (payload_bytes ss) ≤ length bytes
      → load_all bytes (entries_of cursor ss) ≡ ok ss
  unfolding load_all load entries_of
  load_all-entries_of [] cursor e room = refl
  load_all-entries_of (s ∷ ss) cursor e room =
      let total : length (payload_bytes (s ∷ ss)) ≡ length s.payload + length (payload_bytes ss) =
        unfold payload_bytes in length-append s.payload (payload_bytes ss) in
      let here : drop cursor bytes ≡ s.payload ++ payload_bytes ss =
        e ∙ unfold payload_bytes in refl in
      let found =
        slice-drop bytes s.payload (payload_bytes ss) cursor here (omega (arith, total)) in
      let behind : drop (cursor + length s.payload) bytes ≡ payload_bytes ss =
        drop-drop cursor (length s.payload) bytes
        ∙ ap (drop (length s.payload)) here
        ∙ drop-length-append s.payload (payload_bytes ss) in
      let sum : (crc32c s.payload == crc32c s.payload) ≡ true = ground arith in
      let ih = load_all-entries_of ss (cursor + length s.payload) behind (omega (arith, total)) in
      rw found (rw sum (rw ih refl))
