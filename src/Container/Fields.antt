-- ===== src/Container/Fields.antt =====
-- The header that `build` writes passes the first eight checks of `parse`.
use nostdb_core.Base.{
  max_length, ℕ, ◌+◌, ◌-◌, ◌*◌, ◌%◌, ◌^◌, ◌≤◌, ◌<◌, ◌≡◌, refl, ap, true, false, ◌++◌, some, ◌==◌,
  ltb, Bytes, length, drop, slice, length-append, le→leb, take-length-append, same_bytes, arith,
}
use nostdb_core.Base.Words.{
  u32_mod, u64_mod, checked_add, checked_mul, checked_add_fits, le_bytes, length-le_bytes,
  from_le-le_bytes,
}
use nostdb_core.Crc.{crc32c}
use nostdb_core.Crc.Detects.{crc32c-lt}
use nostdb_core.Generation.{Generation, IsU64}
use nostdb_core.Container.Kind.{ok}
use nostdb_core.Container.Parse.{
  magic, max_section_count, word_at, u32_at, u64_at, has_magic, check_header, check_table,
}
use nostdb_core.Container.Build.{header_fields, header_bytes}

pub slice-drop :
    (bytes xs rest : Bytes) (at : ℕ)
    → drop at bytes ≡ xs ++ rest
    → at + length xs ≤ length bytes
    → slice bytes at (at + length xs) ≡ some xs
unfolding slice
slice-drop bytes xs rest at e room =
    let width : at + length xs - at ≡ length xs = omega arith in
    rw (le→leb _ _ room, le→leb at (at + length xs) (omega arith), width, e)
      (ap some (take-length-append xs rest))

-- A word is read where its bytes stand.
pub word_at-drop :
    (w v : ℕ) (bytes rest : Bytes) (at : ℕ)
    → drop at bytes ≡ le_bytes w v ++ rest
    → at + w ≤ length bytes
    → length bytes < max_length
    → v < 256 ^ w
    → word_at w bytes at ≡ some v
unfolding word_at
word_at-drop w v bytes rest at e room fits hv =
    let found : slice bytes at (at + length (le_bytes w v)) ≡ some (le_bytes w v) =
      slice-drop bytes (le_bytes w v) rest at e (omega (arith, length-le_bytes w v)) in
    let found' : slice bytes at (at + w) ≡ some (le_bytes w v) =
      rw (length-le_bytes w v) at found in
    rw (checked_add_fits at w (omega arith), word_at)
      (rw (found', word_at) (ap some (from_le-le_bytes w v hv)))

module _ (g : Generation) (n : ℕ) (rest : Bytes) where
  abbrev file : Bytes
  file = header_bytes g n ++ rest

  pub length-header_bytes : length (header_bytes g n) ≡ 48
  unfolding header_bytes header_fields le_bytes
  length-header_bytes = refl

  long : 48 ≤ length file
  long = omega (arith, length-append (header_bytes g n) rest, length-header_bytes)

  module _ (hg : IsU64 g) (hn : n ≤ max_section_count) (fits : length file < max_length) where
    version_at : u32_at file 8 ≡ some 3
    unfolding header_bytes header_fields le_bytes
    version_at = word_at-drop 4 3 file _ 8 refl (omega (arith, long)) fits (omega arith)

    header_length_at : u32_at file 12 ≡ some 48
    unfolding header_bytes header_fields le_bytes
    header_length_at = word_at-drop 4 48 file _ 12 refl (omega (arith, long)) fits (omega arith)

    generation_at : u64_at file 16 ≡ some g
    unfolding header_bytes header_fields le_bytes
    generation_at = word_at-drop 8 g file _ 16 refl (omega (arith, long)) fits (hg)

    offset_at : u64_at file 24 ≡ some 48
    unfolding header_bytes header_fields le_bytes
    offset_at = word_at-drop 8 48 file _ 24 refl (omega (arith, long)) fits (omega arith)

    count_at : u32_at file 32 ≡ some (n % u32_mod)
    unfolding header_bytes header_fields le_bytes
    count_at = word_at-drop 4 (n % u32_mod) file _ 32 refl (omega (arith, long)) fits (omega arith)

    flags_at : u32_at file 36 ≡ some 0
    unfolding header_bytes header_fields le_bytes
    flags_at = word_at-drop 4 0 file _ 36 refl (omega (arith, long)) fits (omega arith)

    reserved_at : u32_at file 40 ≡ some 0
    unfolding header_bytes header_fields le_bytes
    reserved_at = word_at-drop 4 0 file _ 40 refl (omega (arith, long)) fits (omega arith)

    checksum_at : u32_at file 44 ≡ some (crc32c (header_fields g n))
    unfolding header_bytes header_fields le_bytes
    checksum_at =
        word_at-drop 4 (crc32c (header_fields g n)) file _ 44 refl (omega (arith, long)) fits
          (crc32c-lt (header_fields g n))

    covered_at : slice file 0 44 ≡ some (header_fields g n)
    unfolding header_bytes header_fields le_bytes
    covered_at =
        slice-drop file (header_fields g n) (le_bytes 4 (crc32c (header_fields g n)) ++ rest) 0 refl
          (omega (arith, long))

    magic_at : has_magic file ≡ true
    unfolding has_magic header_bytes header_fields le_bytes same_bytes
    magic_at =
        let front : slice file 0 8 ≡ some magic =
          slice-drop file magic (drop 8 file) 0 refl (omega (arith, long)) in
        rw (front, has_magic) refl

    pub check_header-header_bytes : check_header file ≡ ok g
    unfolding check_header
    check_header-header_bytes =
        let short : ltb (length file) 48 ≡ false = let l = long in ground arith in
        let sum : (crc32c (header_fields g n) == crc32c (header_fields g n)) ≡ true =
          ground arith in
        rw short (
          rw magic_at (
            rw version_at (
              rw header_length_at (
                rw covered_at (
                  rw checksum_at
                    (rw sum (rw flags_at (rw reserved_at (rw generation_at refl)))))))))

    pub check_table-header_bytes :
        48 + n * 32 ≤ length file
        → check_table file ≡ ok (record { count = n; offset = 48; end = 48 + n * 32 })
    unfolding check_table checked_mul checked_add
    check_table-header_bytes room =
        let small : n % u32_mod ≡ n = omega arith in
        let few : ltb 4096 n ≡ false = ground arith in
        let product : ltb (n * 32) u64_mod ≡ true = ground arith in
        let sum : ltb (48 + n * 32) u64_mod ≡ true = ground arith in
        let inside : ltb (length file) (48 + n * 32) ≡ false = ground arith in
        rw count_at (rw small (rw few (rw offset_at (rw product (rw sum (rw inside refl))))))
