-- ===== src/Journal/Prefix.antt =====
-- The loop of `replay` on a journal that was cut at any byte: it reads the records whose bytes are
-- all there, and reports whether the cut was inside a record.
use Prim.Native.Nat.{min}
use nostdb_core.Base.{
  max_length, ℕ, zero, suc, ◌+◌, ◌-◌, ◌%◌, ◌≤◌, ◌<◌, ◌≡◌, refl, sym, ap, ◌∙◌, Bool, true, false,
  not, List, [], ◌∷◌, ◌++◌, inl, inr, append-nil, append_assoc, none, some, ◌==◌, ltb, leb,
  if◌then◌else◌, Bytes, Bool-cases, length, take, slice_past, length-append, length-take, leb→le,
  lt→ltb, take-append_le, take-append_ge, arith,
}
use nostdb_core.Base.Words.{u32_mod, u64_mod, checked_add_fits, le_bytes}
use nostdb_core.Crc.{crc32c}
use nostdb_core.Crc.Detects.{crc32c-lt}
use nostdb_core.Journal.Record.{JournalRecord, kind, payload, covered, frame, encode}
use nostdb_core.Journal.Cursor.{Cursor}
use nostdb_core.Journal.Replay.{read_header, read_record, read_records, encode_all}
use nostdb_core.Journal.Codec.{
  IsValid, AllValid, Before, step, step-Before, slice-Before, checked_add-Before,
}
use nostdb_core.Journal.Payload.{
  header, length-header, read_header-header, length-payload, decode_payload-payload,
}

-- The records of which all bytes are among the first `n`.
unfoldable pub intact : ℕ → List JournalRecord → List JournalRecord
intact n [] = []
intact n (r ∷ rs) =
    let later = intact (n - length (encode r)) rs in
    if leb (length (encode r)) n then r ∷ later else []

-- Whether the first `n` bytes end inside a record.
unfoldable pub is_torn : ℕ → List JournalRecord → Bool
is_torn n [] = false
is_torn n (r ∷ rs) =
    let later = is_torn (n - length (encode r)) rs in
    if leb (length (encode r)) n then later else not (n == 0)

kind-lt : (r : JournalRecord) → kind r < u32_mod
unfolding kind
kind-lt (JournalRecord.begin g) = omega arith
kind-lt _ = omega arith

abbrev checksum : JournalRecord → ℕ
checksum r = crc32c (covered (kind r) (length (payload r)) (payload r))

abbrev head : JournalRecord → Bytes
head r = header (kind r) (length (payload r)) (checksum r)

small : (r : JournalRecord) → IsValid r → length (payload r) % u32_mod ≡ length (payload r)
small r v = omega (arith, length-payload r v)

encode-header : (r : JournalRecord) → IsValid r → encode r ≡ head r ++ payload r
unfolding encode frame
encode-header r v =
    let k = le_bytes 4 (kind r) in
    let l = le_bytes 4 (length (payload r)) in
    let c = le_bytes 4 (checksum r) in
    rw (small r v)
      (sym (append_assoc k (l ++ c) (payload r) ∙ ap (λ t. k ++ t) (append_assoc l c (payload r))))

pub length-encode : (r : JournalRecord) → IsValid r → length (encode r) ≡ 12 + length (payload r)
length-encode r v =
    rw (encode-header r v)
      (omega (arith, length-append (head r) (payload r), length-header (kind r) _ (checksum r)))

saturating :
    (bytes : Bytes) (at : ℕ)
    → at ≤ length bytes
    → length bytes < max_length
    → min (at + 12) (u64_mod - 1) ≡ at + 12
saturating bytes at h f = omega arith

read_head :
    (r : JournalRecord)
    → IsValid r
    → read_header (head r) ≡ some (kind r, length (payload r), checksum r)
read_head r v =
    read_header-header (kind r) (length (payload r)) (checksum r) (kind-lt r) (length-payload r v)
      (crc32c-lt (covered (kind r) (length (payload r)) (payload r)))

same : (n : ℕ) → (n == n) ≡ true
same n = ground arith

-- A whole record at `at` is read, and the next one begins behind it.
read_record-encode :
    (bytes : Bytes) (at : ℕ) (r : JournalRecord) (rest : Bytes)
    → IsValid r
    → Before (record { bytes = bytes; at = at }) (encode r ++ rest)
    → read_record bytes at ≡ some (r, at + length (encode r))
unfolding read_record
read_record-encode bytes at r rest v b =
    let c : Cursor = record { bytes = bytes; at = at } in
    let b' : Before c (head r ++ (payload r ++ rest)) =
      rw (encode-header r v, append_assoc (head r) (payload r) rest) at b in
    let twelve = length-header (kind r) (length (payload r)) (checksum r) in
    let inside : at ≤ length bytes = omega (arith, b.place) in
    let b'' = step-Before c 12 (head r) (payload r ++ rest) b' twelve in
    let body = slice-Before (step 12 c) (length (payload r)) (payload r) rest b'' refl in
    let room = checked_add-Before (step 12 c) (length (payload r)) (payload r) rest b'' refl in
    let total : at + 12 + length (payload r) ≡ at + length (encode r) =
      omega (arith, length-encode r v) in
    rw (saturating bytes at inside b.fits) (
      rw (slice-Before c 12 (head r) (payload r ++ rest) b' twelve) (
        rw (read_head r v) (
          rw room (
            rw body (
              rw (small r v) (
                rw (same (checksum r))
                  (rw (decode_payload-payload r v) (ap (λ k. some (r, k)) total))))))))

-- A record that is cut short is not read.
read_record_torn :
    (bytes : Bytes) (at n : ℕ) (r : JournalRecord)
    → IsValid r
    → n < length (encode r)
    → Before (record { bytes = bytes; at = at }) (take n (encode r))
    → read_record bytes at ≡ none
unfolding read_record
read_record_torn bytes at n r v short b =
    let c : Cursor = record { bytes = bytes; at = at } in
    let twelve = length-header (kind r) (length (payload r)) (checksum r) in
    let whole : length (take n (encode r)) ≡ n = omega (arith, length-take n (encode r)) in
    let inside : at ≤ length bytes = omega (arith, b.place) in
    rw (saturating bytes at inside b.fits) (elim (Bool-cases (leb 12 n)) [
      | inr less ↦ rw (slice_past bytes at (at + 12) (ground (arith, b.place, whole))) refl
      | inl more ↦
          let long : 12 ≤ n = leb→le 12 n more in
          let split : take n (encode r) ≡ head r ++ take (n - 12) (payload r) =
            rw (encode-header r v) (
              take-append_ge n (head r) (payload r) (omega (arith, twelve))
              ∙ ap (λ k. head r ++ take (n - k) (payload r)) twelve) in
          let b' : Before c (head r ++ take (n - 12) (payload r)) = rw split at b in
          rw (slice-Before c 12 (head r) (take (n - 12) (payload r)) b' twelve) (
            rw (read_head r v) (
              rw
                (checked_add_fits (at + 12) (length (payload r))
                  (omega (arith, length-payload r v, b.fits)))
                (rw
                  (slice_past bytes (at + 12) (at + 12 + length (payload r))
                    (omega (arith, b.place, whole, length-encode r v)))
                  refl)))
    ])

-- The loop's test.
at_end :
    (bytes : Bytes) (at : ℕ)
    → Before (record { bytes = bytes; at = at }) []
    → ltb at (length bytes) ≡ false
at_end bytes at b = let e : at ≡ length bytes = omega (arith, b.place) in ground arith

-- One round of the loop.
round_reads :
    (fuel : ℕ) (bytes : Bytes) (at : ℕ) (acc : List JournalRecord) (r : JournalRecord) (next : ℕ)
    → at < length bytes
    → read_record bytes at ≡ some (r, next)
    → read_records (suc fuel) bytes at acc ≡ read_records fuel bytes next (acc ++ r ∷ [])
unfolding read_records
round_reads fuel bytes at acc r next h e = rw (lt→ltb at _ h) (rw e refl)

round_torn :
    (fuel : ℕ) (bytes : Bytes) (at : ℕ) (acc : List JournalRecord)
    → at < length bytes
    → read_record bytes at ≡ none
    → read_records (suc fuel) bytes at acc ≡ some (acc, true)
unfolding read_records
round_torn fuel bytes at acc h e = rw (lt→ltb at _ h) (rw e refl)

round_ends :
    (fuel : ℕ) (bytes : Bytes) (at : ℕ) (acc : List JournalRecord)
    → Before (record { bytes = bytes; at = at }) []
    → read_records (suc fuel) bytes at acc ≡ some (acc, false)
unfolding read_records
round_ends fuel bytes at acc b = rw (at_end bytes at b) refl

-- What is left once the first record is known to be whole, and once it is known to be cut.
module _ (n : ℕ) (r : JournalRecord) (rs : List JournalRecord) where
  take-whole :
      length (encode r) ≤ n
      → take n (encode_all (r ∷ rs)) ≡ encode r ++ take (n - length (encode r)) (encode_all rs)
  unfolding encode_all
  take-whole h = take-append_ge n (encode r) (encode_all rs) h

  take-cut : n < length (encode r) → take n (encode_all (r ∷ rs)) ≡ take n (encode r)
  unfolding encode_all
  take-cut h = take-append_le n (encode r) (encode_all rs) (omega arith)

  intact-whole :
      leb (length (encode r)) n ≡ true
      → (intact n (r ∷ rs) ≡ r ∷ intact (n - length (encode r)) rs)
        × (is_torn n (r ∷ rs) ≡ is_torn (n - length (encode r)) rs)
  unfolding intact is_torn
  intact-whole h = (rw h refl, rw h refl)

  intact-cut :
      leb (length (encode r)) n ≡ false
      → (intact n (r ∷ rs) ≡ []) × (is_torn n (r ∷ rs) ≡ not (n == 0))
  unfolding intact is_torn
  intact-cut h = (rw h refl, rw h refl)

cut_record :
    (fuel : ℕ) (bytes : Bytes) (at n : ℕ) (r : JournalRecord) (acc : List JournalRecord)
    → IsValid r
    → n < length (encode r)
    → Before (record { bytes = bytes; at = at }) (take n (encode r))
    → read_records (suc fuel) bytes at acc ≡ some (acc, not (n == 0))
cut_record fuel bytes at zero r acc v short b = round_ends fuel bytes at acc b
cut_record fuel bytes at (suc n) r acc v short b =
    let whole = length-take (suc n) (encode r) in
    let test : (suc n == 0) ≡ false = ground arith in
    rw test (
      round_torn fuel bytes at acc (omega (arith, b.place, whole))
        (read_record_torn bytes at (suc n) r v short b))

pub read_records_prefix :
    (fuel : ℕ) (bytes : Bytes) (at n : ℕ) (rs acc : List JournalRecord)
    → AllValid rs
    → length bytes < at + fuel
    → Before (record { bytes = bytes; at = at }) (take n (encode_all rs))
    → read_records fuel bytes at acc ≡ some (acc ++ intact n rs, is_torn n rs)
read_records_prefix zero bytes at n rs acc v f b = absurd (omega (arith, b.place))
read_records_prefix (suc fuel) bytes at zero [] acc v f b =
    round_ends fuel bytes at acc (unfold encode_all in b)
    ∙ unfold intact is_torn in rw append-nil refl
read_records_prefix (suc fuel) bytes at (suc n) [] acc v f b =
    round_ends fuel bytes at acc (unfold encode_all in b)
    ∙ unfold intact is_torn in rw append-nil refl
read_records_prefix (suc fuel) bytes at n (r ∷ rs) acc (v, vs) f b =
    elim (Bool-cases (leb (length (encode r)) n)) [
      | inl whole ↦
          let c : Cursor = record { bytes = bytes; at = at } in
          let m = length (encode r) in
          let b' = rw (take-whole n r rs (leb→le m n whole)) at b in
          let later = take (n - m) (encode_all rs) in
          let room : at < length bytes =
            omega (arith, b'.place, length-append (encode r) later, length-encode r v) in
          let ih =
            read_records_prefix fuel bytes (at + m) (n - m) rs (acc ++ r ∷ []) vs
              (omega (arith, length-encode r v)) (step-Before c m (encode r) later b' refl) in
          let (read, tear) = intact-whole n r rs whole in
          round_reads fuel bytes at acc r (at + m) room (read_record-encode bytes at r later v b')
          ∙ ih
          ∙ rw (read, tear, append_assoc acc (r ∷ []) (intact (n - m) rs)) refl
      | inr cut ↦
          let short : n < length (encode r) = ground arith in
          let b' = rw (take-cut n r rs short) at b in
          let (read, tear) = intact-cut n r rs cut in
          rw (read, tear, append-nil acc) (cut_record fuel bytes at n r acc v short b')
    ]
