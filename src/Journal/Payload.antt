-- ===== src/Journal/Payload.antt =====
-- `decode_payload` and `read_header` read back what `encode` wrote.
use nostdb_core.Base.{
  max_length, ℕ, ◌+◌, ◌%◌, ◌<◌, ◌≡◌, refl, [], ◌++◌, append-nil, append_assoc, some, Bytes, length,
  length-append, arith,
}
use nostdb_core.Base.Words.{u32_mod, u64_mod, le_bytes, length-le_bytes}
use nostdb_core.Journal.Record.{
  JournalRecord, begin, promote, remove, commit, kind, string_bytes, payload,
}
use nostdb_core.Journal.Cursor.{done, decode_kind, decode_payload}
use nostdb_core.Journal.Replay.{read_header}
use nostdb_core.Journal.Codec.{
  IsValid, Before, step, start, start-Before, done-Before, step-Before, read_u32-Before,
  read_u64-Before, read_string-Before, step-Before_string,
}

length-string_bytes : (s : Bytes) → length (string_bytes s) ≡ length s + 4
unfolding string_bytes
length-string_bytes s = omega (
  arith,
  length-append (le_bytes 4 (length s % u32_mod)) s,
  length-le_bytes 4 (length s % u32_mod),
)

pub length-payload : (r : JournalRecord) → IsValid r → length (payload r) < u32_mod
unfolding payload
length-payload (begin g) h = omega (arith, length-le_bytes 8 g)
length-payload (promote s d) (us, ud, h) = omega (
  arith,
  length-append (string_bytes s) (string_bytes d),
  length-string_bytes s,
  length-string_bytes d,
)
length-payload (remove p) (u, h) = omega (arith, length-string_bytes p)
length-payload commit h = omega arith

decode_begin : (g : ℕ) → g < u64_mod → decode_payload 1 (le_bytes 8 g) ≡ some (begin g)
unfolding decode_payload decode_kind start
decode_begin g h =
    let c = start (le_bytes 8 g) in
    let b = start-Before (le_bytes 8 g) (omega (arith, length-le_bytes 8 g)) in
    rw (read_u64-Before c g [] b h)
      (rw (done-Before (step 8 c) (step-Before c 8 (le_bytes 8 g) [] b (length-le_bytes 8 g))) refl)

decode_promote :
    (s d : Bytes)
    → IsValid (promote s d)
    → decode_payload 2 (string_bytes s ++ string_bytes d) ≡ some (promote s d)
unfolding decode_payload decode_kind start
decode_promote s d (us, ud, h) =
    let body = string_bytes s ++ string_bytes d in
    let c = start body in
    let small : length body < max_length = omega (
      arith,
      length-append (string_bytes s) (string_bytes d),
      length-string_bytes s,
      length-string_bytes d,
    ) in
    let b : Before c (string_bytes s ++ (string_bytes d ++ [])) =
      rw (append_assoc (string_bytes s) (string_bytes d) []) at (start-Before body small) in
    let c' = step (length s) (step 4 c) in
    let hs : length s < u32_mod = omega arith in
    let hd : length d < u32_mod = omega arith in
    let b' : Before c' (string_bytes d ++ []) =
      step-Before_string c s (string_bytes d ++ []) b hs in
    let b'' = step-Before_string c' d [] b' hd in
    rw (read_string-Before c s (string_bytes d ++ []) b hs us)
      (rw (read_string-Before c' d [] b' hd ud) (rw (done-Before _ b'') refl))

decode_remove :
    (p : Bytes) → IsValid (remove p) → decode_payload 3 (string_bytes p) ≡ some (remove p)
unfolding decode_payload decode_kind start
decode_remove p (u, h) =
    let c = start (string_bytes p) in
    let b = start-Before (string_bytes p) (omega (arith, length-string_bytes p)) in
    let hp : length p < u32_mod = omega arith in
    rw (read_string-Before c p [] b hp u) (rw (done-Before _ (step-Before_string c p [] b hp)) refl)

-- A payload is read back under its own kind.
pub decode_payload-payload :
    (r : JournalRecord) → IsValid r → decode_payload (kind r) (payload r) ≡ some r
unfolding payload kind
decode_payload-payload (begin g) h = decode_begin g h
decode_payload-payload (promote s d) h = decode_promote s d h
decode_payload-payload (remove p) h = decode_remove p h
decode_payload-payload commit h = unfold decode_payload decode_kind done in refl

abbrev pub header : ℕ → ℕ → ℕ → Bytes
header kind length crc = le_bytes 4 kind ++ (le_bytes 4 length ++ le_bytes 4 crc)

pub length-header : (k l crc : ℕ) → length (header k l crc) ≡ 12
length-header k l crc = omega (
  arith,
  length-append (le_bytes 4 k) (le_bytes 4 l ++ le_bytes 4 crc),
  length-append (le_bytes 4 l) (le_bytes 4 crc),
  length-le_bytes 4 k,
  length-le_bytes 4 l,
  length-le_bytes 4 crc,
)

pub read_header-header :
    (k l crc : ℕ)
    → k < u32_mod
    → l < u32_mod
    → crc < u32_mod
    → read_header (header k l crc) ≡ some (k, l, crc)
unfolding read_header start
read_header-header k l crc hk hl hc =
    let c = start (header k l crc) in
    let b : Before c (le_bytes 4 k ++ (le_bytes 4 l ++ (le_bytes 4 crc ++ []))) =
      rw append-nil
        (rw append-nil at (start-Before (header k l crc) (omega (arith, length-header k l crc)))) in
    let b' =
      step-Before c 4 (le_bytes 4 k) (le_bytes 4 l ++ (le_bytes 4 crc ++ [])) b
        (length-le_bytes 4 k) in
    let b'' =
      step-Before (step 4 c) 4 (le_bytes 4 l) (le_bytes 4 crc ++ []) b' (length-le_bytes 4 l) in
    rw (read_u32-Before c k _ b hk) (
      rw (read_u32-Before (step 4 c) l _ b' hl)
        (rw (read_u32-Before (step 4 (step 4 c)) crc [] b'' hc) refl))
