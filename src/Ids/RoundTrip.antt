-- ===== src/Ids/RoundTrip.antt =====
-- Every identifier is read back from its text.
use nostdb_core.Base.{
  strip_prefix, suc, sym, ltb, Bool, Bool-cases, inl, inr, ◌||◌, if◌then◌else◌, ℕ, ◌+◌, ◌*◌, ◌/◌,
  ◌%◌, ◌<◌, ◌≡◌, refl, ap, ◌∙◌, true, false, [], ◌∷◌, ◌++◌, append_assoc, append-nil, none, some,
  ◌==◌, Bytes, AllBytes, length, arith,
}
use nostdb_core.Ids.{
  is_continuation, is_hyphen, nibble, hex_value, encode, encode_from, ok, decode_from, decode,
  char_count, to_string, from_str,
}

hex_value-nibble : (v : ℕ) → v < 16 → hex_value (nibble v) ≡ some v
unfolding hex_value nibble
hex_value-nibble v h = ground arith

nibble-hyphen : (v : ℕ) → (nibble v == b'-') ≡ false
unfolding nibble
nibble-hyphen v = ground arith

-- The two digits of a byte, where no hyphen belongs.
decode_from-digits :
    (byte : ℕ) (rest : Bytes) (position : ℕ) (bytes : Bytes)
    → byte < 256
    → is_hyphen position ≡ false
    → is_hyphen (position + 1) ≡ false
    → decode_from (nibble (byte / 16) ∷ nibble (byte % 16) ∷ rest) position none bytes
      ≡ decode_from rest (position + 1 + 1) none (bytes ++ byte ∷ [])
unfolding decode_from
decode_from-digits byte rest position bytes small p q =
    let whole : byte / 16 * 16 + byte % 16 ≡ byte = omega arith in
    rw (p, nibble-hyphen (byte / 16), hex_value-nibble (byte / 16) (omega arith))
      (rw (q, nibble-hyphen (byte % 16), hex_value-nibble (byte % 16) (omega arith))
        (rw whole refl))

-- The indices of the bytes with a hyphen before them, and the place where byte `i` begins.
abbrev starts : ℕ → Bool
starts i = i == 4 || (i == 6 || (i == 8 || i == 10))

abbrev one_past : ℕ → ℕ → ℕ
one_past k i = if ltb k i then 1 else 0

place : ℕ → ℕ
place i = 2 * i + one_past 4 i + one_past 6 i + one_past 8 i + one_past 10 i

hyphen_at : (i : ℕ) → starts i ≡ true → is_hyphen (place i) ≡ true
unfolding is_hyphen place
hyphen_at i h = ground arith

hyphen_before :
    (i : ℕ)
    → starts i ≡ true
    → (is_hyphen (place i + 1) ≡ false)
      × (is_hyphen (place i + 1 + 1) ≡ false)
      × (place i + 1 + 1 + 1 ≡ place (i + 1))
unfolding is_hyphen place
hyphen_before i h = (ground arith, ground arith, ground arith)

no_hyphen :
    (i : ℕ)
    → starts i ≡ false
    → (is_hyphen (place i) ≡ false)
      × (is_hyphen (place i + 1) ≡ false)
      × (place i + 1 + 1 ≡ place (i + 1))
unfolding is_hyphen place
no_hyphen i h = (ground arith, ground arith, ground arith)

decode_from-encode_from :
    (i : ℕ) (bytes written : Bytes)
    → AllBytes bytes
    → decode_from (encode_from i bytes) (place i) none written ≡ ok (written ++ bytes)
unfolding decode_from encode_from
decode_from-encode_from i [] written h = ap ok (sym (append-nil written))
decode_from-encode_from i (byte ∷ rest) written h =
    let later : decode_from (encode_from (i + 1) rest) (place (i + 1)) none (written ++ byte ∷ [])
        ≡ ok (written ++ byte ∷ rest) =
      decode_from-encode_from (i + 1) rest (written ++ byte ∷ []) h.1
      ∙ ap ok (append_assoc written (byte ∷ []) rest) in
    elim (Bool-cases (starts i)) [
      | inl s ↦
          let (p, q, next) = hyphen_before i s in
          rw s (
            rw (hyphen_at i s)
              (decode_from-digits byte _ (place i + 1) written h.0 p q ∙ rw next later))
      | inr s ↦
          let (p, q, next) = no_hyphen i s in
          rw s (decode_from-digits byte _ (place i) written h.0 p q ∙ rw next later)
    ]

length-encode_from :
    (i : ℕ) (bytes : Bytes) → length (encode_from i bytes) + place i ≡ place (i + length bytes)
unfolding encode_from
length-encode_from i [] =
    let same : i ≡ i + 0 = omega arith in let end = ap place same in omega (arith, end)
length-encode_from i (byte ∷ rest) =
    let later = length-encode_from (i + 1) rest in
    let end : place (i + 1 + length rest) ≡ place (i + suc (length rest)) =
      ap place (omega arith) in
    elim (Bool-cases (starts i)) [
      | inl s ↦ let (p, q, next) = hyphen_before i s in rw s (omega (arith, later, end, next))
      | inr s ↦ let (p, q, next) = no_hyphen i s in rw s (omega (arith, later, end, next))
    ]

nibble-lt : (v : ℕ) → v < 16 → nibble v < 128
unfolding nibble
nibble-lt v h = ground arith

char_count-ascii :
    (byte : ℕ) (rest : Bytes) → byte < 128 → char_count (byte ∷ rest) ≡ char_count rest + 1
unfolding char_count is_continuation
char_count-ascii byte rest h = ground arith

char_count-encode_from :
    (i : ℕ) (bytes : Bytes)
    → AllBytes bytes
    → char_count (encode_from i bytes) ≡ length (encode_from i bytes)
unfolding encode_from char_count
char_count-encode_from i [] h = refl
char_count-encode_from i (byte ∷ rest) h =
    let later = char_count-encode_from (i + 1) rest h.1 in
    let low =
      char_count-ascii (nibble (byte % 16)) (encode_from (i + 1) rest)
        (nibble-lt _ (omega arith)) in
    let high =
      char_count-ascii (nibble (byte / 16)) (nibble (byte % 16) ∷ encode_from (i + 1) rest)
        (nibble-lt _ (let b = h.0 in omega arith)) in
    let dash =
      char_count-ascii b'-' (nibble (byte / 16) ∷ nibble (byte % 16) ∷ encode_from (i + 1) rest)
        (omega arith) in
    elim (Bool-cases (starts i)) [
      | inl s ↦ rw s (omega (arith, later, low, high, dash))
      | inr s ↦ rw s (omega (arith, later, low, high))
    ]

place_sixteen : (n m : ℕ) → m ≡ 16 → n + place 0 ≡ place (0 + m) → n ≡ 36
unfolding place
place_sixteen n m e h =
    let end : place (0 + m) ≡ place 16 = ap (λ k. place (0 + k)) e in
    let whole : n + 0 ≡ 36 = h ∙ end in omega (arith, whole)

decode-encode :
    (bytes : Bytes) → AllBytes bytes → length bytes ≡ 16 → decode (encode bytes) ≡ ok bytes
unfolding decode encode place
decode-encode bytes h n =
    let long : length (encode_from 0 bytes) ≡ 36 =
      place_sixteen _ _ n (length-encode_from 0 bytes) in
    let chars : char_count (encode_from 0 bytes) ≡ 36 = char_count-encode_from 0 bytes h ∙ long in
    rw chars (rw long (decode_from-encode_from 0 bytes [] h))

strip_prefix-append : (prefix text : Bytes) → strip_prefix prefix (prefix ++ text) ≡ some text
unfolding strip_prefix
strip_prefix-append [] text = refl
strip_prefix-append (p ∷ prefix) text = ground (arith, strip_prefix-append prefix text)

-- The text of an identifier of sixteen bytes is read back as those bytes, under the prefix that it
-- was written with.
pub from_str-to_string :
    (prefix bytes : Bytes)
    → AllBytes bytes
    → length bytes ≡ 16
    → from_str prefix (to_string prefix bytes) ≡ ok bytes
unfolding from_str to_string
from_str-to_string prefix bytes h n =
    rw (strip_prefix-append prefix (encode bytes), from_str) (decode-encode bytes h n)
