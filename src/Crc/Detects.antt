-- ===== src/Crc/Detects.antt =====
-- The checksum is a 32-bit word, and it tells apart inputs that differ in one byte.
use Prim.Native.Nat.{bit_xor}
use nostdb_core.Base.{
  ℕ, zero, suc, ◌/◌, ◌%◌, ◌^◌, ◌≤◌, ◌<◌, ◌≡◌, ◌≢◌, refl, inl, inr, true, false, [], ◌∷◌, ◌++◌, ◌==◌,
  Bytes, IsByte, AllBytes, Bool-cases, arith,
}
use nostdb_core.Base.Bits.{bit_xor-lt, bit_xor-ge, bit_xor_right_cancel, bit_xor_left_cancel}
use nostdb_core.Crc.{polynomial_reversed, bit_round, bit_rounds, read_byte, register, crc32c}

polynomial-lt : polynomial_reversed < 2 ^ 32
polynomial-lt = omega arith

bit_round-lt : (c : ℕ) → c < 2 ^ 32 → bit_round c < 2 ^ 32
unfolding bit_round
bit_round-lt c h =
    ground (arith, bit_xor-lt 32 (c / 2) polynomial_reversed (omega arith) (omega arith))

-- An odd register leaves the top bit set, an even one leaves it clear.
bit_round_odd : (c : ℕ) → c < 2 ^ 32 → (c % 2 == 0) ≡ false → 2 ^ 31 ≤ bit_round c
unfolding bit_round
bit_round_odd c h odd =
    rw odd (bit_xor-ge 31 (c / 2) polynomial_reversed (omega arith) (omega arith) (omega arith))

bit_round_even : (c : ℕ) → c < 2 ^ 32 → (c % 2 == 0) ≡ true → bit_round c < 2 ^ 31
unfolding bit_round
bit_round_even c h even = rw even (omega arith)

bit_round_injective : (c d : ℕ) → c < 2 ^ 32 → d < 2 ^ 32 → bit_round c ≡ bit_round d → c ≡ d
unfolding bit_round
bit_round_injective c d hc hd e = elim (Bool-cases (c % 2 == 0)) [
  | inl ec ↦ elim (Bool-cases (d % 2 == 0)) [
    | inl ed ↦ ground arith
    | inr od ↦ absurd (omega (arith, bit_round_even c hc ec, bit_round_odd d hd od))
  ]
  | inr oc ↦ elim (Bool-cases (d % 2 == 0)) [
    | inl ed ↦ absurd (omega (arith, bit_round_even d hd ed, bit_round_odd c hc oc))
    | inr od ↦ ground (
      arith,
      bit_xor_right_cancel 32 (c / 2) (d / 2) polynomial_reversed (omega arith) (omega arith)
          polynomial-lt,
    )
  ]
]

bit_rounds-lt : (n c : ℕ) → c < 2 ^ 32 → bit_rounds n c < 2 ^ 32
unfolding bit_rounds
bit_rounds-lt zero c h = h
bit_rounds-lt (suc n) c h = bit_rounds-lt n (bit_round c) (bit_round-lt c h)

bit_rounds_injective :
    (n c d : ℕ) → c < 2 ^ 32 → d < 2 ^ 32 → bit_rounds n c ≡ bit_rounds n d → c ≡ d
unfolding bit_rounds
bit_rounds_injective zero c d hc hd e = e
bit_rounds_injective (suc n) c d hc hd e =
    bit_round_injective c d hc hd
      (bit_rounds_injective n (bit_round c) (bit_round d) (bit_round-lt c hc) (bit_round-lt d hd) e)

register-lt :
    (crc : ℕ) (bytes : Bytes) → crc < 2 ^ 32 → AllBytes bytes → register crc bytes < 2 ^ 32
unfolding register
register-lt crc [] h hb = h
register-lt crc (b ∷ bs) h (hb, hbs) =
    register-lt (read_byte crc b) bs (bit_rounds-lt 8 _ (bit_xor-lt 32 crc b h (omega arith))) hbs

-- Two registers that differ stay different, whatever is read.
register_injective :
    (c d : ℕ) (bytes : Bytes)
    → c < 2 ^ 32
    → d < 2 ^ 32
    → AllBytes bytes
    → register c bytes ≡ register d bytes
    → c ≡ d
unfolding register
register_injective c d [] hc hd hb e = e
register_injective c d (b ∷ bs) hc hd (hb, hbs) e =
    let wide : b < 2 ^ 32 = omega arith in
    let xc : bit_xor c b < 2 ^ 32 = bit_xor-lt 32 c b hc wide in
    let xd : bit_xor d b < 2 ^ 32 = bit_xor-lt 32 d b hd wide in
    bit_xor_right_cancel 32 c d b hc hd wide (
      bit_rounds_injective 8 _ _ xc xd (
        register_injective (read_byte c b) (read_byte d b) bs (bit_rounds-lt 8 _ xc)
          (bit_rounds-lt 8 _ xd) hbs e))

register-append : (c : ℕ) (xs ys : Bytes) → register c (xs ++ ys) ≡ register (register c xs) ys
unfolding register
register-append c [] ys = refl
register-append c (x ∷ xs) ys = register-append (read_byte c x) xs ys

-- The checksum of a byte string fits 32 bits.
pub crc32c-lt : (bytes : Bytes) → crc32c bytes < 2 ^ 32
unfolding crc32c
crc32c-lt bytes = omega arith

-- The checksums of two inputs of bytes that differ in exactly one byte are different, wherever the
-- byte stands.
pub crc32c_detects_byte :
    (before after : Bytes) (b b' : ℕ)
    → AllBytes before
    → AllBytes after
    → IsByte b
    → IsByte b'
    → b ≢ b'
    → crc32c (before ++ b ∷ after) ≢ crc32c (before ++ b' ∷ after)
unfolding crc32c
crc32c_detects_byte before after b b' hbefore hafter hb hb' differs e =
    let start : ℕ = register 0xFFFF_FFFF before in
    let hs : start < 2 ^ 32 = register-lt 0xFFFF_FFFF before (omega arith) hbefore in
    let wide : b < 2 ^ 32 = omega arith in
    let wide' : b' < 2 ^ 32 = omega arith in
    let x : bit_xor start b < 2 ^ 32 = bit_xor-lt 32 start b hs wide in
    let x' : bit_xor start b' < 2 ^ 32 = bit_xor-lt 32 start b' hs wide' in
    let end : register start (b ∷ after) < 2 ^ 32 = register-lt start (b ∷ after) hs (hb, hafter) in
    let end' : register start (b' ∷ after) < 2 ^ 32 =
      register-lt start (b' ∷ after) hs (hb', hafter) in
    let same : register start (b ∷ after) ≡ register start (b' ∷ after) = omega (
      arith,
      e,
      register-append 0xFFFF_FFFF before (b ∷ after),
      register-append 0xFFFF_FFFF before (b' ∷ after),
    ) in
    differs (
      bit_xor_left_cancel 32 b b' start wide wide' hs (
        bit_rounds_injective 8 _ _ x x' (
          register_injective _ _ after (bit_rounds-lt 8 _ x) (bit_rounds-lt 8 _ x') hafter
            (unfold register in same))))
