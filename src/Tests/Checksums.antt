-- ===== src/Tests/Checksums.antt =====
-- CRC-32C on the inputs of the tests of `src/crc.rs`.
use nostdb_core.Base.{◌≡◌, ◌≢◌, refl, [], ◌∷◌, ◌++◌, arith}
use nostdb_core.Crc.{crc32c, register, bit_rounds, bit_round}
use nostdb_core.Crc.Detects.{crc32c_detects_byte}

-- `CHECK_VALUE`, of "123456789".
check_value :
    crc32c (b'1' ∷ b'2' ∷ b'3' ∷ b'4' ∷ b'5' ∷ b'6' ∷ b'7' ∷ b'8' ∷ b'9' ∷ []) ≡ 0xE306_9283
unfolding crc32c register bit_rounds bit_round
check_value = refl

empty_input : crc32c [] ≡ 0
unfolding crc32c register bit_rounds bit_round
empty_input = refl

crc32c_detects_byte_example : crc32c ((1 ∷ []) ++ 2 ∷ 3 ∷ []) ≢ crc32c ((1 ∷ []) ++ 4 ∷ 3 ∷ [])
crc32c_detects_byte_example =
    crc32c_detects_byte (1 ∷ []) (3 ∷ []) 2 4 (omega arith) (omega arith) (omega arith)
      (omega arith) (omega arith)
