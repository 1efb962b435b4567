-- ===== src/Crc.antt =====
-- CRC-32C, `src/crc.rs`. A byte is a number below 256 and the register one below 2 ^ 32.
pub mod Detects
use Prim.Native.Nat.{bit_xor}
use nostdb_core.Base.{ℕ, zero, suc, ◌-◌, ◌/◌, ◌%◌, [], ◌∷◌, ◌==◌, if◌then◌else◌, Bytes}

abbrev pub polynomial_reversed : ℕ
polynomial_reversed = 0x82F6_3B78

-- The body of the loop over the eight bits. `crc & 1` is the remainder by 2.
unfoldable pub bit_round : ℕ → ℕ
bit_round crc = if crc % 2 == 0 then crc / 2 else bit_xor (crc / 2) polynomial_reversed

unfoldable pub bit_rounds : ℕ → ℕ → ℕ
bit_rounds zero crc = crc
bit_rounds (suc n) crc = bit_rounds n (bit_round crc)

-- One round of the loop over the bytes.
abbrev pub read_byte : ℕ → ℕ → ℕ
read_byte crc byte = bit_rounds 8 (bit_xor crc byte)

-- The loop over the bytes.
unfoldable pub register : ℕ → Bytes → ℕ
register crc [] = crc
register crc (byte ∷ rest) = register (read_byte crc byte) rest

-- `!crc` complements the 32 bits.
unfoldable pub crc32c : Bytes → ℕ
crc32c bytes = 0xFFFF_FFFF - register 0xFFFF_FFFF bytes
