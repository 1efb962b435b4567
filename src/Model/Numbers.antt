-- ===== src/Model/Numbers.antt =====
-- `FiniteF64` (`src/property.rs`) and `Score` (`src/evidence.rs`). A floating-point number is its
-- IEEE 754 bit pattern: the sign, then the exponent, then the fraction.
use nostdb_core.Base.{ℕ, ◌/◌, ◌%◌, ◌^◌, Bool, not, ◌||◌, ◌==◌, leb, if◌then◌else◌}
use nostdb_core.Base.Results.{Result, ok, err}

pub data NumberError : Type 0 where
  not_finite : NumberError

pub data ScoreError : Type 0 where
  not_finite out_of_range : ScoreError

-- `f64::is_finite`: the exponent is not all ones.
abbrev pub is_finite_f64 : ℕ → Bool
is_finite_f64 bits = not (bits / 2 ^ 52 % 2 ^ 11 == 2047)

abbrev pub is_finite_f32 : ℕ → Bool
is_finite_f32 bits = not (bits / 2 ^ 23 % 2 ^ 8 == 255)

abbrev pub negative_zero_f64 : ℕ
negative_zero_f64 = 2 ^ 63

abbrev pub negative_zero_f32 : ℕ
negative_zero_f32 = 2 ^ 31

-- 1.0
abbrev pub one_f32 : ℕ
one_f32 = 0x3F800000

-- `FiniteF64::new`; negative zero becomes zero.
unfoldable pub finite_f64 : ℕ → Result NumberError ℕ
finite_f64 bits =
    if is_finite_f64 bits
    then ok (if bits == negative_zero_f64 then 0 else bits)
    else err NumberError.not_finite

-- `Score::new`: non-negative patterns are ordered as the numbers are, and negative zero is in range.
unfoldable pub score : ℕ → Result ScoreError ℕ
score bits =
    if not (is_finite_f32 bits)
    then err ScoreError.not_finite
    else if not (leb bits one_f32 || bits == negative_zero_f32)
    then err out_of_range
    else ok (if bits == negative_zero_f32 then 0 else bits)
