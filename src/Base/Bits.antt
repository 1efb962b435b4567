-- ===== src/Base/Bits.antt =====
-- Laws of `bit_xor` at every width, from its recursion on binary digits.
use Prim.Native.Nat.{
  ℕ, zero, suc, ◌+◌, ◌*◌, ◌/◌, ◌%◌, ◌-◌, ◌^◌, ◌≤◌, ◌<◌, bit_xor, digits, differ, bit_xor-bitwise,
}
use mathlib.Core.Path.{◌≡◌, refl, ap, sym, ◌∙◌}
use native.Mathlib.Omega.{arith}
use native.Mathlib.Nat.{pow-suc}

abbrev xor_digits : ℕ → ℕ → ℕ → ℕ
xor_digits n a b = digits (λ b. b) differ n a b

digits_at_zero : (fuel b : ℕ) → xor_digits fuel 0 b ≡ b
digits_at_zero zero b = refl
digits_at_zero (suc _) b = refl

spare_fuel : (fuel spare a b : ℕ) → a ≤ fuel → xor_digits (fuel + spare) a b ≡ xor_digits fuel a b
spare_fuel fuel spare zero b h = digits_at_zero (fuel + spare) b ∙ sym (digits_at_zero fuel b)
spare_fuel zero spare (suc a) b h = absurd (omega arith)
spare_fuel (suc fuel) spare (suc a) b h =
    let next : suc fuel + spare ≡ suc (fuel + spare) = omega arith in
    ap (λ k. xor_digits k (suc a) b) next
    ∙ ap (λ high. high * 2 + differ (suc a % 2) (b % 2))
        (spare_fuel fuel spare (suc a / 2) (b / 2) (omega arith))

-- The fuel that `bit_xor` takes for the higher digits is more than they need.
fuel_of_half : (a b : ℕ) → xor_digits a (suc a / 2) b ≡ xor_digits (suc a / 2) (suc a / 2) b
fuel_of_half a b =
    let half : ℕ = suc a / 2 in
    let split : a ≡ half + (a - half) = omega arith in
    ap (λ fuel. xor_digits fuel half b) split ∙ spare_fuel half (a - half) half b (omega arith)

differ_bits : (x y : ℕ) → x < 2 → y < 2 → differ x y ≡ (x + y) % 2
differ_bits zero y p q = omega arith
differ_bits (suc zero) zero p q = refl
differ_bits (suc zero) (suc zero) p q = refl
differ_bits (suc zero) (suc (suc y)) p q = absurd (omega arith)
differ_bits (suc (suc x)) y p q = absurd (omega arith)

-- The lowest digit and the rest.
pub bit_xor_step : (a b : ℕ) → bit_xor a b ≡ bit_xor (a / 2) (b / 2) * 2 + (a % 2 + b % 2) % 2
bit_xor_step zero b = omega (arith, bit_xor-bitwise 0 b, bit_xor-bitwise 0 (b / 2))
bit_xor_step (suc a) b = omega (
  arith,
  bit_xor-bitwise (suc a) b,
  bit_xor-bitwise (suc a / 2) (b / 2),
  fuel_of_half a (b / 2),
  differ_bits (suc a % 2) (b % 2) (omega arith) (omega arith),
)

halves : (n x : ℕ) → x < 2 ^ suc n → x / 2 < 2 ^ n
halves n x h = omega (arith, pow-suc 2 n)

pub bit_xor-lt : (n a b : ℕ) → a < 2 ^ n → b < 2 ^ n → bit_xor a b < 2 ^ n
bit_xor-lt zero zero zero p q = omega arith
bit_xor-lt zero zero (suc b) p q = absurd (omega arith)
bit_xor-lt zero (suc a) b p q = absurd (omega arith)
bit_xor-lt (suc n) a b p q = omega (
  arith,
  pow-suc 2 n,
  bit_xor_step a b,
  bit_xor-lt n (a / 2) (b / 2) (halves n a p) (halves n b q),
)

-- The highest digit of `b` stays set if `a` does not reach it.
pub bit_xor-ge : (n a b : ℕ) → a < 2 ^ n → 2 ^ n ≤ b → b < 2 ^ suc n → 2 ^ n ≤ bit_xor a b
bit_xor-ge zero a b p q r = omega (arith, bit_xor_step a b)
bit_xor-ge (suc n) a b p q r = omega (
  arith,
  pow-suc 2 n,
  bit_xor_step a b,
  bit_xor-ge n (a / 2) (b / 2) (halves n a p) (omega (arith, pow-suc 2 n)) (halves (suc n) b r),
)

pub bit_xor_comm : (n a b : ℕ) → a < 2 ^ n → b < 2 ^ n → bit_xor a b ≡ bit_xor b a
bit_xor_comm zero zero zero p q = refl
bit_xor_comm zero zero (suc b) p q = absurd (omega arith)
bit_xor_comm zero (suc a) b p q = absurd (omega arith)
bit_xor_comm (suc n) a b p q = omega (
  arith,
  bit_xor_step a b,
  bit_xor_step b a,
  bit_xor_comm n (a / 2) (b / 2) (halves n a p) (halves n b q),
)

-- The exclusive or with the same number undoes itself.
pub bit_xor_self_inverse : (n a b : ℕ) → a < 2 ^ n → b < 2 ^ n → bit_xor (bit_xor a b) b ≡ a
bit_xor_self_inverse zero zero zero p q = refl
bit_xor_self_inverse zero zero (suc b) p q = absurd (omega arith)
bit_xor_self_inverse zero (suc a) b p q = absurd (omega arith)
bit_xor_self_inverse (suc n) a b p q =
    let x : ℕ = bit_xor a b in
    let upper : x / 2 ≡ bit_xor (a / 2) (b / 2) = omega (arith, bit_xor_step a b) in
    omega (
      arith,
      bit_xor_step x b,
      bit_xor_step a b,
      ap (λ k. bit_xor k (b / 2)) upper,
      bit_xor_self_inverse n (a / 2) (b / 2) (halves n a p) (halves n b q),
    )

pub bit_xor_right_cancel :
    (n a b c : ℕ) → a < 2 ^ n → b < 2 ^ n → c < 2 ^ n → bit_xor a c ≡ bit_xor b c → a ≡ b
bit_xor_right_cancel n a b c p q r e =
    sym (bit_xor_self_inverse n a c p r) ∙ ap (λ k. bit_xor k c) e ∙ bit_xor_self_inverse n b c q r

pub bit_xor_left_cancel :
    (n a b c : ℕ) → a < 2 ^ n → b < 2 ^ n → c < 2 ^ n → bit_xor c a ≡ bit_xor c b → a ≡ b
bit_xor_left_cancel n a b c p q r e =
    bit_xor_right_cancel n a b c p q r (bit_xor_comm n a c p r ∙ e ∙ bit_xor_comm n c b r q)
