-- ===== src/Common/Xor.antt =====
-- Laws of the exclusive or.
use Prim.Native.Nat.{
  ℕ, zero, suc, ◌+◌, ◌*◌, ◌/◌, ◌%◌, ◌^◌, ◌≤◌, ◌<◌, bit_xor, digits, differ, bit_xor-bitwise,
}
use mathlib.Core.Path.{◌≡◌, refl}
use native.Mathlib.Omega.{arith}

abbrev xor_digits : ℕ → ℕ → ℕ → ℕ
xor_digits n a b = digits (λ b. b) differ n a b

xor_digits_fuel : (n m a b : ℕ) → a ≤ n → a ≤ m → xor_digits n a b ≡ xor_digits m a b
xor_digits_fuel zero zero a b p q = refl
xor_digits_fuel zero (suc m) zero b p q = refl
xor_digits_fuel zero (suc m) (suc a) b p q = absurd (omega arith)
xor_digits_fuel (suc n) zero zero b p q = refl
xor_digits_fuel (suc n) zero (suc a) b p q = absurd (omega arith)
xor_digits_fuel (suc n) (suc m) zero b p q = refl
xor_digits_fuel (suc n) (suc m) (suc a) b p q =
    omega (arith, xor_digits_fuel n m (suc a / 2) (b / 2) (omega arith) (omega arith))

zero-bit_xor : (b : ℕ) → bit_xor 0 b ≡ b
zero-bit_xor b = bit_xor-bitwise 0 b

differ_two : (x y : ℕ) → x < 2 → y < 2 → differ x y ≡ (x + y) % 2
differ_two zero y p q = omega arith
differ_two (suc zero) zero p q = refl
differ_two (suc zero) (suc zero) p q = refl
differ_two (suc zero) (suc (suc y)) p q = absurd (omega arith)
differ_two (suc (suc x)) y p q = absurd (omega arith)

bit_xor_step : (a b : ℕ) → bit_xor a b ≡ bit_xor (a / 2) (b / 2) * 2 + (a + b) % 2
bit_xor_step zero b = omega (arith, zero-bit_xor b, zero-bit_xor (b / 2))
bit_xor_step (suc a) b = omega (
  arith,
  bit_xor-bitwise (suc a) b,
  bit_xor-bitwise (suc a / 2) (b / 2),
  differ_two (suc a % 2) (b % 2) (omega arith) (omega arith),
  xor_digits_fuel a (suc a / 2) (suc a / 2) (b / 2) (omega arith) (omega arith),
)

bit_xor-zero_fuel : (n a : ℕ) → a ≤ n → bit_xor a 0 ≡ a
bit_xor-zero_fuel n zero h = refl
bit_xor-zero_fuel zero (suc a) h = absurd (omega arith)
bit_xor-zero_fuel (suc n) (suc a) h =
    omega (arith, bit_xor_step (suc a) 0, bit_xor-zero_fuel n (suc a / 2) (omega arith))

-- The lowest bit is flipped, and no other.
pub bit_xor-one : (a : ℕ) → bit_xor a 1 ≡ a / 2 * 2 + (a + 1) % 2
bit_xor-one a = omega (arith, bit_xor_step a 1, bit_xor-zero_fuel (a / 2) (a / 2) (omega arith))

left_fuel : (n a b c : ℕ) → a ≤ n → b ≤ n → bit_xor a c ≡ bit_xor b c → a ≡ b
left_fuel zero a b c p q e = omega arith
left_fuel (suc n) a b c p q e =
    let halves : bit_xor (a / 2) (c / 2) ≡ bit_xor (b / 2) (c / 2) =
      omega (arith, e, bit_xor_step a c, bit_xor_step b c) in
    omega (
      arith,
      e,
      bit_xor_step a c,
      bit_xor_step b c,
      left_fuel n (a / 2) (b / 2) (c / 2) (omega arith) (omega arith) halves,
    )

pub bit_xor-left : (a b c : ℕ) → bit_xor a c ≡ bit_xor b c → a ≡ b
bit_xor-left a b c e = left_fuel (a + b) a b c (omega arith) (omega arith) e

right_fuel : (n a b c : ℕ) → a ≤ n → b ≤ n → bit_xor c a ≡ bit_xor c b → a ≡ b
right_fuel zero a b c p q e = omega arith
right_fuel (suc n) a b c p q e =
    let halves : bit_xor (c / 2) (a / 2) ≡ bit_xor (c / 2) (b / 2) =
      omega (arith, e, bit_xor_step c a, bit_xor_step c b) in
    omega (
      arith,
      e,
      bit_xor_step c a,
      bit_xor_step c b,
      right_fuel n (a / 2) (b / 2) (c / 2) (omega arith) (omega arith) halves,
    )

pub bit_xor-right : (a b c : ℕ) → bit_xor c a ≡ bit_xor c b → a ≡ b
bit_xor-right a b c e = right_fuel (a + b) a b c (omega arith) (omega arith) e

pub bit_xor-lt : (w a b : ℕ) → a < 2 ^ w → b < 2 ^ w → bit_xor a b < 2 ^ w
bit_xor-lt zero a b p q = let z : a ≡ 0 = omega arith in rw (z, zero-bit_xor b) q
bit_xor-lt (suc w) a b p q =
    omega (arith, bit_xor_step a b, bit_xor-lt w (a / 2) (b / 2) (omega arith) (omega arith))
