-- ===== src/Common/Words.antt =====
-- Unsigned machine words: casts, shifts and wrap-around subtraction.
use Prim.Native.Nat.{ℕ, ◌+◌, ◌-◌, ◌*◌, ◌/◌, ◌%◌, ◌^◌, bit_xor}

abbrev pub u8 : ℕ → ℕ
u8 n = n % 2 ^ 8

abbrev pub u16 : ℕ → ℕ
u16 n = n % 2 ^ 16

abbrev pub u32 : ℕ → ℕ
u32 n = n % 2 ^ 32

-- uint32_t a - b
abbrev pub sub_u32 : ℕ → ℕ → ℕ
sub_u32 a b = (a + 2 ^ 32 - b) % 2 ^ 32

infixl 75 ◌<<<◌ ◌>>>◌
abbrev pub ◌<<<◌ : ℕ → ℕ → ℕ
x <<< k = x * 2 ^ k

abbrev pub ◌>>>◌ : ℕ → ℕ → ℕ
x >>> k = x / 2 ^ k

-- x ^= x << 13; x ^= x >> 17; x ^= x << 5; on a uint32_t.
-- The source writes this out four times: arena_rand, xs32, next_rng and na_rand.
unfoldable pub xorshift32 : ℕ → ℕ
xorshift32 x =
    let a = bit_xor x (u32 (x <<< 13)) in let b = bit_xor a (a >>> 17) in bit_xor b (u32 (b <<< 5))
