-- ===== src/Arena/Stick.antt =====
-- The input word gives back what was packed.
use bmhero_arena.Common.{
  ℕ, ◌≡◌, Bool, arith, ℤ, pos, ◌+ℤ◌, ◌-ℤ◌, u16_of, ◌%◌, ◌+◌, ◌*◌, ◌/◌, ◌==◌, if◌then◌else◌, ◌≤◌,
  ◌<◌, ◌^◌,
}
use bmhero_arena.Arena.Input.{
  clamp_stick, input_pack, input_sx, input_sy, input_jump, input_bomb, input_set,
}

abbrev field : ℤ → ℕ
field v = u16_of (clamp_stick v +ℤ pos 32) % 64

field_bounds : (v : ℤ) → (1 ≤ field v) × (field v ≤ 63) × (pos (field v) -ℤ pos 32 ≡ clamp_stick v)
unfolding ◌+ℤ◌ ◌-ℤ◌ u16_of
field_bounds v = (ground arith, ground arith, ground arith)

abbrev word : ℕ → ℕ → ℕ → ℕ → ℕ → ℕ
word x y a b c = x + y * 2 ^ 6 + a * 2 ^ 12 + b * 2 ^ 13 + c * 2 ^ 14

word-fields :
    (x y a b c : ℕ)
    → x < 64
    → y < 64
    → a ≤ 1
    → b ≤ 1
    → c ≤ 1
    → (word x y a b c < 2 ^ 15)
      × (word x y a b c % 64 ≡ x)
      × (word x y a b c / 2 ^ 6 % 64 ≡ y)
      × (word x y a b c / 2 ^ 12 % 2 ≡ a)
      × (word x y a b c / 2 ^ 13 % 2 ≡ b)
      × (word x y a b c / 2 ^ 14 % 2 ≡ c)
word-fields x y a b c hx hy ha hb hc =
    (omega arith, omega arith, omega arith, omega arith, omega arith, omega arith)

abbrev bit : Bool → ℕ
bit b = if b then 1 else 0

-- arena_input_pack and the five readers: sticks come back clamped to +-31, buttons as they were,
-- and the word fits in 15 bits.
pub input-pack :
    (sx sy : ℤ) (jump bomb set : Bool)
    → let i = input_pack sx sy jump bomb set in
      (i < 2 ^ 15)
      × (input_sx i ≡ clamp_stick sx)
      × (input_sy i ≡ clamp_stick sy)
      × (input_jump i ≡ jump)
      × (input_bomb i ≡ bomb)
      × (input_set i ≡ set)
unfolding input_pack input_sx input_sy input_jump input_bomb input_set
input-pack sx sy jump bomb set =
    let (_, lx, x) = field_bounds sx in
    let (_, ly, y) = field_bounds sy in
    let one : (b : Bool) → bit b ≤ 1 = λ b. ground arith in
    let back : (b : Bool) → (bit b == 1) ≡ b = λ b. ground arith in
    let (fits, at_x, at_y, at_jump, at_bomb, at_set) =
      word-fields (field sx) (field sy) (bit jump) (bit bomb) (bit set) (omega arith) (omega arith)
        (one jump) (one bomb) (one set) in
    (
      fits,
      rw at_x x,
      rw at_y y,
      rw at_jump (back jump),
      rw at_bomb (back bomb),
      rw at_set (back set),
    )
