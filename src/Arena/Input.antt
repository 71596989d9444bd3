-- ===== src/Arena/Input.antt =====
-- The input word of src/arena/arena_state.h: two sticks of six bits and three buttons.
use bmhero_arena.Common.{
  ℕ, ◌+◌, ◌%◌, Bool, ◌==◌, if◌then◌else◌, ◌<<<◌, ◌>>>◌, ℤ, pos, negsuc, ltb_ℤ, ◌+ℤ◌, ◌-ℤ◌, u16_of,
}

abbrev pub ain_stick_max : ℤ
ain_stick_max = pos 31

abbrev pub clamp_stick : ℤ → ℤ
clamp_stick v =
    let w = if ltb_ℤ v (negsuc 30) then negsuc 30 else v in
    if ltb_ℤ ain_stick_max w then ain_stick_max else w

-- The five fields do not overlap: `|` is `+` here.
unfoldable pub input_pack : ℤ → ℤ → Bool → Bool → Bool → ℕ
input_pack sx sy jump bomb set =
    let bit = λ (b : Bool). if b then 1 else 0 in
    u16_of (clamp_stick sx +ℤ pos 32) % 64
    + ((u16_of (clamp_stick sy +ℤ pos 32) % 64) <<< 6)
    + (bit jump <<< 12)
    + (bit bomb <<< 13)
    + (bit set <<< 14)

unfoldable pub input_sx : ℕ → ℤ
input_sx i = pos (i % 64) -ℤ pos 32

unfoldable pub input_sy : ℕ → ℤ
input_sy i = pos ((i >>> 6) % 64) -ℤ pos 32

unfoldable pub input_jump : ℕ → Bool
input_jump i = (i >>> 12) % 2 == 1

unfoldable pub input_bomb : ℕ → Bool
input_bomb i = (i >>> 13) % 2 == 1

unfoldable pub input_set : ℕ → Bool
input_set i = (i >>> 14) % 2 == 1
