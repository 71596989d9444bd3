-- ===== src/Arena/Math.antt =====
-- The fixed-point arithmetic of src/arena/arena_math.h: Q20.12 in an int32_t. A q32 is an integer;
-- the casts to int32_t and uint16_t are written out.
use bmhero_arena.Common.{
  ℕ, zero, suc, ◌+◌, ◌-◌, ◌*◌, ◌/◌, ◌%◌, ◌^◌, ◌&&◌, ltb, leb, ◌==◌, if◌then◌else◌, get_or, u16, u32,
  ℤ, pos, ◌-ℤ◌, ◌*ℤ◌, neg, ltb_ℤ, leb_ℤ, eqb_ℤ, magnitude, u16_of, i32, shr, quot,
}
use bmhero_arena.Arena.Sintab.{arena_sintab}

-- Q_ONE
abbrev pub q_one : ℤ
q_one = pos 4096

pub record Vec3q : Type 0 where
  pub x : ℤ
  pub y : ℤ
  pub z : ℤ

abbrev pub no_vec : Vec3q
no_vec = record { x = pos 0; y = pos 0; z = pos 0 }

unfoldable pub qmul : ℤ → ℤ → ℤ
qmul a b = i32 (shr (a *ℤ b) 12)

unfoldable pub qdiv : ℤ → ℤ → ℤ
qdiv a b = i32 (quot (a *ℤ q_one) b)

abbrev pub qmin : ℤ → ℤ → ℤ
qmin a b = if ltb_ℤ a b then a else b

abbrev pub qabs : ℤ → ℤ
qabs a = if ltb_ℤ a (pos 0) then neg a else a

abbrev pub qclamp : ℤ → ℤ → ℤ → ℤ
qclamp v lo hi = if ltb_ℤ v lo then lo else if ltb_ℤ hi v then hi else v

-- while (bit > v) bit >>= 2;
unfoldable pub skip_bits : ℕ → ℕ → ℕ → ℕ
skip_bits zero v bit = bit
skip_bits (suc fuel) v bit =
    let rest = skip_bits fuel v (bit / 4) in if ltb v bit then rest else bit

-- The loop that finds one bit of the root a round.
unfoldable pub root_bits : ℕ → ℕ → ℕ → ℕ → ℕ
root_bits zero v r bit = r
root_bits (suc fuel) v r bit =
    let fits = leb (r + bit) v in
    let v' = if fits then v - (r + bit) else v in
    let r' = if fits then r / 2 + bit else r / 2 in
    let rest = root_bits fuel v' r' (bit / 4) in if bit == 0 then r else rest

-- isqrt64. A bit is a power of four up to 4^31: 32 rounds reach zero.
unfoldable pub isqrt64 : ℕ → ℕ
isqrt64 v = u32 (root_bits 32 v 0 (skip_bits 32 v (2 ^ 62)))

abbrev sq : ℤ → ℕ
sq a = magnitude a * magnitude a

unfoldable pub qlen2 : ℤ → ℤ → ℤ
qlen2 x z = i32 (pos (isqrt64 ((sq x + sq z) % 2 ^ 64)))

unfoldable pub qlen3 : Vec3q → ℤ
qlen3 v = i32 (pos (isqrt64 ((sq v.x + sq v.y + sq v.z) % 2 ^ 64)))

-- Binary angles: 65536 is a full turn.
unfoldable pub qsin : ℕ → ℤ
qsin a = get_or arena_sintab (a / 2 ^ 8) (pos 0)

unfoldable pub qcos : ℕ → ℤ
unfolding qsin
qcos a = qsin (u16 (a + 16384))

-- iatan2: the octant's angle first, then the three reflections.
unfoldable pub octant : ℤ → ℕ
octant t =
    let corr = qmul (qmul (pos 1280) (q_one -ℤ t)) t in
    u16_of (shr (t *ℤ (pos 8192 -ℤ shr (corr *ℤ pos 8192) 12)) 12)

unfoldable pub iatan2 : ℤ → ℤ → ℕ
iatan2 y x =
    if eqb_ℤ x (pos 0) && eqb_ℤ y (pos 0)
    then 0
    else (let ax = qabs x in
        let ay = qabs y in
        let t = if ltb_ℤ ay ax then qdiv ay ax else qdiv ax ay in
        let a = octant t in
        let b = if leb_ℤ ax ay then u16_of (pos 16384 -ℤ pos a) else a in
        let c = if ltb_ℤ x (pos 0) then u16_of (pos 32768 -ℤ pos b) else b in
        if ltb_ℤ y (pos 0) then u16_of (neg (pos c)) else c)
