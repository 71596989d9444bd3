-- ===== src/Arena/Hash.antt =====
-- arena_hash and arena_rand of src/arena/arena_state.h. The hash runs over the bytes of the struct:
-- they are written out here field by field, in the order of the declaration and in the
-- little-endian order of the program's targets; the asserted sizes leave no padding but pad0, which
-- is zero.
use bmhero_arena.Common.{
  ℕ, zero, suc, ◌+◌, ◌*◌, ◌≡◌, refl, List, [], ◌∷◌, ◌++◌, length, length-append, Array, bit_xor,
  u32, u8, ◌>>>◌, u32_of, xorshift32, arith,
}
use bmhero_arena.Arena.Math.{Vec3q}
use bmhero_arena.Arena.State.{
  arena_max_players, arena_max_bombs, arena_max_blasts, Phase, phase_countdown, phase_play,
  phase_sudden_death, phase_round_end, ArenaPlayer, ArenaBomb, ArenaBlast, ArenaState, pstate_value,
  bstate_value,
}

abbrev pub le16 : ℕ → List ℕ
le16 v = u8 v ∷ u8 (v >>> 8) ∷ []

abbrev pub le32 : ℕ → List ℕ
le32 v = u8 v ∷ u8 (v >>> 8) ∷ u8 (v >>> 16) ∷ u8 (v >>> 24) ∷ []

abbrev pub phase_value : Phase → ℕ
phase_value phase_countdown = 0
phase_value phase_play = 1
phase_value phase_sudden_death = 2
phase_value phase_round_end = 3

unfoldable pub vec_bytes : Vec3q → List ℕ
vec_bytes v = le32 (u32_of v.x) ++ le32 (u32_of v.y) ++ le32 (u32_of v.z)

unfoldable pub player_bytes : ArenaPlayer → List ℕ
player_bytes p =
    vec_bytes p.pos
    ++ vec_bytes p.vel
    ++ le16 p.yaw
    ++ (u8 (pstate_value p.state) ∷ u8 p.hp ∷ [])
    ++ le16 p.timer
    ++ (u8 p.stocks_won ∷ u8 p.held_bomb ∷ u8 p.live_bombs ∷ 0 ∷ [])
    ++ le16 p.last_input
    ++ le32 p.anim_hint

unfoldable pub bomb_bytes : ArenaBomb → List ℕ
bomb_bytes b =
    vec_bytes b.pos
    ++ vec_bytes b.vel
    ++ (u8 b.owner ∷ u8 (bstate_value b.state) ∷ [])
    ++ le16 b.fuse
    ++ (u8 b.bounced ∷ u8 b.attach ∷ 0 ∷ 0 ∷ [])

unfoldable pub blast_bytes : ArenaBlast → List ℕ
blast_bytes b = vec_bytes b.center ++ le16 b.radius_t ++ (u8 b.owner ∷ u8 b.ttl ∷ [])

-- The elements of an array from index i on, n of them.
unfoldable pub array_bytes {ℓ} : {A : Type ℓ} → (A → List ℕ) → ℕ → ℕ → Array A → List ℕ
array_bytes f zero i a = []
array_bytes f (suc n) i a = f (a i) ++ array_bytes f n (i + 1) a

-- The bytes of an ArenaState.
unfoldable pub state_bytes : ArenaState → List ℕ
state_bytes s =
    le32 s.tick
    ++ le32 s.rng
    ++ (u8 s.round ∷ u8 (phase_value s.phase) ∷ [])
    ++ le16 s.phase_timer
    ++ (u8 s.arena_id ∷ u8 s.num_players ∷ [])
    ++ le16 s.shrink_step
    ++ array_bytes player_bytes arena_max_players 0 s.players
    ++ array_bytes bomb_bytes arena_max_bombs 0 s.bombs
    ++ array_bytes blast_bytes arena_max_blasts 0 s.blasts

-- FNV-1a from a hash on.
unfoldable pub fnv : ℕ → List ℕ → ℕ
fnv h [] = h
fnv h (b ∷ bs) = fnv (u32 (bit_xor h b * 16777619)) bs

unfoldable pub arena_hash : ArenaState → ℕ
arena_hash s = fnv 2166136261 (state_bytes s)

-- arena_rand: the number, and the state.
unfoldable pub arena_rand : ArenaState → ℕ × ArenaState
arena_rand s = let x = xorshift32 s.rng in (x, record s { rng = x })

-- sizeof(ArenaState)
abbrev pub state_size : ℕ
state_size = 16 + 4 * 40 + 16 * 32 + 16 * 16

length-array_bytes {ℓ} :
    {A : Type ℓ} (f : A → List ℕ) (k n i : ℕ) (a : Array A)
    → ((x : A) → length (f x) ≡ k)
    → length (array_bytes f n i a) ≡ n * k
unfolding array_bytes
length-array_bytes f k zero i a h = omega arith
length-array_bytes f k (suc n) i a h =
    let rest = length-array_bytes f k n (i + 1) a h in
    grind (arith, length-append (f (a i)) (array_bytes f n (i + 1) a), h (a i), rest)

length-vec_bytes : (v : Vec3q) → length (vec_bytes v) ≡ 12
unfolding vec_bytes
length-vec_bytes v = refl

length-player_bytes : (p : ArenaPlayer) → length (player_bytes p) ≡ 40
unfolding player_bytes vec_bytes
length-player_bytes p = refl

length-bomb_bytes : (b : ArenaBomb) → length (bomb_bytes b) ≡ 32
unfolding bomb_bytes vec_bytes
length-bomb_bytes b = refl

length-blast_bytes : (b : ArenaBlast) → length (blast_bytes b) ≡ 16
unfolding blast_bytes vec_bytes
length-blast_bytes b = refl

-- The bytes of a state are as many as the asserted size of the struct, 944.
pub length-state_bytes : (s : ArenaState) → length (state_bytes s) ≡ state_size
unfolding state_bytes
length-state_bytes s =
    let ps = array_bytes player_bytes arena_max_players 0 s.players in
    let bs = array_bytes bomb_bytes arena_max_bombs 0 s.bombs in
    let ls = array_bytes blast_bytes arena_max_blasts 0 s.blasts in
    ground (
      arith,
      length-append ps (bs ++ ls),
      length-append bs ls,
      length-append (ps ++ bs) ls,
      length-append ps bs,
      length-array_bytes player_bytes 40 arena_max_players 0 s.players length-player_bytes,
      length-array_bytes bomb_bytes 32 arena_max_bombs 0 s.bombs length-bomb_bytes,
      length-array_bytes blast_bytes 16 arena_max_blasts 0 s.blasts length-blast_bytes,
    )
