-- ===== src/Arena/Script.antt =====
-- The scripted match of src/arena/arena_script.h, and arena_net_version of src/lobby/lobby_proto.c,
-- which hashes what it ends in.
use bmhero_arena.Common.{
  ℕ, zero, suc, ◌+◌, ◌*◌, ◌%◌, ◌≡◌, ◌<◌, ◌++◌, ltb, ◌==◌, if◌then◌else◌, Array, update, xorshift32,
  u32, ◌>>>◌, ℤ, pos, negsuc, ◌-ℤ◌, ltb_ℤ, arith,
}
use bmhero_arena.Arena.State.{ArenaState}
use bmhero_arena.Arena.Input.{input_pack}
use bmhero_arena.Arena.Bombs.{init}
use bmhero_arena.Arena.Tick.{arena_tick}
use bmhero_arena.Arena.Hash.{le32, fnv, arena_hash, state_size}
use bmhero_arena.Lobby.Proto.{lobby_proto_ver}

-- if (sx < -31) sx = -31;
abbrev pub script_axis : ℕ → ℤ
script_axis bits = let v = pos (bits % 64) -ℤ pos 32 in if ltb_ℤ v (negsuc 30) then negsuc 30 else v

-- The input of player i at tick t, from the random state that its draw leaves.
unfoldable pub script_input : ℕ → ℕ → ℕ → ℕ
script_input r t i =
    input_pack (script_axis r) (script_axis (r >>> 6)) ((r >>> 12) % 32 == 0)
      (ltb (u32 (t + i * 37) % (90 + i * 80)) (30 + i * 40)) (u32 (t + i * 53) % 137 == 0)

-- The loop over the players from i on, n of them to go: the inputs, and the random state.
unfoldable pub script_inputs : ℕ → ℕ → ℕ → ℕ → Array ℕ → Array ℕ × ℕ
script_inputs zero i t r inputs = (inputs, r)
script_inputs (suc n) i t r inputs =
    let r' = xorshift32 r in script_inputs n (i + 1) t r' (update inputs i (script_input r' t i))

-- The loop over the ticks from t on, n of them to go.
unfoldable pub script_ticks : ℕ → ℕ → ℕ → Array ℕ → ArenaState → ArenaState
script_ticks zero t r inputs s = s
script_ticks (suc n) t r inputs s =
    let (inputs', r') = script_inputs 4 0 t r inputs in
    script_ticks n (t + 1) r' inputs' (arena_tick s inputs')

unfoldable pub scripted_match_hash : ℕ
scripted_match_hash = arena_hash (script_ticks 5400 0 0xC0FFEE01 (λ i. 0) (init 0 4 0xB0BB1E5))

abbrev pub tune_version : ℕ
tune_version = 21

-- arena_net_version, with what it has cached; 0 is nothing. The result is what it caches.
unfoldable pub arena_net_version : ℕ → ℕ
arena_net_version cached =
    if cached == 0
    then (let h = fnv 2166136261 (
          le32 lobby_proto_ver
          ++ le32 tune_version
          ++ le32 state_size
          ++ le32 scripted_match_hash) in
        if h == 0 then 1 else h)
    else cached

-- The version is never 0, so that a call after the first one returns what the first one did.
pub arena_net_version-cached :
    (cached : ℕ)
    → (0 < arena_net_version cached)
      × (arena_net_version (arena_net_version cached) ≡ arena_net_version cached)
unfolding arena_net_version
arena_net_version-cached cached = ground arith
