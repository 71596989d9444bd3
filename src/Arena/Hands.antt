-- ===== src/Arena/Hands.antt =====
-- The part of player_tick of src/arena/arena_sim.c about bombs: grab, hold, throw and set; and
-- player_tick itself. Bombs are allocated here, so the functions pass the whole state.
use bmhero_arena.Common.{
  ℕ, zero, suc, ◌+◌, ◌-◌, Bool, not, ◌&&◌, none, some, ltb, ◌==◌, if◌then◌else◌, u8, u16, ℤ, pos,
  ◌+ℤ◌, ◌-ℤ◌, neg, ltb_ℤ, count_from,
}
use bmhero_arena.Arena.Math.{Vec3q, qmul, qclamp, qsin, qcos}
use bmhero_arena.Arena.Input.{input_bomb, input_set}
use bmhero_arena.Arena.State.{
  arena_max_bombs, pstate_dead, pstate_tumble, bstate_free, bstate_held, bstate_settled,
  bstate_falling, ArenaPlayer, ArenaBomb, ArenaState, no_bomb, ◌==ₚ◌, ◌==ᵦ◌, gameplay, put_player,
  put_bomb,
}
use bmhero_arena.Arena.Tuning
use bmhero_arena.Arena.Geom.{ArenaGeom}
use bmhero_arena.Arena.Bombs.{find_free_bomb, throw_bomb}
use bmhero_arena.Arena.Player.{dead_tick, steer, accelerate, jump, integrate, upkeep}

-- Player pi takes a bomb in the hands, if a slot is free.
unfoldable pub grab : ArenaState → ℕ → ArenaState
grab s pi = elim (find_free_bomb s) [
  | none ↦ s
  | some bi ↦
      let p = s.players pi in
      put_player (put_bomb s bi (record no_bomb { owner = u8 pi; state = bstate_held })) pi
        (record p { held_bomb = u8 (bi + 1); live_bombs = u8 (p.live_bombs + 1); timer = 0 })
]

-- The fan's rows, as (uint16_t) angles: the k-th bomb of a spread with `extras` more than one.
abbrev pub fan : ℕ → ℕ → ℕ
fan zero k = 0
fan (suc zero) zero = 63716
fan (suc zero) (suc zero) = 1820
fan (suc (suc zero)) (suc zero) = 61896
fan (suc (suc zero)) (suc (suc zero)) = 3640
fan (suc (suc (suc zero))) zero = 63716
fan (suc (suc (suc zero))) (suc zero) = 1820
fan (suc (suc (suc zero))) (suc (suc zero)) = 60075
fan (suc (suc (suc zero))) (suc (suc (suc zero))) = 5461
fan _ _ = 0

-- How many bombs a spread adds: at most three, within the live cap and the free slots.
unfoldable pub spread_extras : ArenaState → ℕ → ℕ
spread_extras s pi =
    let free_slots = count_from arena_max_bombs 0 (λ i. (s.bombs i).state ==ᵦ bstate_free) in
    let room = Tuning.tune_max_live_bombs - (s.players pi).live_bombs in
    let extras = if ltb free_slots room then free_slots else room in
    if ltb 3 extras then 3 else extras

-- The loop over the extra bombs, from the k-th on, with `left` to go.
unfoldable pub throw_extras : ℕ → ℕ → ℕ → ArenaState → ℕ → ArenaState
throw_extras zero k n s pi = s
throw_extras (suc left) k n s pi = elim (find_free_bomb s) [
  | none ↦ s
  | some bi ↦
      let p = s.players pi in
      let nb =
        throw_bomb p.pos (record no_bomb { owner = u8 pi }) (u16 (p.yaw + fan n k))
          Tuning.tune_spread_speed Tuning.tune_spread_up in
      throw_extras left (k + 1) n
        (put_bomb (put_player s pi (record p { live_bombs = u8 (p.live_bombs + 1) })) bi nb) pi
]

abbrev pub throw_held : ArenaState → ℕ → ℕ → ℤ → ℤ → ArenaState
throw_held s pi dir fwd up =
    let p = s.players pi in
    let hi = p.held_bomb - 1 in put_bomb s hi (throw_bomb p.pos (s.bombs hi) dir fwd up)

-- The release: one arc, or the spread after a long hold.
unfoldable pub release : ArenaState → ℕ → ArenaState
release s pi =
    let p = s.players pi in
    let n = spread_extras s pi in
    let thrown =
      if ltb p.timer Tuning.tune_spread_ticks
      then throw_held s pi p.yaw Tuning.tune_throw_speed Tuning.tune_throw_up
      else throw_extras n 1 n
          (throw_held s pi (u16 (p.yaw + fan n 0)) Tuning.tune_spread_speed Tuning.tune_spread_up)
          pi in
    put_player thrown pi (record (thrown.players pi) { held_bomb = 0; timer = 0 })

-- The bomb button: grab, hold, throw.
unfoldable pub bomb_button : ℕ → ℕ → ArenaState → ℕ → ArenaState
bomb_button input prev s pi =
    let p = s.players pi in
    let playing = gameplay s.phase && not (p.state ==ₚ pstate_tumble) in
    let now = input_bomb input in
    let was = input_bomb prev in
    let holds = not (p.held_bomb == 0) in
    if not playing
    then s
    else if now && not was && not holds && ltb p.live_bombs Tuning.tune_max_live_bombs
    then grab s pi
    else if now && holds
    then put_player s pi (if ltb p.timer 65535 then record p { timer = p.timer + 1 } else p)
    else if not now && was && holds
    then release s pi
    else s

-- A distance d ahead of the player, at height y, inside the walls.
abbrev ahead : ℤ → ℤ → ArenaPlayer → ℤ → ℤ → Vec3q
ahead wall_x wall_z p d y =
    let bx = wall_x -ℤ Tuning.tune_bomb_radius in
    let bz = wall_z -ℤ Tuning.tune_bomb_radius in
    record {
      x = qclamp (p.pos.x +ℤ qmul (qsin p.yaw) d) (neg bx) bx;
      y = y;
      z = qclamp (p.pos.z -ℤ qmul (qcos p.yaw) d) (neg bz) bz;
    }

-- The bomb that a set lays: from the hands in the air, else ahead on the floor.
unfoldable pub laid : ℤ → ℤ → ℕ → ArenaPlayer → ArenaBomb
laid wall_x wall_z pi p =
    let b = record no_bomb {
      owner = u8 pi;
      fuse = Tuning.tune_fuse_ticks;
      bounced = u8 (pi + 1);
    } in
    if ltb_ℤ (pos 0) p.pos.y
    then record b {
      state = bstate_falling;
      pos =
          ahead wall_x wall_z p Tuning.tune_airset_hand_fwd (p.pos.y +ℤ Tuning.tune_airset_hand_y);
      attach = Tuning.tune_airset_attach_ticks;
    }
    else record b {
      state = bstate_settled;
      pos = ahead wall_x wall_z p Tuning.tune_set_place_offset (pos 0);
    }

-- The set button, on its edge.
unfoldable pub set_button : ℤ → ℤ → ℕ → ℕ → ArenaState → ℕ → ArenaState
set_button wall_x wall_z input prev s pi =
    let p = s.players pi in
    if gameplay s.phase
      && not (p.state ==ₚ pstate_tumble)
      && p.held_bomb == 0
      && input_set input
      && not (input_set prev)
      && ltb p.live_bombs Tuning.tune_max_live_bombs
    then elim (find_free_bomb s) [
      | none ↦ s
      | some bi ↦
          put_player (put_bomb s bi (laid wall_x wall_z pi p)) pi
            (record p { live_bombs = u8 (p.live_bombs + 1) })
    ]
    else s

-- What comes before the buttons, and what comes after.
unfoldable pub move : Bool → ℕ → ArenaPlayer → ArenaPlayer
move playing input p =
    let (q, target_speed) = steer playing input p in
    jump playing input p.last_input (accelerate target_speed q)

unfoldable pub settle : ArenaGeom → ℤ → ℤ → ℕ → ArenaPlayer → ArenaPlayer
settle g wall_x wall_z input p = record (upkeep (integrate g wall_x wall_z p)) {
  last_input = input;
}

unfoldable pub player_tick : ArenaState → ℕ → ℕ → ArenaGeom → ℤ → ℤ → ArenaState
player_tick s pi input g wall_x wall_z =
    let p = s.players pi in
    let prev = p.last_input in
    let moved = put_player s pi (move (gameplay s.phase) input p) in
    let bombed = bomb_button input prev moved pi in
    let set = set_button wall_x wall_z input prev bombed pi in
    if p.state ==ₚ pstate_dead
    then put_player s pi (dead_tick (gameplay s.phase) g pi input p)
    else put_player set pi (settle g wall_x wall_z input (set.players pi))
