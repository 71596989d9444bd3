-- ===== src/Arena/Bombs.antt =====
-- Rounds, and how bombs come and go, in src/arena/arena_sim.c.
use bmhero_arena.Common.{
  ℕ, ◌-◌, Option, none, some, ltb, ◌==◌, if◌then◌else◌, first_index, ℤ, ◌+ℤ◌, neg,
}
use bmhero_arena.Arena.Math.{Vec3q, qmul, qsin, qcos, iatan2}
use bmhero_arena.Arena.State.{
  arena_max_bombs, arena_max_blasts, pstate_idle, pstate_dead, bstate_free, bstate_airborne,
  phase_countdown, ArenaPlayer, ArenaBomb, ArenaState, no_player, no_bomb, no_blast, ◌==ᵦ◌,
  put_player, put_bomb, put_blast,
}
use bmhero_arena.Arena.Tuning.{
  tune_start_hp, tune_countdown_ticks, tune_blast_ttl, tune_player_height,
}
use bmhero_arena.Arena.Geom.{ArenaGeom, arena_geoms}

-- The angle that faces the centre.
abbrev pub face_center : Vec3q → ℕ
face_center at = iatan2 (neg at.x) (neg at.z)

-- What round_reset makes of player i.
unfoldable pub fresh_player : ArenaGeom → ℕ → ℕ → ArenaPlayer → ArenaPlayer
fresh_player g num_players i p =
    let q = record no_player { stocks_won = p.stocks_won } in
    if ltb i num_players
    then record q {
      pos = g.spawns i;
      hp = tune_start_hp;
      state = pstate_idle;
      yaw = face_center (g.spawns i);
    }
    else record q { state = pstate_dead }

unfoldable pub round_reset : ArenaState → ArenaState
round_reset s = record s {
  players = λ i. fresh_player (arena_geoms s.arena_id) s.num_players i (s.players i);
  bombs = λ i. no_bomb;
  blasts = λ i. no_blast;
  shrink_step = 0;
}

-- arena_init
unfoldable pub init : ℕ → ℕ → ℕ → ArenaState
init arena_id num_players seed = round_reset (record {
  tick = 0;
  rng = if seed == 0 then 1 else seed;
  round = 0;
  phase = phase_countdown;
  phase_timer = tune_countdown_ticks;
  arena_id = arena_id;
  num_players = num_players;
  shrink_step = 0;
  players = λ i. no_player;
  bombs = λ i. no_bomb;
  blasts = λ i. no_blast;
})

unfoldable pub find_free_bomb : ArenaState → Option ℕ
find_free_bomb s = first_index arena_max_bombs (λ i. (s.bombs i).state ==ᵦ bstate_free)

unfoldable pub find_free_blast : ArenaState → Option ℕ
find_free_blast s = first_index arena_max_blasts (λ i. (s.blasts i).ttl == 0)

-- The blast that bomb bi leaves, where a slot is free.
unfoldable pub light_blast : ArenaState → ℕ → ArenaState
light_blast s bi = elim (find_free_blast s) [
  | none ↦ s
  | some sl ↦ put_blast s sl (record {
    center = (s.bombs bi).pos;
    radius_t = 0;
    owner = (s.bombs bi).owner;
    ttl = tune_blast_ttl;
  })
]

-- The owner has one bomb less: `live_bombs - 1` stops at 0, as the guard does.
unfoldable pub detonate : ArenaState → ℕ → ArenaState
detonate s bi =
    let lit = light_blast s bi in
    let b = lit.bombs bi in
    let p = lit.players b.owner in
    put_bomb (put_player lit b.owner (record p { live_bombs = p.live_bombs - 1 })) bi
      (record b { state = bstate_free })

-- throw_bomb: what it makes of bomb b, in the hands of a player at `at`.
unfoldable pub throw_bomb : Vec3q → ArenaBomb → ℕ → ℤ → ℤ → ArenaBomb
throw_bomb at b dir fwd up = record b {
  pos = record at { y = at.y +ℤ tune_player_height };
  vel = record { x = qmul (qsin dir) fwd; y = up; z = neg (qmul (qcos dir) fwd) };
  state = bstate_airborne;
  bounced = 0;
}
