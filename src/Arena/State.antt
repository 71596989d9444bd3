-- ===== src/Arena/State.antt =====
-- The state of src/arena/arena_state.h: players, bombs, blasts and the match. The padding bytes
-- are not part of it.
use bmhero_arena.Common.{ℕ, Bool, true, false, Array, update, ◌==◌}
use bmhero_arena.Arena.Math.{Vec3q, no_vec}

abbrev pub arena_max_players : ℕ
arena_max_players = 4

abbrev pub arena_max_bombs : ℕ
arena_max_bombs = 16

abbrev pub arena_max_blasts : ℕ
arena_max_blasts = 16

pub data PState : Type 0 where
  pstate_idle pstate_run pstate_jump pstate_tumble pstate_dead : PState

pub data BState : Type 0 where
  bstate_free bstate_held bstate_airborne bstate_settled bstate_exploding bstate_sliding : BState
  bstate_falling : BState

pub data Phase : Type 0 where
  phase_countdown phase_play phase_sudden_death phase_round_end : Phase

pub record ArenaPlayer : Type 0 where
  pub pos : Vec3q
  pub vel : Vec3q
  pub yaw : ℕ
  pub state : PState
  pub hp : ℕ
  pub timer : ℕ
  pub stocks_won : ℕ
  pub held_bomb : ℕ
  pub live_bombs : ℕ
  pub last_input : ℕ
  pub anim_hint : ℕ

pub record ArenaBomb : Type 0 where
  pub pos : Vec3q
  pub vel : Vec3q
  pub owner : ℕ
  pub state : BState
  pub fuse : ℕ
  pub bounced : ℕ
  pub attach : ℕ

pub record ArenaBlast : Type 0 where
  pub center : Vec3q
  pub radius_t : ℕ
  pub owner : ℕ
  pub ttl : ℕ

pub record ArenaState : Type 0 where
  pub tick : ℕ
  pub rng : ℕ
  pub round : ℕ
  pub phase : Phase
  pub phase_timer : ℕ
  pub arena_id : ℕ
  pub num_players : ℕ
  pub shrink_step : ℕ
  pub players : Array ArenaPlayer
  pub bombs : Array ArenaBomb
  pub blasts : Array ArenaBlast

-- What memset leaves.
abbrev pub no_player : ArenaPlayer
no_player = record {
  pos = no_vec;
  vel = no_vec;
  yaw = 0;
  state = pstate_idle;
  hp = 0;
  timer = 0;
  stocks_won = 0;
  held_bomb = 0;
  live_bombs = 0;
  last_input = 0;
  anim_hint = 0;
}

abbrev pub no_bomb : ArenaBomb
no_bomb = record {
  pos = no_vec;
  vel = no_vec;
  owner = 0;
  state = bstate_free;
  fuse = 0;
  bounced = 0;
  attach = 0;
}

abbrev pub no_blast : ArenaBlast
no_blast = record { center = no_vec; radius_t = 0; owner = 0; ttl = 0 }

-- The comparisons of the enums that the code makes, by the C values.
abbrev pub pstate_value : PState → ℕ
pstate_value pstate_idle = 0
pstate_value pstate_run = 1
pstate_value pstate_jump = 2
pstate_value pstate_tumble = 3
pstate_value pstate_dead = 4

abbrev pub bstate_value : BState → ℕ
bstate_value bstate_free = 0
bstate_value bstate_held = 1
bstate_value bstate_airborne = 2
bstate_value bstate_settled = 3
bstate_value bstate_exploding = 4
bstate_value bstate_sliding = 5
bstate_value bstate_falling = 6

infix 50 ◌==ₚ◌ ◌==ᵦ◌
abbrev pub ◌==ₚ◌ : PState → PState → Bool
a ==ₚ b = pstate_value a == pstate_value b

abbrev pub ◌==ᵦ◌ : BState → BState → Bool
a ==ᵦ b = bstate_value a == bstate_value b

-- s->phase == PHASE_PLAY || s->phase == PHASE_SUDDEN_DEATH
abbrev pub gameplay : Phase → Bool
gameplay phase_play = true
gameplay phase_sudden_death = true
gameplay _ = false

-- Writing through &s->players[i], &s->bombs[i], &s->blasts[i].
abbrev pub put_player : ArenaState → ℕ → ArenaPlayer → ArenaState
put_player s i p = record s { players = update s.players i p }

abbrev pub put_bomb : ArenaState → ℕ → ArenaBomb → ArenaState
put_bomb s i b = record s { bombs = update s.bombs i b }

abbrev pub put_blast : ArenaState → ℕ → ArenaBlast → ArenaState
put_blast s i b = record s { blasts = update s.blasts i b }
