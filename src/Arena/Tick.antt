-- ===== src/Arena/Tick.antt =====
-- arena_tick of src/arena/arena_sim.c: the six stages of a tick, in their order.
use bmhero_arena.Common.{
  ℕ, zero, suc, ◌+◌, ◌-◌, ◌%◌, Bool, not, ◌&&◌, ◌||◌, Option, none, some, ltb, leb, ◌==◌,
  if◌then◌else◌, any_below, u8, u16, u32, count_from, ℤ, pos, ◌+ℤ◌, ◌-ℤ◌, ◌*ℤ◌, ltb_ℤ, leb_ℤ, quot,
  Array,
}
use bmhero_arena.Arena.Math.{q_one, qmul, qdiv, qlen2}
use bmhero_arena.Arena.State.{
  arena_max_players, arena_max_bombs, arena_max_blasts, Phase, phase_countdown, phase_play,
  phase_sudden_death, phase_round_end, pstate_dead, bstate_exploding, ArenaPlayer, ArenaState,
  ◌==ₚ◌, ◌==ᵦ◌, gameplay, put_player,
}
use bmhero_arena.Arena.Tuning
use bmhero_arena.Arena.Geom.{ArenaGeom, arena_geoms}
use bmhero_arena.Arena.Bombs.{round_reset, detonate}
use bmhero_arena.Arena.Hands.{player_tick}
use bmhero_arena.Arena.BombTick.{bomb_tick}
use bmhero_arena.Arena.Blasts.{blast_tick}

-- Someone has the rounds it takes.
abbrev pub match_over : ArenaState → Bool
match_over s = any_below s.num_players (λ i. leb Tuning.tune_rounds_to_win (s.players i).stocks_won)

-- 1. The phase's clock, by the phase.
unfoldable pub phase_tick : ArenaState → Phase → ArenaState
phase_tick s phase_countdown =
    let left = s.phase_timer - 1 in
    record s { phase_timer = left; phase = if left == 0 then phase_play else s.phase }
phase_tick s phase_play =
    let t = u16 (s.phase_timer + 1) in
    if leb Tuning.tune_round_ticks t
    then record s { phase_timer = t; phase = phase_sudden_death; shrink_step = 0 }
    else record s { phase_timer = t }
phase_tick s phase_sudden_death =
    let t = u16 (s.phase_timer + 1) in
    record s {
      phase_timer = t;
      shrink_step =
          if t % 60 == 0 && ltb s.shrink_step 96 then s.shrink_step + 1 else s.shrink_step;
    }
phase_tick s phase_round_end =
    let left = s.phase_timer - 1 in
    let waited = record s { phase_timer = left } in
    if left == 0 && not (match_over s)
    then record (round_reset waited) {
      phase = phase_countdown;
      phase_timer = Tuning.tune_countdown_ticks;
    }
    else waited

-- The wall on an axis; in sudden death it has shrunk by Q(0.03) a step.
abbrev pub wall : ArenaState → ℤ → ℤ
wall s half = elim s.phase [
  | phase_sudden_death ↦ half -ℤ pos s.shrink_step *ℤ pos 122
  | phase_countdown ↦ half
  | phase_play ↦ half
  | phase_round_end ↦ half
]

-- 2. The players, in order, from pi on.
unfoldable pub players_tick : ℕ → ℕ → Array ℕ → ArenaGeom → ℤ → ℤ → ArenaState → ArenaState
players_tick zero pi inputs g wall_x wall_z s = s
players_tick (suc left) pi inputs g wall_x wall_z s =
    players_tick left (pi + 1) inputs g wall_x wall_z (player_tick s pi (inputs pi) g wall_x wall_z)

abbrev shift : ArenaPlayer → ℤ → ℤ → ArenaPlayer
shift p dx dz = record p { pos = record p.pos { x = p.pos.x +ℤ dx; z = p.pos.z +ℤ dz } }

abbrev unshift : ArenaPlayer → ℤ → ℤ → ArenaPlayer
unshift p dx dz = record p { pos = record p.pos { x = p.pos.x -ℤ dx; z = p.pos.z -ℤ dz } }

-- 3. Two players who overlap are pushed apart. 2 * TUNE_PLAYER_RADIUS is 2866.
unfoldable pub push_pair : ℕ → ℕ → ArenaState → ArenaState
push_pair a b s =
    let pa = s.players a in
    let pb = s.players b in
    let dx = pb.pos.x -ℤ pa.pos.x in
    let dz = pb.pos.z -ℤ pa.pos.z in
    let d = qlen2 dx dz in
    let push = quot (pos 2866 -ℤ d) (pos 2) in
    let apart = ltb_ℤ (pos 0) d in
    let mx = qmul (if apart then qdiv dx d else q_one) push in
    let mz = qmul (if apart then qdiv dz d else pos 0) push in
    if pa.state ==ₚ pstate_dead || pb.state ==ₚ pstate_dead || leb_ℤ (pos 2866) d
    then s
    else put_player (put_player s a (unshift pa mx mz)) b (shift pb mx mz)

unfoldable pub push_pairs : ArenaState → ArenaState
push_pairs s =
    push_pair 2 3 (push_pair 1 3 (push_pair 1 2 (push_pair 0 3 (push_pair 0 2 (push_pair 0 1 s)))))

-- 4. The bombs, in order, from i on.
unfoldable pub bombs_tick : ℕ → ℕ → ArenaGeom → ℤ → ℤ → ArenaState → ArenaState
bombs_tick zero i g wall_x wall_z s = s
bombs_tick (suc left) i g wall_x wall_z s =
    bombs_tick left (i + 1) g wall_x wall_z (bomb_tick s i g wall_x wall_z (s.bombs i).state)

-- 5. The detonations, then the blasts.
unfoldable pub detonations : ℕ → ℕ → ArenaState → ArenaState
detonations zero i s = s
detonations (suc left) i s =
    detonations left (i + 1) (if (s.bombs i).state ==ᵦ bstate_exploding then detonate s i else s)

unfoldable pub blasts_tick : ℕ → ℕ → ArenaState → ArenaState
blasts_tick zero i s = s
blasts_tick (suc left) i s = blasts_tick left (i + 1) (blast_tick s i)

-- The last of the players below n who is alive; `none` is -1.
unfoldable pub last_alive : ℕ → ArenaState → Option ℕ
last_alive zero s = none
last_alive (suc n) s = if (s.players n).state ==ₚ pstate_dead then last_alive n s else some n

abbrev pub alive_count : ArenaState → ℕ
alive_count s = count_from s.num_players 0 (λ i. not ((s.players i).state ==ₚ pstate_dead))

-- The survivor wins the round.
abbrev pub award : ArenaState → Option ℕ → ArenaState
award s none = s
award s (some i) =
    let p = s.players i in put_player s i (record p { stocks_won = u8 (p.stocks_won + 1) })

-- 6. The round ends when at most one is alive.
unfoldable pub round_end : ArenaState → ArenaState
round_end s =
    if gameplay s.phase && leb (alive_count s) 1
    then record (award s (last_alive s.num_players s)) {
      phase = phase_round_end;
      phase_timer = Tuning.tune_round_end_ticks;
    }
    else s

-- arena_tick
unfoldable pub arena_tick : ArenaState → Array ℕ → ArenaState
arena_tick s inputs =
    let g = arena_geoms s.arena_id in
    let s1 = phase_tick s s.phase in
    let wall_x = wall s1 g.half_x in
    let wall_z = wall s1 g.half_z in
    let s2 = players_tick arena_max_players 0 inputs g wall_x wall_z s1 in
    let s3 = push_pairs s2 in
    let s4 = bombs_tick arena_max_bombs 0 g wall_x wall_z s3 in
    let s5 = detonations arena_max_bombs 0 s4 in
    let s6 = round_end (blasts_tick arena_max_blasts 0 s5) in record s6 { tick = u32 (s6.tick + 1) }
