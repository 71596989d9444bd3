-- ===== src/Arena/Frame.antt =====
-- What no stage between the phase clock and the round's end touches.
use bmhero_arena.Common.{
  ℕ, zero, suc, ◌+◌, ◌≡◌, refl, ◌∙◌, Bool-cases, Option-cases, inl, inr, not, ◌&&◌, ltb, ◌==◌,
  arith, Array, ℤ, u16,
}
use bmhero_arena.Arena.State.{
  BState, bstate_free, bstate_held, bstate_airborne, bstate_settled, bstate_exploding,
  bstate_sliding, bstate_falling, ArenaPlayer, ArenaBomb, ArenaBlast, ArenaState, put_player, ◌==ₚ◌,
  ◌==ᵦ◌, gameplay, pstate_dead, pstate_tumble,
}
use bmhero_arena.Arena.Tuning
use bmhero_arena.Arena.Geom.{ArenaGeom}
use bmhero_arena.Arena.Input.{input_set}
use bmhero_arena.Arena.Bombs.{find_free_bomb, find_free_blast, light_blast, detonate}
use bmhero_arena.Arena.Hands.{
  grab, throw_held, throw_extras, spread_extras, release, bomb_button, set_button, player_tick, fan,
  move,
}
use bmhero_arena.Arena.BombTick.{stand_players, kick_players, settled_tick, bomb_tick}
use bmhero_arena.Arena.Blasts.{hurts, drop_held, damage, blast_tick, grow, blast_radius}
use bmhero_arena.Arena.Tick.{
  players_tick, push_pair, push_pairs, bombs_tick, detonations, blasts_tick,
}

-- The match's own fields.
pub record Frame (s t : ArenaState) : Type 0 where
  pub tick : t.tick ≡ s.tick
  pub rng : t.rng ≡ s.rng
  pub phase : t.phase ≡ s.phase
  pub phase_timer : t.phase_timer ≡ s.phase_timer
  pub arena_id : t.arena_id ≡ s.arena_id
  pub num_players : t.num_players ≡ s.num_players
  pub shrink_step : t.shrink_step ≡ s.shrink_step

pub Frame-refl : (s : ArenaState) → Frame s s
Frame-refl s = record {
  tick = refl;
  rng = refl;
  phase = refl;
  phase_timer = refl;
  arena_id = refl;
  num_players = refl;
  shrink_step = refl;
}

pub Frame-trans : (s t u : ArenaState) → Frame s t → Frame t u → Frame s u
Frame-trans s t u f g = record {
  tick = g.tick ∙ f.tick;
  rng = g.rng ∙ f.rng;
  phase = g.phase ∙ f.phase;
  phase_timer = g.phase_timer ∙ f.phase_timer;
  arena_id = g.arena_id ∙ f.arena_id;
  num_players = g.num_players ∙ f.num_players;
  shrink_step = g.shrink_step ∙ f.shrink_step;
}

-- Writing the arrays.
pub framed :
    (s : ArenaState) (ps : Array ArenaPlayer) (bs : Array ArenaBomb) (ls : Array ArenaBlast)
    → Frame s (record s { players = ps; bombs = bs; blasts = ls })
framed s ps bs ls = record {
  tick = refl;
  rng = refl;
  phase = refl;
  phase_timer = refl;
  arena_id = refl;
  num_players = refl;
  shrink_step = refl;
}

grab-Frame : (s : ArenaState) (pi : ℕ) → Frame s (grab s pi)
unfolding grab
grab-Frame s pi = elim (Option-cases (find_free_bomb s)) [
  | inl e ↦ rw (e, grab) (Frame-refl s)
  | inr (bi, e) ↦ rw (e, grab) (framed s _ _ _)
]

throw_extras-Frame : (left k n : ℕ) (s : ArenaState) (pi : ℕ) → Frame s (throw_extras left k n s pi)
unfolding throw_extras
throw_extras-Frame zero k n s pi = Frame-refl s
throw_extras-Frame (suc left) k n s pi = elim (Option-cases (find_free_bomb s)) [
  | inl e ↦ rw (e, throw_extras) (Frame-refl s)
  | inr (bi, e) ↦
      rw (e, throw_extras)
        (Frame-trans s _ _ (framed s _ _ _) (throw_extras-Frame left (k + 1) n _ pi))
]

release-Frame : (s : ArenaState) (pi : ℕ) → Frame s (release s pi)
unfolding release
release-Frame s pi =
    let n = spread_extras s pi in
    elim (Bool-cases (ltb (s.players pi).timer Tuning.tune_spread_ticks)) [
      | inl early ↦ rw early (framed s _ _ _)
      | inr late ↦
          let thrown =
            throw_held s pi (u16 ((s.players pi).yaw + fan n 0)) Tuning.tune_spread_speed
              Tuning.tune_spread_up in
          rw late (
            Frame-trans s _ _ (framed s _ _ _)
              (Frame-trans thrown _ _ (throw_extras-Frame n 1 n thrown pi) (framed _ _ _ _)))
    ]

bomb_button-Frame :
    (input prev : ℕ) (s : ArenaState) (pi : ℕ) → Frame s (bomb_button input prev s pi)
unfolding bomb_button
bomb_button-Frame input prev s pi =
    let g = grab-Frame s pi in let r = release-Frame s pi in ground arith

set_button-Frame :
    (wall_x wall_z : ℤ) (input prev : ℕ) (s : ArenaState) (pi : ℕ)
    → Frame s (set_button wall_x wall_z input prev s pi)
unfolding set_button
set_button-Frame wall_x wall_z input prev s pi =
    let p = s.players pi in
    elim (Bool-cases (
      gameplay s.phase
      && not (p.state ==ₚ pstate_tumble)
      && p.held_bomb == 0
      && input_set input
      && not (input_set prev)
      && ltb p.live_bombs Tuning.tune_max_live_bombs)) [
        | inr off ↦ rw off (Frame-refl s)
        | inl on ↦ elim (Option-cases (find_free_bomb s)) [
          | inl e ↦ rw (on, e) (Frame-refl s)
          | inr (bi, e) ↦ rw (on, e) (framed s _ _ _)
        ]
      ]

player_tick-Frame :
    (s : ArenaState) (pi input : ℕ) (g : ArenaGeom) (wall_x wall_z : ℤ)
    → Frame s (player_tick s pi input g wall_x wall_z)
unfolding player_tick
player_tick-Frame s pi input g wall_x wall_z =
    let p = s.players pi in
    let moved = put_player s pi (move (gameplay s.phase) input p) in
    let bombed = bomb_button input p.last_input moved pi in
    elim (Bool-cases (p.state ==ₚ pstate_dead)) [
      | inl dead ↦ rw dead (framed s _ _ _)
      | inr alive ↦ rw alive (
          Frame-trans s moved _ (framed s _ _ _) (
            Frame-trans moved bombed _ (bomb_button-Frame input p.last_input moved pi) (
              Frame-trans bombed _ _ (set_button-Frame wall_x wall_z input p.last_input bombed pi)
                (framed _ _ _ _))))
    ]

pub players_tick-Frame :
    (left pi : ℕ) (inputs : Array ℕ) (g : ArenaGeom) (wall_x wall_z : ℤ) (s : ArenaState)
    → Frame s (players_tick left pi inputs g wall_x wall_z s)
unfolding players_tick
players_tick-Frame zero pi inputs g wall_x wall_z s = Frame-refl s
players_tick-Frame (suc left) pi inputs g wall_x wall_z s =
    Frame-trans s _ _ (player_tick-Frame s pi (inputs pi) g wall_x wall_z)
      (players_tick-Frame left (pi + 1) inputs g wall_x wall_z _)

push_pair-Frame : (a b : ℕ) (s : ArenaState) → Frame s (push_pair a b s)
unfolding push_pair
push_pair-Frame a b s = ground arith

pub push_pairs-Frame : (s : ArenaState) → Frame s (push_pairs s)
unfolding push_pairs
push_pairs-Frame s =
    let s1 = push_pair 0 1 s in
    let s2 = push_pair 0 2 s1 in
    let s3 = push_pair 0 3 s2 in
    let s4 = push_pair 1 2 s3 in
    let s5 = push_pair 1 3 s4 in
    Frame-trans s s1 _ (push_pair-Frame 0 1 s) (
      Frame-trans s1 s2 _ (push_pair-Frame 0 2 s1) (
        Frame-trans s2 s3 _ (push_pair-Frame 0 3 s2) (
          Frame-trans s3 s4 _ (push_pair-Frame 1 2 s3)
            (Frame-trans s4 s5 _ (push_pair-Frame 1 3 s4) (push_pair-Frame 2 3 s5)))))

stand_players-Frame :
    (left pj : ℕ) (b : ArenaBomb) (s : ArenaState) → Frame s (stand_players left pj b s)
unfolding stand_players
stand_players-Frame zero pj b s = Frame-refl s
stand_players-Frame (suc left) pj b s =
    Frame-trans s _ _ (framed s _ _ _) (stand_players-Frame left (pj + 1) b _)

settled_tick-Frame : (s : ArenaState) (i : ℕ) (b : ArenaBomb) → Frame s (settled_tick s i b)
unfolding settled_tick
settled_tick-Frame s i b =
    let c = kick_players s.num_players 0 s b in
    elim (Bool-cases (not (c.state ==ᵦ bstate_settled))) [
      | inl slides ↦ rw slides (framed s _ _ _)
      | inr rests ↦
          rw rests (Frame-trans s _ _ (stand_players-Frame s.num_players 0 c s) (framed _ _ _ _))
    ]

bomb_tick-Frame :
    (s : ArenaState) (i : ℕ) (g : ArenaGeom) (wall_x wall_z : ℤ) (st : BState)
    → Frame s (bomb_tick s i g wall_x wall_z st)
unfolding bomb_tick
bomb_tick-Frame s i g wall_x wall_z bstate_held = framed s _ _ _
bomb_tick-Frame s i g wall_x wall_z bstate_airborne = framed s _ _ _
bomb_tick-Frame s i g wall_x wall_z bstate_falling = framed s _ _ _
bomb_tick-Frame s i g wall_x wall_z bstate_sliding = framed s _ _ _
bomb_tick-Frame s i g wall_x wall_z bstate_settled = settled_tick-Frame s i (s.bombs i)
bomb_tick-Frame s i g wall_x wall_z bstate_free = Frame-refl s
bomb_tick-Frame s i g wall_x wall_z bstate_exploding = Frame-refl s

pub bombs_tick-Frame :
    (left i : ℕ) (g : ArenaGeom) (wall_x wall_z : ℤ) (s : ArenaState)
    → Frame s (bombs_tick left i g wall_x wall_z s)
unfolding bombs_tick
bombs_tick-Frame zero i g wall_x wall_z s = Frame-refl s
bombs_tick-Frame (suc left) i g wall_x wall_z s =
    Frame-trans s _ _ (bomb_tick-Frame s i g wall_x wall_z (s.bombs i).state)
      (bombs_tick-Frame left (i + 1) g wall_x wall_z _)

detonate-Frame : (s : ArenaState) (i : ℕ) → Frame s (detonate s i)
unfolding detonate light_blast
detonate-Frame s i = elim (Option-cases (find_free_blast s)) [
  | inl e ↦ rw (e, light_blast) (framed s _ _ _)
  | inr (sl, e) ↦ rw (e, light_blast) (framed s _ _ _)
]

pub detonations-Frame : (left i : ℕ) (s : ArenaState) → Frame s (detonations left i s)
unfolding detonations
detonations-Frame zero i s = Frame-refl s
detonations-Frame (suc left) i s = elim (Bool-cases ((s.bombs i).state ==ᵦ bstate_exploding)) [
  | inl now ↦
      rw now
        (Frame-trans s _ _ (detonate-Frame s i) (detonations-Frame left (i + 1) (detonate s i)))
  | inr later ↦ rw later (detonations-Frame left (i + 1) s)
]

damage-Frame :
    (left pi : ℕ) (bl : ArenaBlast) (radius : ℤ) (s : ArenaState)
    → Frame s (damage left pi bl radius s)
unfolding damage drop_held
damage-Frame zero pi bl radius s = Frame-refl s
damage-Frame (suc left) pi bl radius s = elim (Bool-cases (hurts bl radius (s.players pi))) [
  | inr spared ↦ rw spared (damage-Frame left (pi + 1) bl radius s)
  | inl hurt ↦ elim (Bool-cases ((s.players pi).held_bomb == 0)) [
    | inl bare ↦
        rw (hurt, bare)
          (Frame-trans s _ _ (framed s _ _ _) (damage-Frame left (pi + 1) bl radius _))
    | inr holds ↦
        rw (hurt, holds)
          (Frame-trans s _ _ (framed s _ _ _) (damage-Frame left (pi + 1) bl radius _))
  ]
]

blast_tick-Frame : (s : ArenaState) (i : ℕ) → Frame s (blast_tick s i)
unfolding blast_tick
blast_tick-Frame s i = elim (Bool-cases ((s.blasts i).ttl == 0)) [
  | inl out ↦ rw out (Frame-refl s)
  | inr burns ↦
      let bl = grow (s.blasts i) in
      rw burns
        (Frame-trans s _ _ (framed s _ _ _) (damage-Frame s.num_players 0 bl (blast_radius bl) _))
]

pub blasts_tick-Frame : (left i : ℕ) (s : ArenaState) → Frame s (blasts_tick left i s)
unfolding blasts_tick
blasts_tick-Frame zero i s = Frame-refl s
blasts_tick-Frame (suc left) i s =
    Frame-trans s _ _ (blast_tick-Frame s i) (blasts_tick-Frame left (i + 1) (blast_tick s i))
