-- ===== src/Arena/Life/Players.antt =====
-- The players' stage keeps health and death together.
use bmhero_arena.Common.{
  ℕ, zero, suc, ◌+◌, ◌≡◌, refl, Bool, false, Bool-cases, Option-cases, inl, inr, not, ◌&&◌, ltb,
  ◌==◌, arith, Array, ℤ, u16,
}
use bmhero_arena.Arena.State.{
  ArenaPlayer, ArenaState, pstate_value, pstate_dead, pstate_tumble, put_player, ◌==ₚ◌, gameplay,
}
use bmhero_arena.Arena.Tuning
use bmhero_arena.Arena.Geom.{ArenaGeom}
use bmhero_arena.Arena.Input.{input_set}
use bmhero_arena.Arena.Bombs.{find_free_bomb}
use bmhero_arena.Arena.Player.{
  respawned, dead_tick, steer, accelerate, jump, integrate, skid, tumble, walk, upkeep,
}
use bmhero_arena.Arena.Hands.{
  grab, throw_held, throw_extras, spread_extras, release, bomb_button, set_button, player_tick, fan,
  move, settle,
}
use bmhero_arena.Arena.Tick.{players_tick}
use bmhero_arena.Arena.Life.{
  SameLife, Alike, IsSound, IsHealthy, Alike-refl, Alike-trans, Alike-IsHealthy, put_player-Alike,
  players-Alike, put_player-IsHealthy,
}

move-SameLife :
    (playing : Bool) (input : ℕ) (p : ArenaPlayer)
    → pstate_value p.state == 4 ≡ false
    → SameLife p (move playing input p)
unfolding move steer accelerate jump
move-SameLife playing input p alive = record { health = ground arith; dead = ground arith }

settle-SameLife :
    (g : ArenaGeom) (wall_x wall_z : ℤ) (input : ℕ) (p : ArenaPlayer)
    → SameLife p (settle g wall_x wall_z input p)
unfolding settle upkeep integrate skid tumble walk
settle-SameLife g wall_x wall_z input p = record { health = ground arith; dead = ground arith }

-- Counters and hands are not life.
pub handled :
    (p : ArenaPlayer) (held live timer : ℕ)
    → SameLife p (record p { held_bomb = held; live_bombs = live; timer = timer })
handled p held live timer = record { health = refl; dead = refl }

grab-Alike : (s : ArenaState) (pi : ℕ) → Alike s (grab s pi)
unfolding grab
grab-Alike s pi = elim (Option-cases (find_free_bomb s)) [
  | inl e ↦ rw (e, grab) (Alike-refl s)
  | inr (bi, e) ↦ rw (e, grab) (put_player-Alike s _ pi _ refl (handled (s.players pi) _ _ _))
]

throw_extras-Alike : (left k n : ℕ) (s : ArenaState) (pi : ℕ) → Alike s (throw_extras left k n s pi)
unfolding throw_extras
throw_extras-Alike zero k n s pi = Alike-refl s
throw_extras-Alike (suc left) k n s pi = elim (Option-cases (find_free_bomb s)) [
  | inl e ↦ rw (e, throw_extras) (Alike-refl s)
  | inr (bi, e) ↦
      rw (e, throw_extras)
        (Alike-trans s _ _ (put_player-Alike s _ pi _ refl (handled (s.players pi) _ _ _))
          (throw_extras-Alike left (k + 1) n _ pi))
]

release-Alike : (s : ArenaState) (pi : ℕ) → Alike s (release s pi)
unfolding release
release-Alike s pi =
    let n = spread_extras s pi in
    elim (Bool-cases (ltb (s.players pi).timer Tuning.tune_spread_ticks)) [
      | inl early ↦ rw early (put_player-Alike s _ pi _ refl (handled (s.players pi) _ _ _))
      | inr late ↦
          let thrown =
            throw_held s pi (u16 ((s.players pi).yaw + fan n 0)) Tuning.tune_spread_speed
              Tuning.tune_spread_up in
          let t = throw_extras n 1 n thrown pi in
          rw late (
            Alike-trans s t _
              (Alike-trans s thrown t (players-Alike s thrown refl)
                (throw_extras-Alike n 1 n thrown pi))
              (put_player-Alike t _ pi _ refl (handled (t.players pi) _ _ _)))
    ]

bomb_button-Alike :
    (input prev : ℕ) (s : ArenaState) (pi : ℕ) → Alike s (bomb_button input prev s pi)
unfolding bomb_button
bomb_button-Alike input prev s pi = record {
  life = λ k.
      let g = (grab-Alike s pi).life k in
      let r = (release-Alike s pi).life k in
      record { health = ground (arith, g.health, r.health); dead = ground (arith, g.dead, r.dead) };
}

set_button-Alike :
    (wall_x wall_z : ℤ) (input prev : ℕ) (s : ArenaState) (pi : ℕ)
    → Alike s (set_button wall_x wall_z input prev s pi)
unfolding set_button
set_button-Alike wall_x wall_z input prev s pi =
    let p = s.players pi in
    elim (Bool-cases (
      gameplay s.phase
      && not (p.state ==ₚ pstate_tumble)
      && p.held_bomb == 0
      && input_set input
      && not (input_set prev)
      && ltb p.live_bombs Tuning.tune_max_live_bombs)) [
        | inr off ↦ rw off (Alike-refl s)
        | inl on ↦ elim (Option-cases (find_free_bomb s)) [
          | inl e ↦ rw (on, e) (Alike-refl s)
          | inr (bi, e) ↦ rw (on, e) (put_player-Alike s _ pi _ refl (handled p _ _ _))
        ]
      ]

dead_tick-IsSound :
    (playing : Bool) (g : ArenaGeom) (pi input : ℕ) (p : ArenaPlayer)
    → IsSound p
    → IsSound (dead_tick playing g pi input p)
unfolding dead_tick respawned
dead_tick-IsSound playing g pi input p (full, dead) = (ground arith, ground arith)

player_tick-IsHealthy :
    (s : ArenaState) (pi input : ℕ) (g : ArenaGeom) (wall_x wall_z : ℤ)
    → IsHealthy s
    → IsHealthy (player_tick s pi input g wall_x wall_z)
unfolding player_tick
player_tick-IsHealthy s pi input g wall_x wall_z v =
    let p = s.players pi in
    let moved = put_player s pi (move (gameplay s.phase) input p) in
    let bombed = bomb_button input p.last_input moved pi in
    let set = set_button wall_x wall_z input p.last_input bombed pi in
    elim (Bool-cases (p.state ==ₚ pstate_dead)) [
      | inl dead ↦ rw dead (
          put_player-IsHealthy s pi _ v
            (dead_tick-IsSound (gameplay s.phase) g pi input p (v.each pi)))
      | inr alive ↦ rw alive (
          Alike-IsHealthy s _
            (Alike-trans s moved _
              (put_player-Alike s _ pi _ refl (move-SameLife (gameplay s.phase) input p alive))
              (Alike-trans moved bombed _ (bomb_button-Alike input p.last_input moved pi) (
                Alike-trans bombed set _
                  (set_button-Alike wall_x wall_z input p.last_input bombed pi)
                  (put_player-Alike set _ pi _ refl
                    (settle-SameLife g wall_x wall_z input (set.players pi))))))
            v)
    ]

pub players_tick-IsHealthy :
    (left pi : ℕ) (inputs : Array ℕ) (g : ArenaGeom) (wall_x wall_z : ℤ) (s : ArenaState)
    → IsHealthy s
    → IsHealthy (players_tick left pi inputs g wall_x wall_z s)
unfolding players_tick
players_tick-IsHealthy zero pi inputs g wall_x wall_z s v = v
players_tick-IsHealthy (suc left) pi inputs g wall_x wall_z s v =
    players_tick-IsHealthy left (pi + 1) inputs g wall_x wall_z _
      (player_tick-IsHealthy s pi (inputs pi) g wall_x wall_z v)
