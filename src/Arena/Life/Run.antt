-- ===== src/Arena/Life/Run.antt =====
-- Health and death agree after arena_init and any number of ticks.
use bmhero_arena.Common.{
  ℕ, ◌-◌, refl, Bool-cases, inl, inr, Option, none, some, not, ◌&&◌, leb, ◌==◌, arith, Array, List,
  [], ◌∷◌,
}
use bmhero_arena.Arena.State.{
  Phase, phase_countdown, phase_play, phase_sudden_death, phase_round_end, arena_max_players,
  arena_max_bombs, arena_max_blasts, ArenaState, gameplay,
}
use bmhero_arena.Arena.Geom.{arena_geoms}
use bmhero_arena.Arena.Bombs.{fresh_player, round_reset, init}
use bmhero_arena.Arena.Tick.{
  match_over, phase_tick, wall, players_tick, push_pairs, bombs_tick, detonations, blasts_tick,
  alive_count, last_alive, award, round_end, arena_tick,
}
use bmhero_arena.Arena.Account.Run.{play}
use bmhero_arena.Arena.Life.{
  Alike, IsHealthy, Alike-refl, Alike-trans, Alike-IsHealthy, put_player-Alike, players-Alike,
}
use bmhero_arena.Arena.Life.Players.{players_tick-IsHealthy}
use bmhero_arena.Arena.Life.Bombs.{
  push_pairs-Alike, bombs_tick-Alike, detonations-Alike, blasts_tick-IsHealthy,
}

round_reset-IsHealthy : (s : ArenaState) → IsHealthy (round_reset s)
unfolding round_reset fresh_player
round_reset-IsHealthy s = record { each = λ pi. (ground arith, ground arith) }

phase_tick-IsHealthy : (s : ArenaState) (ph : Phase) → IsHealthy s → IsHealthy (phase_tick s ph)
unfolding phase_tick
phase_tick-IsHealthy s phase_countdown v = Alike-IsHealthy s _ (players-Alike s _ refl) v
phase_tick-IsHealthy s phase_play v = Alike-IsHealthy s _ (players-Alike s _ (ground arith)) v
phase_tick-IsHealthy s phase_sudden_death v = Alike-IsHealthy s _ (players-Alike s _ refl) v
phase_tick-IsHealthy s phase_round_end v =
    let waited = record s { phase_timer = s.phase_timer - 1 } in
    elim (Bool-cases (s.phase_timer - 1 == 0 && not (match_over s))) [
      | inl again ↦ rw again (
          Alike-IsHealthy (round_reset waited) _ (players-Alike (round_reset waited) _ refl)
            (round_reset-IsHealthy waited))
      | inr stay ↦ rw stay (Alike-IsHealthy s _ (players-Alike s _ refl) v)
    ]

award-Alike : (s : ArenaState) (o : Option ℕ) → Alike s (award s o)
award-Alike s none = Alike-refl s
award-Alike s (some i) = put_player-Alike s _ i _ refl (record { health = refl; dead = refl })

round_end-IsHealthy : (s : ArenaState) → IsHealthy s → IsHealthy (round_end s)
unfolding round_end
round_end-IsHealthy s v = elim (Bool-cases (gameplay s.phase && leb (alive_count s) 1)) [
  | inl over ↦
      let won = award s (last_alive s.num_players s) in
      rw over (
        Alike-IsHealthy s _
          (Alike-trans s won _ (award-Alike s (last_alive s.num_players s))
            (players-Alike won _ refl))
          v)
  | inr goes_on ↦ rw goes_on v
]

arena_tick-IsHealthy :
    (s : ArenaState) (inputs : Array ℕ) → IsHealthy s → IsHealthy (arena_tick s inputs)
unfolding arena_tick
arena_tick-IsHealthy s inputs v =
    let g = arena_geoms s.arena_id in
    let s1 = phase_tick s s.phase in
    let wall_x = wall s1 g.half_x in
    let wall_z = wall s1 g.half_z in
    let s2 = players_tick arena_max_players 0 inputs g wall_x wall_z s1 in
    let s3 = push_pairs s2 in
    let s4 = bombs_tick arena_max_bombs 0 g wall_x wall_z s3 in
    let s5 = detonations arena_max_bombs 0 s4 in
    let s6 = blasts_tick arena_max_blasts 0 s5 in
    let v2 =
      players_tick-IsHealthy arena_max_players 0 inputs g wall_x wall_z s1
        (phase_tick-IsHealthy s s.phase v) in
    let v5 =
      Alike-IsHealthy s2 s5
        (Alike-trans s2 s3 s5 (push_pairs-Alike s2) (
          Alike-trans s3 s4 s5 (bombs_tick-Alike arena_max_bombs 0 g wall_x wall_z s3)
            (detonations-Alike arena_max_bombs 0 s4)))
        v2 in
    Alike-IsHealthy (round_end s6) _ (players-Alike (round_end s6) _ refl)
      (round_end-IsHealthy s6 (blasts_tick-IsHealthy arena_max_blasts 0 s5 v5))

play-IsHealthy : (s : ArenaState) (ticks : List (Array ℕ)) → IsHealthy s → IsHealthy (play s ticks)
play-IsHealthy s [] v = v
play-IsHealthy s (inputs ∷ rest) v =
    play-IsHealthy (arena_tick s inputs) rest (arena_tick-IsHealthy s inputs v)

-- After arena_init and any ticks with any inputs, no player has more than four of health, and a
-- player is dead exactly at health 0.
pub play-init-IsHealthy :
    (arena_id num_players seed : ℕ) (ticks : List (Array ℕ))
    → IsHealthy (play (init arena_id num_players seed) ticks)
unfolding init
play-init-IsHealthy arena_id num_players seed ticks =
    play-IsHealthy (init arena_id num_players seed) ticks (round_reset-IsHealthy _)
