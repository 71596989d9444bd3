-- ===== src/Arena/Account/Run.antt =====
-- The accounts hold after arena_init and any number of ticks.
use bmhero_arena.Common.{
  ℕ, ◌-◌, ◌≤◌, ◌≡◌, refl, Option, none, some, not, ◌&&◌, Bool-cases, inl, inr, arith, leb, Array,
  List, [], ◌∷◌, ◌==◌,
}
use bmhero_arena.Arena.State.{
  arena_max_players, arena_max_bombs, arena_max_blasts, Phase, phase_countdown, phase_play,
  phase_sudden_death, phase_round_end, ArenaState, gameplay,
}
use bmhero_arena.Arena.Geom.{arena_geoms}
use bmhero_arena.Arena.Bombs.{fresh_player, round_reset, init}
use bmhero_arena.Arena.Tick.{
  match_over, phase_tick, wall, players_tick, push_pairs, bombs_tick, detonations, blasts_tick,
  alive_count, last_alive, award, round_end, arena_tick,
}
use bmhero_arena.Arena.Account.{IsAccounted, is_owned}
use bmhero_arena.Arena.Account.Count.{count_none}
use bmhero_arena.Arena.Account.Same.{
  SameBomb-refl, SamePlayer-refl, Same-refl, Same, put_player-Same, Same-IsAccounted,
}
use bmhero_arena.Arena.Account.Players.{players_tick-IsAccounted}
use bmhero_arena.Arena.Account.Bombs.{push_pairs-Same, bombs_tick-Same}
use bmhero_arena.Arena.Account.Blasts.{detonations-IsAccounted, blasts_tick-IsAccounted}

-- A fresh round has no bombs.
round_reset-IsAccounted :
    (s : ArenaState) → s.num_players ≤ arena_max_players → IsAccounted (round_reset s)
unfolding round_reset fresh_player
round_reset-IsAccounted s h = record {
  fits = h;
  live = λ pi lt.
      let none_owned = count_none arena_max_bombs 0 (is_owned (round_reset s) pi) (λ j. refl) in
      ground arith;
  cap = λ pi lt. ground arith;
  holds = λ pi k lt e. absurd (ground arith);
  carried = λ k lt e. absurd (ground arith);
  empty = λ pi lt e. ground arith;
}

init-IsAccounted :
    (arena_id num_players seed : ℕ)
    → num_players ≤ arena_max_players
    → IsAccounted (init arena_id num_players seed)
unfolding init
init-IsAccounted arena_id num_players seed h = round_reset-IsAccounted _ h

-- The clock is not part of the accounts.
timed-Same :
    (s t : ArenaState)
    → t.num_players ≡ s.num_players
    → t.players ≡ s.players
    → t.bombs ≡ s.bombs
    → Same s t
timed-Same s t n p b = record {
  num = n;
  players = λ pi. rw p (SamePlayer-refl (s.players pi));
  bombs = λ k. rw b (SameBomb-refl (s.bombs k));
}

phase_tick-IsAccounted :
    (s : ArenaState) (ph : Phase) → IsAccounted s → IsAccounted (phase_tick s ph)
unfolding phase_tick
phase_tick-IsAccounted s phase_countdown v = Same-IsAccounted s _ (timed-Same s _ refl refl refl) v
phase_tick-IsAccounted s phase_play v =
    Same-IsAccounted s _ (timed-Same s _ (ground arith) (ground arith) (ground arith)) v
phase_tick-IsAccounted s phase_sudden_death v =
    Same-IsAccounted s _ (timed-Same s _ refl refl refl) v
phase_tick-IsAccounted s phase_round_end v =
    let waited = record s { phase_timer = s.phase_timer - 1 } in
    elim (Bool-cases (s.phase_timer - 1 == 0 && not (match_over s))) [
      | inl again ↦ rw again (
          Same-IsAccounted (round_reset waited) _ (timed-Same (round_reset waited) _ refl refl refl)
            (round_reset-IsAccounted waited v.fits))
      | inr stay ↦ rw stay (Same-IsAccounted s _ (timed-Same s _ refl refl refl) v)
    ]

award-Same : (s : ArenaState) (o : Option ℕ) → Same s (award s o)
award-Same s none = Same-refl s
award-Same s (some i) = put_player-Same s i _ (record { live = refl; held = refl; alive = λ e. e })

round_end-IsAccounted : (s : ArenaState) → IsAccounted s → IsAccounted (round_end s)
unfolding round_end
round_end-IsAccounted s v = elim (Bool-cases (gameplay s.phase && leb (alive_count s) 1)) [
  | inl over ↦
      let won = award s (last_alive s.num_players s) in
      rw over (
        Same-IsAccounted won _ (timed-Same won _ refl refl refl)
          (Same-IsAccounted s won (award-Same s (last_alive s.num_players s)) v))
  | inr goes_on ↦ rw goes_on v
]

-- A tick keeps the accounts, whatever the inputs: each stage does.
pub arena_tick-IsAccounted :
    (s : ArenaState) (inputs : Array ℕ) → IsAccounted s → IsAccounted (arena_tick s inputs)
unfolding arena_tick
arena_tick-IsAccounted s inputs v =
    let g = arena_geoms s.arena_id in
    let s1 = phase_tick s s.phase in
    let wall_x = wall s1 g.half_x in
    let wall_z = wall s1 g.half_z in
    let s2 = players_tick arena_max_players 0 inputs g wall_x wall_z s1 in
    let s3 = push_pairs s2 in
    let s4 = bombs_tick arena_max_bombs 0 g wall_x wall_z s3 in
    let s5 = detonations arena_max_bombs 0 s4 in
    let s6 = blasts_tick arena_max_blasts 0 s5 in
    let v1 = phase_tick-IsAccounted s s.phase v in
    let v2 =
      players_tick-IsAccounted arena_max_players 0 inputs g wall_x wall_z s1 (omega arith) v1 in
    let v3 = Same-IsAccounted s2 s3 (push_pairs-Same s2) v2 in
    let v4 = Same-IsAccounted s3 s4 (bombs_tick-Same arena_max_bombs 0 g wall_x wall_z s3) v3 in
    let v5 = detonations-IsAccounted arena_max_bombs 0 s4 (omega arith) v4 in
    let v6 = blasts_tick-IsAccounted arena_max_blasts 0 s5 v5 in
    Same-IsAccounted (round_end s6) _ (timed-Same (round_end s6) _ refl refl refl)
      (round_end-IsAccounted s6 v6)

-- A match: the inputs of one tick after another.
abbrev pub play : ArenaState → List (Array ℕ) → ArenaState
play s [] = s
play s (inputs ∷ rest) = play (arena_tick s inputs) rest

play-IsAccounted :
    (s : ArenaState) (ticks : List (Array ℕ)) → IsAccounted s → IsAccounted (play s ticks)
play-IsAccounted s [] v = v
play-IsAccounted s (inputs ∷ rest) v =
    play-IsAccounted (arena_tick s inputs) rest (arena_tick-IsAccounted s inputs v)

-- After arena_init for at most four players and any ticks with any inputs, each player's
-- live_bombs is the number of bombs in the table that are the player's, and at most six; a
-- player's held_bomb names a held bomb of that player, and each held bomb is named by the player
-- whose it is; a dead player holds none.
pub play-init-IsAccounted :
    (arena_id num_players seed : ℕ) (ticks : List (Array ℕ))
    → num_players ≤ arena_max_players
    → IsAccounted (play (init arena_id num_players seed) ticks)
play-init-IsAccounted arena_id num_players seed ticks h =
    play-IsAccounted (init arena_id num_players seed) ticks
      (init-IsAccounted arena_id num_players seed h)
