-- ===== src/Arena/Life.antt =====
-- Health and death: a player is dead exactly at health 0.
pub mod Players
pub mod Bombs
pub mod Run
use bmhero_arena.Common.{
  ℕ, zero, suc, ◌+◌, ◌-◌, ◌≤◌, ◌≡◌, refl, ◌∙◌, Bool, true, false, Bool-cases, Option-cases, inl,
  inr, Option, none, some, not, ◌&&◌, ◌||◌, ltb, leb, ◌==◌, arith, update, Array, List, [], ◌∷◌, ℤ,
  u16,
}
use bmhero_arena.Arena.State.{
  BState, bstate_free, bstate_held, bstate_airborne, bstate_settled, bstate_exploding,
  bstate_sliding, bstate_falling, Phase, phase_countdown, phase_play, phase_sudden_death,
  phase_round_end, arena_max_players, arena_max_bombs, arena_max_blasts, ArenaPlayer, ArenaBomb,
  ArenaBlast, ArenaState, pstate_value, pstate_dead, pstate_tumble, put_player, put_bomb, ◌==ₚ◌,
  ◌==ᵦ◌, gameplay,
}
use bmhero_arena.Arena.Tuning
use bmhero_arena.Arena.Geom.{ArenaGeom, arena_geoms}
use bmhero_arena.Arena.Input.{input_set}
use bmhero_arena.Arena.Bombs.{
  fresh_player, round_reset, init, find_free_bomb, find_free_blast, light_blast, detonate,
}
use bmhero_arena.Arena.Player.{
  respawned, dead_tick, steer, accelerate, jump, integrate, skid, tumble, walk, upkeep,
}
use bmhero_arena.Arena.Hands.{
  grab, throw_held, throw_extras, spread_extras, release, bomb_button, set_button, player_tick, fan,
  move, settle,
}
use bmhero_arena.Arena.BombTick.{stand_off, stand_players, kick_players, settled_tick, bomb_tick}
use bmhero_arena.Arena.Blasts.{hurts, hit, drop_held, damage, blast_tick, grow, blast_radius}
use bmhero_arena.Arena.Tick.{
  match_over, phase_tick, wall, players_tick, push_pair, push_pairs, bombs_tick, detonations,
  blasts_tick, alive_count, last_alive, award, round_end, arena_tick,
}

pub record SameLife (p q : ArenaPlayer) : Type 0 where
  pub health : q.hp ≡ p.hp
  pub dead : (pstate_value q.state == 4) ≡ (pstate_value p.state == 4)

pub record Alike (s t : ArenaState) : Type 0 where
  pub life : (pi : ℕ) → SameLife (s.players pi) (t.players pi)

abbrev pub IsSound : ArenaPlayer → Type 0
IsSound p = (p.hp ≤ 4) × ((pstate_value p.state == 4) ≡ (p.hp == 0))

pub record IsHealthy (s : ArenaState) : Type 0 where
  pub each : (pi : ℕ) → IsSound (s.players pi)

pub Alike-refl : (s : ArenaState) → Alike s s
Alike-refl s = record { life = λ pi. record { health = refl; dead = refl } }

pub Alike-trans : (s t u : ArenaState) → Alike s t → Alike t u → Alike s u
Alike-trans s t u f g = record {
  life = λ pi. record {
    health = (g.life pi).health ∙ (f.life pi).health;
    dead = (g.life pi).dead ∙ (f.life pi).dead;
  };
}

pub Alike-IsHealthy : (s t : ArenaState) → Alike s t → IsHealthy s → IsHealthy t
Alike-IsHealthy s t f v = record {
  each = λ pi. rw ((f.life pi).health, (f.life pi).dead) (v.each pi);
}

-- One player is written, and perhaps bombs.
pub put_player-Alike :
    (s t : ArenaState) (pi : ℕ) (p : ArenaPlayer)
    → t.players ≡ update s.players pi p
    → SameLife (s.players pi) p
    → Alike s t
put_player-Alike s t pi p e f = rw e (record {
  life = λ k. record { health = ground (arith, f.health); dead = ground (arith, f.dead) };
})

-- No player is written.
pub players-Alike : (s t : ArenaState) → t.players ≡ s.players → Alike s t
players-Alike s t e = rw e (record { life = (Alike-refl s).life })

pub put_player-IsHealthy :
    (s : ArenaState) (pi : ℕ) (p : ArenaPlayer)
    → IsHealthy s
    → IsSound p
    → IsHealthy (put_player s pi p)
put_player-IsHealthy s pi p v w = record {
  each = λ k. elim (Bool-cases (k == pi)) [ inl hit ↦ rw hit w | inr miss ↦ rw miss (v.each k) ];
}
