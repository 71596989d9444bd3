-- ===== src/Arena/Account.antt =====
-- The accounts of bombs and hands: each player's live_bombs counts the bombs in the table, and
-- held_bomb and the held bombs point at each other.
pub mod Count
pub mod Same
pub mod Moves
pub mod Players
pub mod Bombs
pub mod Run
pub mod Blasts
use bmhero_arena.Common.{ℕ, suc, ◌+◌, ◌≤◌, ◌<◌, ◌≡◌, Bool, not, ◌&&◌, ◌==◌, count_from}
use bmhero_arena.Arena.State.{
  arena_max_players, arena_max_bombs, ArenaState, pstate_value, bstate_value, bstate_free, ◌==ᵦ◌,
}

-- Bomb k is in play and is player pi's.
abbrev pub is_owned : ArenaState → ℕ → ℕ → Bool
is_owned s pi k = not (bstate_value (s.bombs k).state == 0) && (s.bombs k).owner == pi

abbrev pub owned : ArenaState → ℕ → ℕ
owned s pi = count_from arena_max_bombs 0 (is_owned s pi)

pub record IsAccounted (s : ArenaState) : Type 0 where
  pub fits : s.num_players ≤ arena_max_players
  pub live : (pi : ℕ) → pi < arena_max_players → (s.players pi).live_bombs ≡ owned s pi
  pub cap : (pi : ℕ) → pi < arena_max_players → (s.players pi).live_bombs ≤ 6
  -- A player's held bomb is in the table, held, and the player's.
  pub holds :
      (pi k : ℕ)
      → pi < arena_max_players
      → (s.players pi).held_bomb ≡ suc k
      → (k < arena_max_bombs) × (bstate_value (s.bombs k).state ≡ 1) × ((s.bombs k).owner ≡ pi)
  -- A held bomb has a holder.
  pub carried :
      (k : ℕ)
      → k < arena_max_bombs
      → bstate_value (s.bombs k).state ≡ 1
      → ((s.bombs k).owner < arena_max_players) × ((s.players (s.bombs k).owner).held_bomb ≡ suc k)
  -- The dead hold nothing.
  pub empty :
      (pi : ℕ)
      → pi < arena_max_players
      → pstate_value (s.players pi).state ≡ 4
      → (s.players pi).held_bomb ≡ 0
