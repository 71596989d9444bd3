-- ===== src/Arena/Hurt.antt =====
-- Who can be hurt, and who comes back: the uses of a player's timer in src/arena/arena_sim.c.
use bmhero_arena.Common.{
  ℕ, ◌-◌, ◌≤◌, ◌≡◌, ◌≢◌, refl, Bool, true, false, not, ◌&&◌, ◌↔◌, arith, Bool-cases, inl, inr, ltb,
  ◌==◌, ℤ,
}
use bmhero_arena.Arena.State.{
  pstate_dead, pstate_tumble, pstate_value, ArenaPlayer, ArenaBlast, ArenaState, gameplay, ◌==ₚ◌,
  put_player,
}
use bmhero_arena.Arena.Tuning
use bmhero_arena.Arena.Geom.{ArenaGeom}
use bmhero_arena.Arena.Input.{input_bomb, input_set}
use bmhero_arena.Arena.Player.{
  respawned, dead_tick, steer, accelerate, jump, integrate, walk, upkeep,
}
use bmhero_arena.Arena.Hands.{bomb_button, set_button, move, settle, player_tick}
use bmhero_arena.Arena.Blasts.{hurts}

-- A dead player comes back exactly when the match is being played and the wait is over.
pub dead_tick-wakes :
    (playing : Bool) (g : ArenaGeom) (pi input : ℕ) (p : ArenaPlayer)
    → pstate_value p.state ≡ 4
    → (pstate_value (dead_tick playing g pi input p).state ≢ 4) ↔ ((playing ≡ true) × (p.timer ≤ 1))
unfolding dead_tick respawned
dead_tick-wakes playing g pi input p dead = (
  (λ f. elim (Bool-cases (playing && p.timer - 1 == 0)) [
    | inl wakes ↦ (ground arith, ground arith)
    | inr sleeps ↦ absurd (f (ground arith))
  ]),
  λ w. λ q. ground arith,
)

abbrev Free : ArenaPlayer → Type 0
Free p = (pstate_value p.state ≢ 3) × (pstate_value p.state ≢ 4)

move-Free : (playing : Bool) (input : ℕ) (p : ArenaPlayer) → Free p → Free (move playing input p)
unfolding move steer accelerate jump
move-Free playing input p f = (ground arith, ground arith)

move-held :
    (playing : Bool) (input : ℕ) (p : ArenaPlayer) → (move playing input p).held_bomb ≡ p.held_bomb
unfolding move steer accelerate jump
move-held playing input p = ground arith

-- The hold counter goes on, and nothing is set.
bomb_button-holds :
    (input prev : ℕ) (s : ArenaState) (pi : ℕ)
    → gameplay s.phase ≡ true
    → Free (s.players pi)
    → (s.players pi).held_bomb ≢ 0
    → input_bomb input ≡ true
    → let p = (bomb_button input prev s pi).players pi in (1 ≤ p.timer) × (p.held_bomb ≢ 0) × Free p
unfolding bomb_button
bomb_button-holds input prev s pi on f holds pressed =
    (ground arith, ground arith, (ground arith, ground arith))

set_button-holds :
    (wall_x wall_z : ℤ) (input prev : ℕ) (s : ArenaState) (pi : ℕ)
    → (s.players pi).held_bomb ≢ 0
    → set_button wall_x wall_z input prev s pi ≡ s
unfolding set_button
set_button-holds wall_x wall_z input prev s pi holds =
    let p = s.players pi in
    elim (Bool-cases (
      gameplay s.phase
      && not (p.state ==ₚ pstate_tumble)
      && p.held_bomb == 0
      && input_set input
      && not (input_set prev)
      && ltb p.live_bombs Tuning.tune_max_live_bombs)) [
        | inl on ↦ absurd (ground arith)
        | inr off ↦ rw off refl
      ]

hurts-timer :
    (bl : ArenaBlast) (radius : ℤ) (p : ArenaPlayer)
    → 1 ≤ p.timer
    → pstate_value p.state ≢ 3
    → hurts bl radius p ≡ false
hurts-timer bl radius p waits f = ground arith

settle-timer :
    (g : ArenaGeom) (wall_x wall_z : ℤ) (input : ℕ) (p : ArenaPlayer)
    → 1 ≤ p.timer
    → p.held_bomb ≢ 0
    → Free p
    → let q = settle g wall_x wall_z input p in (1 ≤ q.timer) × (pstate_value q.state ≢ 3)
unfolding settle upkeep integrate walk
settle-timer g wall_x wall_z input p waits holds f = (ground arith, ground arith)

-- While the match is played, a player who is neither tumbling nor dead, holds a bomb and has the
-- bomb button down ends player_tick such that no blast hurts the player, wherever it is.
pub holder-unhurt :
    (s : ArenaState) (pi input : ℕ) (g : ArenaGeom) (wall_x wall_z : ℤ) (bl : ArenaBlast)
    (radius : ℤ)
    → gameplay s.phase ≡ true
    → pstate_value (s.players pi).state ≢ 3
    → pstate_value (s.players pi).state ≢ 4
    → (s.players pi).held_bomb ≢ 0
    → input_bomb input ≡ true
    → hurts bl radius ((player_tick s pi input g wall_x wall_z).players pi) ≡ false
unfolding player_tick
holder-unhurt s pi input g wall_x wall_z bl radius on stands lives holds pressed =
    let p = s.players pi in
    let moved = put_player s pi (move (gameplay s.phase) input p) in
    let bombed = bomb_button input p.last_input moved pi in
    let set = set_button wall_x wall_z input p.last_input bombed pi in
    let alive : (p.state ==ₚ pstate_dead) ≡ false = ground arith in
    let f = move-Free (gameplay s.phase) input p (stands, lives) in
    let h = move-held (gameplay s.phase) input p in
    let (waits, keeps, free) =
      bomb_button-holds input p.last_input moved pi on (ground arith) (ground arith) pressed in
    let same : set ≡ bombed = set_button-holds wall_x wall_z input p.last_input bombed pi keeps in
    let (timer, state) = settle-timer g wall_x wall_z input (bombed.players pi) waits keeps free in
    rw (alive, same)
      (hurts-timer bl radius
        ((put_player bombed pi (settle g wall_x wall_z input (bombed.players pi))).players pi)
        (ground arith) (ground arith))
