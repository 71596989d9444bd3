-- ===== src/Arena/Untouched.antt =====
-- player_tick of src/arena/arena_sim.c while nobody touches a bomb.
use bmhero_arena.Common.{
  ℕ, zero, suc, ◌+◌, ◌≡◌, refl, ◌∙◌, ap, Bool, true, false, ◌&&◌, Bool-cases, inl, inr, ltb, leb,
  ◌==◌, if◌then◌else◌, arith, Array, ℤ,
}
use bmhero_arena.Arena.State.{pstate_dead, ArenaPlayer, ArenaState, gameplay, put_player, ◌==ₚ◌}
use bmhero_arena.Arena.Geom.{ArenaGeom}
use bmhero_arena.Arena.Input.{input_bomb, input_set}
use bmhero_arena.Arena.Player.{
  respawned, dead_tick, steer, accelerate, jump, integrate, skid, tumble, walk, upkeep,
}
use bmhero_arena.Arena.Hands.{bomb_button, set_button, move, settle, player_tick}
use bmhero_arena.Arena.Tick.{players_tick}
use bmhero_arena.Arena.Calm.{Calm}

-- A player's tick without the buttons.
abbrev pub one : Bool → ArenaGeom → ℤ → ℤ → ℕ → ℕ → ArenaPlayer → ArenaPlayer
one playing g wall_x wall_z input pi p =
    if p.state ==ₚ pstate_dead
    then dead_tick playing g pi input p
    else settle g wall_x wall_z input (move playing input p)

abbrev pub Idle : ℕ → Type 0
Idle input = (input_bomb input ≡ false) × (input_set input ≡ false)

one-held :
    (playing : Bool) (g : ArenaGeom) (wall_x wall_z : ℤ) (input pi : ℕ) (p : ArenaPlayer)
    → p.held_bomb ≡ 0
    → (one playing g wall_x wall_z input pi p).held_bomb ≡ 0
unfolding dead_tick respawned settle upkeep integrate skid tumble walk move steer accelerate jump
one-held playing g wall_x wall_z input pi p e = ground arith

bomb_button-Idle :
    (input prev : ℕ) (s : ArenaState) (pi : ℕ)
    → (s.players pi).held_bomb ≡ 0
    → input_bomb input ≡ false
    → bomb_button input prev s pi ≡ s
unfolding bomb_button
bomb_button-Idle input prev s pi e b = ground arith

set_button-Idle :
    (wall_x wall_z : ℤ) (input prev : ℕ) (s : ArenaState) (pi : ℕ)
    → input_set input ≡ false
    → set_button wall_x wall_z input prev s pi ≡ s
unfolding set_button
set_button-Idle wall_x wall_z input prev s pi c = ground arith

move-held :
    (playing : Bool) (input : ℕ) (p : ArenaPlayer) → (move playing input p).held_bomb ≡ p.held_bomb
unfolding move steer accelerate jump
move-held playing input p = ground arith

-- What a tick without the buttons leaves of a state, but for the players.
record Only (s t : ArenaState) : Type 0 where
  pub bombs : t.bombs ≡ s.bombs
  pub blasts : t.blasts ≡ s.blasts
  pub phase : t.phase ≡ s.phase

player_tick-one :
    (s : ArenaState) (pi input : ℕ) (g : ArenaGeom) (wall_x wall_z : ℤ)
    → (s.players pi).held_bomb ≡ 0
    → Idle input
    → let t = player_tick s pi input g wall_x wall_z in
      Only s t
      × ((k : ℕ)
          → t.players k ≡ (
              if k == pi
              then one (gameplay s.phase) g wall_x wall_z input pi (s.players pi)
              else s.players k))
unfolding player_tick
player_tick-one s pi input g wall_x wall_z e (b, c) =
    let p = s.players pi in
    let moved = put_player s pi (move (gameplay s.phase) input p) in
    let held : (moved.players pi).held_bomb ≡ 0 =
      ground (arith, move-held (gameplay s.phase) input p, e) in
    let bombed : bomb_button input p.last_input moved pi ≡ moved =
      bomb_button-Idle input p.last_input moved pi held b in
    let set : set_button wall_x wall_z input p.last_input moved pi ≡ moved =
      set_button-Idle wall_x wall_z input p.last_input moved pi c in
    elim (Bool-cases (p.state ==ₚ pstate_dead)) [
      | inl dead ↦ rw dead (record { bombs = refl; blasts = refl; phase = refl }, λ k. refl)
      | inr alive ↦
          rw (alive, bombed, set)
            (record { bombs = refl; blasts = refl; phase = refl }, λ k. ground arith)
    ]

-- The players' stage: the players from pi on, left of them, each have had their tick.
pub players_tick-one :
    (left pi : ℕ) (inputs : Array ℕ) (g : ArenaGeom) (wall_x wall_z : ℤ) (s : ArenaState)
    → Calm s
    → ((i : ℕ) → Idle (inputs i))
    → let t = players_tick left pi inputs g wall_x wall_z s in
      Calm t
      × ((k : ℕ)
          → t.players k ≡ (
              if leb pi k && ltb k (pi + left)
              then one (gameplay s.phase) g wall_x wall_z (inputs k) k (s.players k)
              else s.players k))
unfolding players_tick
players_tick-one zero pi inputs g wall_x wall_z s v idle = (v, λ k. ground arith)
players_tick-one (suc left) pi inputs g wall_x wall_z s v idle =
    let t = player_tick s pi (inputs pi) g wall_x wall_z in
    let (only, first) = player_tick-one s pi (inputs pi) g wall_x wall_z (v.hands pi) (idle pi) in
    let calm : Calm t = record {
      bombs = λ i. rw only.bombs (v.bombs i);
      blasts = λ i. rw only.blasts (v.blasts i);
      hands = λ k. elim (Bool-cases (k == pi)) [
        | inl here ↦
            let at = first k in
            ground (
              arith,
              at,
              here,
              one-held (gameplay s.phase) g wall_x wall_z (inputs pi) pi (s.players pi)
                  (v.hands pi),
            )
        | inr other ↦ ground (arith, first k, other, v.hands k)
      ];
    } in
    let (done, rest) = players_tick-one left (pi + 1) inputs g wall_x wall_z t calm idle in
    (
      done,
      λ k. rest k ∙ elim (Bool-cases (k == pi)) [
        | inl here ↦
            let q : pi ≡ k = ground (arith, here) in
            let past : (leb (pi + 1) k && ltb k (pi + 1 + left)) ≡ false = ground (arith, q) in
            let now : (leb pi k && ltb k (pi + suc left)) ≡ true = ground (arith, q) in
            let at : t.players k
                ≡ one (gameplay s.phase) g wall_x wall_z (inputs pi) pi (s.players pi) =
              first k ∙ rw here refl in
            rw (past, now)
              (at ∙ ap (λ j. one (gameplay s.phase) g wall_x wall_z (inputs j) j (s.players j)) q)
        | inr other ↦
            let at : t.players k ≡ s.players k = first k ∙ rw other refl in
            let same : (leb (pi + 1) k && ltb k (pi + 1 + left))
                ≡ (leb pi k && ltb k (pi + suc left)) =
              ground (arith, other) in
            rw (only.phase, at, same) refl
      ],
    )
