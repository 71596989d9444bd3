-- ===== src/Arena/Account/Players.antt =====
-- The players' stage keeps the accounts.
use bmhero_arena.Common.{
  ℕ, zero, suc, ◌+◌, ◌-◌, ◌≤◌, ◌<◌, ◌≡◌, ◌≢◌, ◌∙◌, refl, Bool, not, ◌&&◌, Bool-cases, Option-cases,
  some, inl, inr, arith, ltb, ◌==◌, u8, u16, first_index-some, ℤ, Array,
}
use bmhero_arena.Arena.State.{
  arena_max_players, arena_max_bombs, ArenaPlayer, ArenaState, no_bomb, pstate_value, bstate_value,
  pstate_dead, pstate_tumble, bstate_free, ◌==ₚ◌, ◌==ᵦ◌, gameplay, put_player, put_bomb,
}
use bmhero_arena.Arena.Tuning
use bmhero_arena.Arena.Geom.{ArenaGeom}
use bmhero_arena.Arena.Input.{input_bomb, input_set}
use bmhero_arena.Arena.Bombs.{find_free_bomb, throw_bomb}
use bmhero_arena.Arena.Player.{
  respawned, dead_tick, steer, accelerate, jump, integrate, skid, tumble, walk, upkeep,
}
use bmhero_arena.Arena.Hands.{
  throw_held, grab, spread_extras, throw_extras, release, bomb_button, laid, set_button, move,
  settle, player_tick, fan,
}
use bmhero_arena.Arena.Tick.{players_tick}
use bmhero_arena.Arena.Account.{IsAccounted}
use bmhero_arena.Arena.Account.Same.{SameBomb-refl, SamePlayer, put_player-Same, Same-IsAccounted}
use bmhero_arena.Arena.Account.Moves.{Enters-IsAccounted, lets_go-IsAccounted}

abbrev Lives : ArenaPlayer → Type 0
Lives p = pstate_value p.state ≢ 4

-- What comes before and after the buttons leaves a player's accounts, and a life, alone.
move-SamePlayer :
    (playing : Bool) (input : ℕ) (p : ArenaPlayer) → SamePlayer p (move playing input p)
unfolding move steer accelerate jump
move-SamePlayer playing input p = record {
  live = ground arith;
  held = ground arith;
  alive = λ e. ground arith;
}

settle-SamePlayer :
    (g : ArenaGeom) (wall_x wall_z : ℤ) (input : ℕ) (p : ArenaPlayer)
    → SamePlayer p (settle g wall_x wall_z input p)
unfolding settle upkeep integrate skid tumble walk
settle-SamePlayer g wall_x wall_z input p = record {
  live = ground arith;
  held = ground arith;
  alive = λ e. ground arith;
}

-- The slot that the search returns is free.
free_slot :
    (s : ArenaState) (bi : ℕ)
    → find_free_bomb s ≡ some bi
    → (bi < arena_max_bombs) × (bstate_value (s.bombs bi).state ≡ 0)
unfolding find_free_bomb
free_slot s bi e =
    let (h, t) = first_index-some arena_max_bombs (λ i. (s.bombs i).state ==ᵦ bstate_free) bi e in
    (h, ground arith)

module _ (pi : ℕ) (here : pi < arena_max_players) where
  grab-IsAccounted :
      (s : ArenaState)
      → IsAccounted s
      → Lives (s.players pi)
      → (s.players pi).live_bombs < 6
      → (s.players pi).held_bomb ≡ 0
      → IsAccounted (grab s pi)
  unfolding grab
  grab-IsAccounted s v alive room hands = elim (Option-cases (find_free_bomb s)) [
    | inl e ↦ rw (e, grab) v
    | inr (bi, e) ↦
        let (slot, was_free) = free_slot s bi e in
        rw (e, grab)
          (Enters-IsAccounted s pi bi _ _ v (record {
            in_range = here;
            slot = slot;
            was_free = was_free;
            room = room;
            used = ground arith;
            mine = omega arith;
            one_more = omega arith;
            alive = alive;
            hands = inr (refl, omega arith, hands);
          }))
  ]

  -- The hands are empty, as the release leaves them.
  abbrev emptied : ArenaState → ArenaState
  emptied s = put_player s pi (record (s.players pi) { held_bomb = 0; timer = 0 })

  throw_extras-IsAccounted :
      (left k n : ℕ) (s : ArenaState)
      → IsAccounted (emptied s)
      → Lives (s.players pi)
      → (s.players pi).live_bombs + left ≤ 6
      → IsAccounted (emptied (throw_extras left k n s pi))
  unfolding throw_extras throw_bomb
  throw_extras-IsAccounted zero k n s v alive room = v
  throw_extras-IsAccounted (suc left) k n s v alive room = elim (Option-cases (find_free_bomb s)) [
    | inl e ↦ rw (e, throw_extras) v
    | inr (bi, e) ↦
        let (slot, was_free) = free_slot s bi e in
        let p = s.players pi in
        let nb =
          throw_bomb p.pos (record no_bomb { owner = u8 pi }) (u16 (p.yaw + fan n k))
            Tuning.tune_spread_speed Tuning.tune_spread_up in
        let p' = record p { live_bombs = u8 (p.live_bombs + 1) } in
        let next = put_bomb (put_player s pi p') bi nb in
        let w =
          Enters-IsAccounted (emptied s) pi bi (record p' { held_bomb = 0; timer = 0 }) nb v
            (record {
              in_range = here;
              slot = slot;
              was_free = was_free;
              room = ground arith;
              used = ground arith;
              mine = omega arith;
              one_more = ground arith;
              alive = alive;
              hands = inl (ground arith, ground arith);
            }) in
        rw (e, throw_extras)
          (throw_extras-IsAccounted left (k + 1) n next
            (Same-IsAccounted _ _
              (record {
                num = refl;
                players = λ pj. record {
                  live = ground arith;
                  held = ground arith;
                  alive = λ q. ground arith;
                };
                bombs = λ j. SameBomb-refl (next.bombs j);
              })
              w)
            (ground arith) (ground arith))
  ]

  spread_extras-room :
      (s : ArenaState)
      → (s.players pi).live_bombs ≤ 6
      → (s.players pi).live_bombs + spread_extras s pi ≤ 6
  unfolding spread_extras
  spread_extras-room s h = ground arith

  -- The held bomb is thrown, and the hands are empty.
  thrown-IsAccounted :
      (s : ArenaState) (dir : ℕ) (fwd up : ℤ)
      → IsAccounted s
      → (s.players pi).held_bomb ≢ 0
      → IsAccounted (emptied (throw_held s pi dir fwd up))
  unfolding throw_bomb
  thrown-IsAccounted s dir fwd up v holds =
      lets_go-IsAccounted s pi _ _ ((s.players pi).held_bomb - 1) v here (omega arith)
        (ground arith) (ground arith) refl refl refl

  release-IsAccounted :
      (s : ArenaState)
      → IsAccounted s
      → Lives (s.players pi)
      → (s.players pi).held_bomb ≢ 0
      → IsAccounted (release s pi)
  unfolding release
  release-IsAccounted s v alive holds =
      elim (Bool-cases (ltb (s.players pi).timer Tuning.tune_spread_ticks)) [
        | inl early ↦ rw early (thrown-IsAccounted s _ _ _ v holds)
        | inr late ↦
            let n = spread_extras s pi in
            rw late (
              throw_extras-IsAccounted n 1 n _ (thrown-IsAccounted s _ _ _ v holds) alive
                (spread_extras-room s (v.cap pi here)))
      ]

  bomb_button-IsAccounted :
      (input prev : ℕ) (s : ArenaState)
      → IsAccounted s
      → Lives (s.players pi)
      → IsAccounted (bomb_button input prev s pi)
  unfolding bomb_button
  bomb_button-IsAccounted input prev s v alive =
      let p = s.players pi in
      let playing = gameplay s.phase && not (p.state ==ₚ pstate_tumble) in
      let now = input_bomb input in
      let was = input_bomb prev in
      let holds = not (p.held_bomb == 0) in
      elim (Bool-cases playing) [
        | inr off ↦ rw off v
        | inl on ↦
            elim (Bool-cases
              (now && not was && not holds && ltb p.live_bombs Tuning.tune_max_live_bombs)) [
                | inl grabs ↦
                    rw (on, grabs) (grab-IsAccounted s v alive (ground arith) (ground arith))
                | inr grabs_not ↦ elim (Bool-cases (now && holds)) [
                  | inl keeps ↦
                      rw (on, grabs_not, keeps)
                        (Same-IsAccounted _ _
                          (put_player-Same s pi _ (record {
                            live = ground arith;
                            held = ground arith;
                            alive = λ q. ground arith;
                          }))
                          v)
                  | inr keeps_not ↦ elim (Bool-cases (not now && was && holds)) [
                    | inl throws ↦
                        rw (on, grabs_not, keeps_not, throws)
                          (release-IsAccounted s v alive (ground arith))
                    | inr idle ↦ rw (on, grabs_not, keeps_not, idle) v
                  ]
                ]
              ]
      ]

  set_button-IsAccounted :
      (wall_x wall_z : ℤ) (input prev : ℕ) (s : ArenaState)
      → IsAccounted s
      → Lives (s.players pi)
      → IsAccounted (set_button wall_x wall_z input prev s pi)
  unfolding set_button laid
  set_button-IsAccounted wall_x wall_z input prev s v alive =
      let p = s.players pi in
      elim (Bool-cases (
        gameplay s.phase
        && not (p.state ==ₚ pstate_tumble)
        && p.held_bomb == 0
        && input_set input
        && not (input_set prev)
        && ltb p.live_bombs Tuning.tune_max_live_bombs)) [
          | inr off ↦ rw off v
          | inl on ↦ elim (Option-cases (find_free_bomb s)) [
            | inl e ↦ rw (on, e) v
            | inr (bi, e) ↦
                let (slot, was_free) = free_slot s bi e in
                rw (on, e)
                  (Enters-IsAccounted s pi bi _ _ v (record {
                    in_range = here;
                    slot = slot;
                    was_free = was_free;
                    room = ground arith;
                    used = ground arith;
                    mine = ground arith;
                    one_more = ground arith;
                    alive = alive;
                    hands = inl (ground arith, refl);
                  }))
          ]
        ]

  throw_extras-state :
      (left k n : ℕ) (s : ArenaState)
      → ((throw_extras left k n s pi).players pi).state ≡ (s.players pi).state
  unfolding throw_extras
  throw_extras-state zero k n s = refl
  throw_extras-state (suc left) k n s = elim (Option-cases (find_free_bomb s)) [
    | inl e ↦ rw (e, throw_extras) refl
    | inr (bi, e) ↦ rw (e, throw_extras) (throw_extras-state left (k + 1) n _ ∙ ground arith)
  ]

  grab-state : (s : ArenaState) → ((grab s pi).players pi).state ≡ (s.players pi).state
  unfolding grab
  grab-state s = elim (Option-cases (find_free_bomb s)) [
    | inl e ↦ rw (e, grab) refl
    | inr (bi, e) ↦ rw (e, grab) (ground arith)
  ]

  release-state : (s : ArenaState) → ((release s pi).players pi).state ≡ (s.players pi).state
  unfolding release
  release-state s =
      let n = spread_extras s pi in
      elim (Bool-cases (ltb (s.players pi).timer Tuning.tune_spread_ticks)) [
        | inl early ↦ rw early (ground arith)
        | inr late ↦
            let thrown =
              throw_held s pi (u16 ((s.players pi).yaw + fan n 0)) Tuning.tune_spread_speed
                Tuning.tune_spread_up in
            let kept = throw_extras-state n 1 n thrown in rw late (ground arith)
      ]

  -- The bomb button leaves a life alone.
  bomb_button-state :
      (input prev : ℕ) (s : ArenaState)
      → ((bomb_button input prev s pi).players pi).state ≡ (s.players pi).state
  unfolding bomb_button
  bomb_button-state input prev s = ground (arith, grab-state s, release-state s)

  dead_tick-IsAccounted :
      (s : ArenaState) (input : ℕ) (g : ArenaGeom)
      → IsAccounted s
      → pstate_value (s.players pi).state ≡ 4
      → IsAccounted (put_player s pi (dead_tick (gameplay s.phase) g pi input (s.players pi)))
  unfolding dead_tick respawned
  dead_tick-IsAccounted s input g v dead =
      let hands = v.empty pi here dead in
      Same-IsAccounted _ _
        (put_player-Same s pi _
          (record { live = ground arith; held = ground arith; alive = λ q. dead }))
        v

  player_tick-IsAccounted :
      (s : ArenaState) (input : ℕ) (g : ArenaGeom) (wall_x wall_z : ℤ)
      → IsAccounted s
      → IsAccounted (player_tick s pi input g wall_x wall_z)
  unfolding player_tick
  player_tick-IsAccounted s input g wall_x wall_z v =
      let p = s.players pi in
      let moved = put_player s pi (move (gameplay s.phase) input p) in
      let bombed = bomb_button input p.last_input moved pi in
      let set = set_button wall_x wall_z input p.last_input bombed pi in
      elim (Bool-cases (p.state ==ₚ pstate_dead)) [
        | inl dead ↦ rw dead (dead_tick-IsAccounted s input g v (ground arith))
        | inr alive ↦
            let same = move-SamePlayer (gameplay s.phase) input p in
            let lives : Lives (moved.players pi) = ground (arith, same.alive) in
            let m = Same-IsAccounted s moved (put_player-Same s pi _ same) v in
            let b = bomb_button-IsAccounted input p.last_input moved m lives in
            let lives' : Lives (bombed.players pi) =
              rw (bomb_button-state input p.last_input moved) lives in
            let t = set_button-IsAccounted wall_x wall_z input p.last_input bombed b lives' in
            rw alive (
              Same-IsAccounted set _
                (put_player-Same set pi _
                  (settle-SamePlayer g wall_x wall_z input (set.players pi)))
                t)
      ]

pub players_tick-IsAccounted :
    (left pi : ℕ) (inputs : Array ℕ) (g : ArenaGeom) (wall_x wall_z : ℤ) (s : ArenaState)
    → pi + left ≤ arena_max_players
    → IsAccounted s
    → IsAccounted (players_tick left pi inputs g wall_x wall_z s)
unfolding players_tick
players_tick-IsAccounted zero pi inputs g wall_x wall_z s h v = v
players_tick-IsAccounted (suc left) pi inputs g wall_x wall_z s h v =
    players_tick-IsAccounted left (pi + 1) inputs g wall_x wall_z _ (omega arith)
      (player_tick-IsAccounted pi (omega arith) s (inputs pi) g wall_x wall_z v)
