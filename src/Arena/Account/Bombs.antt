-- ===== src/Arena/Account/Bombs.antt =====
-- The accounts through the pushout and the bombs of src/arena/arena_sim.c.
use bmhero_arena.Common.{
  ℕ, zero, suc, ◌+◌, ◌≡◌, ◌≢◌, refl, not, Bool-cases, inl, inr, arith, ◌+ℤ◌, ℤ,
}
use bmhero_arena.Arena.State.{
  BState, bstate_free, bstate_held, bstate_airborne, bstate_settled, bstate_exploding,
  bstate_sliding, bstate_falling, ArenaBomb, ArenaState, bstate_value, ◌==ᵦ◌, put_bomb,
}
use bmhero_arena.Arena.Geom.{ArenaGeom}
use bmhero_arena.Arena.BombTick.{
  burn, held_tick, land, airborne_tick, ride, drop, falling_tick, slide_players, bump, sliding_tick,
  kicked, kick_players, stand_off, stand_players, settled_tick, bomb_tick,
}
use bmhero_arena.Arena.Tick.{push_pair, push_pairs, bombs_tick}
use bmhero_arena.Arena.Account.Same.{Same, Same-refl, Same-trans, put_player-Same, put_bomb-Same}

-- c is in play, out of the hands, and the same player's.
abbrev Loose : ArenaBomb → ArenaBomb → Type 0
Loose b c = (bstate_value c.state ≢ 0) × (bstate_value c.state ≢ 1) × (c.owner ≡ b.owner)

airborne_tick-Loose :
    (s : ArenaState) (i : ℕ) (g : ArenaGeom) (wall_x wall_z : ℤ) (b : ArenaBomb)
    → b.state ≡ bstate_airborne
    → Loose b (airborne_tick s i g wall_x wall_z b)
unfolding airborne_tick land
airborne_tick-Loose s i g wall_x wall_z b e = (ground arith, ground arith, ground arith)

falling_tick-Loose :
    (s : ArenaState) (wall_x wall_z : ℤ) (b : ArenaBomb)
    → b.state ≡ bstate_falling
    → Loose b (falling_tick s wall_x wall_z b)
unfolding falling_tick ride drop burn
falling_tick-Loose s wall_x wall_z b e = (ground arith, ground arith, ground arith)

slide_players-Loose :
    (left pj : ℕ) (s : ArenaState) (b : ArenaBomb)
    → b.state ≡ bstate_sliding
    → Loose b (slide_players left pj s b)
unfolding slide_players
slide_players-Loose zero pj s b e = (ground arith, ground arith, refl)
slide_players-Loose (suc left) pj s b e =
    let kept = slide_players-Loose left (pj + 1) s b e in
    let cleared = slide_players-Loose left (pj + 1) s (record b { bounced = 0 }) e in
    (ground arith, ground arith, ground arith)

sliding_tick-Loose :
    (s : ArenaState) (i : ℕ) (g : ArenaGeom) (wall_x wall_z : ℤ) (b : ArenaBomb)
    → b.state ≡ bstate_sliding
    → Loose b (sliding_tick s i g wall_x wall_z b)
unfolding sliding_tick bump burn
sliding_tick-Loose s i g wall_x wall_z b e =
    let moved = record b {
      pos = record b.pos { x = b.pos.x +ℤ b.vel.x; z = b.pos.z +ℤ b.vel.z };
    } in
    let r = slide_players-Loose s.num_players 0 s moved e in
    (ground arith, ground arith, ground arith)

kick_players-Loose :
    (left pj : ℕ) (s : ArenaState) (b : ArenaBomb)
    → b.state ≡ bstate_settled
    → Loose b (kick_players left pj s b)
unfolding kick_players kicked
kick_players-Loose zero pj s b e = (ground arith, ground arith, refl)
kick_players-Loose (suc left) pj s b e =
    let kept = kick_players-Loose left (pj + 1) s b e in
    let cleared = kick_players-Loose left (pj + 1) s (record b { bounced = 0 }) e in
    (ground arith, ground arith, ground arith)

stand_players-Same :
    (left pj : ℕ) (b : ArenaBomb) (s : ArenaState) → Same s (stand_players left pj b s)
unfolding stand_players stand_off
stand_players-Same zero pj b s = Same-refl s
stand_players-Same (suc left) pj b s =
    let next = stand_players (suc zero) pj b s in
    Same-trans s _ _
      (put_player-Same s pj _
        (record { live = ground arith; held = ground arith; alive = λ e. ground arith }))
      (stand_players-Same left (pj + 1) b _)

-- A loose bomb is written back.
Loose-Same :
    (s : ArenaState) (i : ℕ) (c : ArenaBomb)
    → bstate_value (s.bombs i).state ≢ 0
    → bstate_value (s.bombs i).state ≢ 1
    → Loose (s.bombs i) c
    → Same s (put_bomb s i c)
Loose-Same s i c used free_hands (u, f, o) =
    put_bomb-Same s i c (record { free = ground arith; held = ground arith; owner = o })

settled_tick-Same :
    (s : ArenaState) (i : ℕ)
    → (s.bombs i).state ≡ bstate_settled
    → Same s (settled_tick s i (s.bombs i))
unfolding settled_tick burn
settled_tick-Same s i e =
    let b = s.bombs i in
    let c = kick_players s.num_players 0 s b in
    let (used, free_hands, whose) = kick_players-Loose s.num_players 0 s b e in
    let stood = stand_players s.num_players 0 c s in
    let same = stand_players-Same s.num_players 0 c s in
    elim (Bool-cases (not (c.state ==ᵦ bstate_settled))) [
      | inl slides ↦
          rw slides (Loose-Same s i c (ground arith) (ground arith) (used, free_hands, whose))
      | inr rests ↦ rw rests (
          Same-trans s stood _ same (
            put_bomb-Same stood i _ (record {
              free = ground (arith, (same.bombs i).free);
              held = ground (arith, (same.bombs i).held);
              owner = ground (arith, (same.bombs i).owner);
            })))
    ]

bomb_tick-Same :
    (s : ArenaState) (i : ℕ) (g : ArenaGeom) (wall_x wall_z : ℤ) (st : BState)
    → (s.bombs i).state ≡ st
    → Same s (bomb_tick s i g wall_x wall_z st)
unfolding bomb_tick held_tick
bomb_tick-Same s i g wall_x wall_z bstate_held e =
    put_bomb-Same s i _ (record { free = refl; held = refl; owner = refl })
bomb_tick-Same s i g wall_x wall_z bstate_airborne e =
    Loose-Same s i _ (ground arith) (ground arith)
      (airborne_tick-Loose s i g wall_x wall_z (s.bombs i) e)
bomb_tick-Same s i g wall_x wall_z bstate_falling e =
    Loose-Same s i _ (ground arith) (ground arith)
      (falling_tick-Loose s wall_x wall_z (s.bombs i) e)
bomb_tick-Same s i g wall_x wall_z bstate_sliding e =
    Loose-Same s i _ (ground arith) (ground arith)
      (sliding_tick-Loose s i g wall_x wall_z (s.bombs i) e)
bomb_tick-Same s i g wall_x wall_z bstate_settled e = settled_tick-Same s i e
bomb_tick-Same s i g wall_x wall_z bstate_free e = Same-refl s
bomb_tick-Same s i g wall_x wall_z bstate_exploding e = Same-refl s

pub bombs_tick-Same :
    (left i : ℕ) (g : ArenaGeom) (wall_x wall_z : ℤ) (s : ArenaState)
    → Same s (bombs_tick left i g wall_x wall_z s)
unfolding bombs_tick
bombs_tick-Same zero i g wall_x wall_z s = Same-refl s
bombs_tick-Same (suc left) i g wall_x wall_z s =
    Same-trans s _ _ (bomb_tick-Same s i g wall_x wall_z (s.bombs i).state refl)
      (bombs_tick-Same left (i + 1) g wall_x wall_z _)

push_pair-Same : (a b : ℕ) (s : ArenaState) → Same s (push_pair a b s)
unfolding push_pair
push_pair-Same a b s = record {
  num = ground arith;
  players = λ k. record { live = ground arith; held = ground arith; alive = λ e. ground arith };
  bombs = λ k. ground arith;
}

pub push_pairs-Same : (s : ArenaState) → Same s (push_pairs s)
unfolding push_pairs
push_pairs-Same s =
    let s1 = push_pair 0 1 s in
    let s2 = push_pair 0 2 s1 in
    let s3 = push_pair 0 3 s2 in
    let s4 = push_pair 1 2 s3 in
    let s5 = push_pair 1 3 s4 in
    Same-trans s s1 _ (push_pair-Same 0 1 s) (
      Same-trans s1 s2 _ (push_pair-Same 0 2 s1) (
        Same-trans s2 s3 _ (push_pair-Same 0 3 s2) (
          Same-trans s3 s4 _ (push_pair-Same 1 2 s3)
            (Same-trans s4 s5 _ (push_pair-Same 1 3 s4) (push_pair-Same 2 3 s5)))))
