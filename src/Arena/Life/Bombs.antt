-- ===== src/Arena/Life/Bombs.antt =====
-- The pushout, the bombs and the blasts keep health and death together.
use bmhero_arena.Common.{
  ℕ, zero, suc, ◌+◌, ◌≡◌, refl, true, Bool-cases, Option-cases, inl, inr, not, ◌==◌, arith, ℤ,
}
use bmhero_arena.Arena.State.{
  BState, bstate_free, bstate_held, bstate_airborne, bstate_settled, bstate_exploding,
  bstate_sliding, bstate_falling, ArenaPlayer, ArenaBomb, ArenaBlast, ArenaState, ◌==ᵦ◌,
}
use bmhero_arena.Arena.Geom.{ArenaGeom}
use bmhero_arena.Arena.Bombs.{find_free_blast, light_blast, detonate}
use bmhero_arena.Arena.BombTick.{stand_off, stand_players, kick_players, settled_tick, bomb_tick}
use bmhero_arena.Arena.Blasts.{hurts, hit, drop_held, damage, blast_tick, grow, blast_radius}
use bmhero_arena.Arena.Tick.{push_pair, push_pairs, bombs_tick, detonations, blasts_tick}
use bmhero_arena.Arena.Life.{
  Alike, IsSound, IsHealthy, Alike-refl, Alike-trans, Alike-IsHealthy, put_player-Alike,
  players-Alike, put_player-IsHealthy,
}
use bmhero_arena.Arena.Life.Players.{handled}

push_pair-Alike : (a b : ℕ) (s : ArenaState) → Alike s (push_pair a b s)
unfolding push_pair
push_pair-Alike a b s = record { life = λ k. record { health = ground arith; dead = ground arith } }

pub push_pairs-Alike : (s : ArenaState) → Alike s (push_pairs s)
unfolding push_pairs
push_pairs-Alike s =
    let s1 = push_pair 0 1 s in
    let s2 = push_pair 0 2 s1 in
    let s3 = push_pair 0 3 s2 in
    let s4 = push_pair 1 2 s3 in
    let s5 = push_pair 1 3 s4 in
    Alike-trans s s1 _ (push_pair-Alike 0 1 s) (
      Alike-trans s1 s2 _ (push_pair-Alike 0 2 s1) (
        Alike-trans s2 s3 _ (push_pair-Alike 0 3 s2) (
          Alike-trans s3 s4 _ (push_pair-Alike 1 2 s3)
            (Alike-trans s4 s5 _ (push_pair-Alike 1 3 s4) (push_pair-Alike 2 3 s5)))))

stand_players-Alike :
    (left pj : ℕ) (b : ArenaBomb) (s : ArenaState) → Alike s (stand_players left pj b s)
unfolding stand_players stand_off
stand_players-Alike zero pj b s = Alike-refl s
stand_players-Alike (suc left) pj b s =
    Alike-trans s _ _
      (put_player-Alike s _ pj _ refl (record { health = ground arith; dead = ground arith }))
      (stand_players-Alike left (pj + 1) b _)

settled_tick-Alike : (s : ArenaState) (i : ℕ) (b : ArenaBomb) → Alike s (settled_tick s i b)
unfolding settled_tick
settled_tick-Alike s i b =
    let c = kick_players s.num_players 0 s b in
    let stood = stand_players s.num_players 0 c s in
    elim (Bool-cases (not (c.state ==ᵦ bstate_settled))) [
      | inl slides ↦ rw slides (players-Alike s _ refl)
      | inr rests ↦ rw rests (
          Alike-trans s stood _ (stand_players-Alike s.num_players 0 c s)
            (players-Alike stood _ refl))
    ]

bomb_tick-Alike :
    (s : ArenaState) (i : ℕ) (g : ArenaGeom) (wall_x wall_z : ℤ) (st : BState)
    → Alike s (bomb_tick s i g wall_x wall_z st)
unfolding bomb_tick
bomb_tick-Alike s i g wall_x wall_z bstate_held = players-Alike s _ refl
bomb_tick-Alike s i g wall_x wall_z bstate_airborne = players-Alike s _ refl
bomb_tick-Alike s i g wall_x wall_z bstate_falling = players-Alike s _ refl
bomb_tick-Alike s i g wall_x wall_z bstate_sliding = players-Alike s _ refl
bomb_tick-Alike s i g wall_x wall_z bstate_settled = settled_tick-Alike s i (s.bombs i)
bomb_tick-Alike s i g wall_x wall_z bstate_free = Alike-refl s
bomb_tick-Alike s i g wall_x wall_z bstate_exploding = Alike-refl s

pub bombs_tick-Alike :
    (left i : ℕ) (g : ArenaGeom) (wall_x wall_z : ℤ) (s : ArenaState)
    → Alike s (bombs_tick left i g wall_x wall_z s)
unfolding bombs_tick
bombs_tick-Alike zero i g wall_x wall_z s = Alike-refl s
bombs_tick-Alike (suc left) i g wall_x wall_z s =
    Alike-trans s _ _ (bomb_tick-Alike s i g wall_x wall_z (s.bombs i).state)
      (bombs_tick-Alike left (i + 1) g wall_x wall_z _)

light_blast-players : (s : ArenaState) (i : ℕ) → (light_blast s i).players ≡ s.players
unfolding light_blast
light_blast-players s i = elim (Option-cases (find_free_blast s)) [
  | inl e ↦ rw (e, light_blast) refl
  | inr (sl, e) ↦ rw (e, light_blast) refl
]

detonate-Alike : (s : ArenaState) (i : ℕ) → Alike s (detonate s i)
unfolding detonate
detonate-Alike s i =
    let lit = light_blast s i in
    let owner = (lit.bombs i).owner in
    Alike-trans s lit _ (players-Alike s lit (light_blast-players s i))
      (put_player-Alike lit _ owner _ refl (handled (lit.players owner) _ _ _))

pub detonations-Alike : (left i : ℕ) (s : ArenaState) → Alike s (detonations left i s)
unfolding detonations
detonations-Alike zero i s = Alike-refl s
detonations-Alike (suc left) i s = elim (Bool-cases ((s.bombs i).state ==ᵦ bstate_exploding)) [
  | inl now ↦
      rw now
        (Alike-trans s _ _ (detonate-Alike s i) (detonations-Alike left (i + 1) (detonate s i)))
  | inr later ↦ rw later (detonations-Alike left (i + 1) s)
]

-- A hit takes one from the health, and kills at 0.
hit-IsSound :
    (bl : ArenaBlast) (radius : ℤ) (p : ArenaPlayer)
    → hurts bl radius p ≡ true
    → IsSound p
    → IsSound (hit bl p)
unfolding hit
hit-IsSound bl radius p hurt (full, dead) = (ground arith, ground arith)

drop_held-players : (s : ArenaState) (pi : ℕ) → (drop_held s pi).players ≡ s.players
unfolding drop_held
drop_held-players s pi = elim (Bool-cases ((s.players pi).held_bomb == 0)) [
  | inl bare ↦ rw bare refl
  | inr holds ↦ rw holds refl
]

damage-IsHealthy :
    (left pi : ℕ) (bl : ArenaBlast) (radius : ℤ) (s : ArenaState)
    → IsHealthy s
    → IsHealthy (damage left pi bl radius s)
unfolding damage
damage-IsHealthy zero pi bl radius s v = v
damage-IsHealthy (suc left) pi bl radius s v = elim (Bool-cases (hurts bl radius (s.players pi))) [
  | inr spared ↦ rw spared (damage-IsHealthy left (pi + 1) bl radius s v)
  | inl hurt ↦
      let t = drop_held s pi in
      rw hurt (
        damage-IsHealthy left (pi + 1) bl radius _ (
          put_player-IsHealthy t pi _
            (Alike-IsHealthy s t (players-Alike s t (drop_held-players s pi)) v)
            (hit-IsSound bl radius (s.players pi) hurt (v.each pi))))
]

pub blasts_tick-IsHealthy :
    (left i : ℕ) (s : ArenaState) → IsHealthy s → IsHealthy (blasts_tick left i s)
unfolding blasts_tick blast_tick
blasts_tick-IsHealthy zero i s v = v
blasts_tick-IsHealthy (suc left) i s v = elim (Bool-cases ((s.blasts i).ttl == 0)) [
  | inl out ↦ rw out (blasts_tick-IsHealthy left (i + 1) s v)
  | inr burns ↦
      let bl = grow (s.blasts i) in
      rw burns (
        blasts_tick-IsHealthy left (i + 1) _ (
          damage-IsHealthy s.num_players 0 bl (blast_radius bl) _
            (Alike-IsHealthy s _ (players-Alike s _ refl) v)))
]
