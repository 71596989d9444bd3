-- ===== src/Arena/Account/Blasts.antt =====
-- The accounts through the detonations and the blasts of src/arena/arena_sim.c.
use bmhero_arena.Common.{
  ℕ, zero, suc, ◌+◌, ◌-◌, ◌≤◌, ◌<◌, ◌≡◌, refl, Bool-cases, Option-cases, inl, inr, arith, ◌==◌, ℤ,
}
use bmhero_arena.Arena.State.{
  arena_max_players, arena_max_bombs, bstate_exploding, ArenaBomb, ArenaBlast, ArenaState,
  bstate_value, ◌==ᵦ◌, put_player,
}
use bmhero_arena.Arena.Bombs.{detonate, light_blast, find_free_blast}
use bmhero_arena.Arena.Blasts.{
  grow, blast_radius, chain, hurts, hit, dropped, drop_held, damage, blast_tick,
}
use bmhero_arena.Arena.Tick.{detonations, blasts_tick}
use bmhero_arena.Arena.Account.{IsAccounted}
use bmhero_arena.Arena.Account.Same.{
  SameBomb, Same, SameBomb-refl, SamePlayer-refl, Same-refl, Same-IsAccounted,
}
use bmhero_arena.Arena.Account.Moves.{
  empty_handed-IsAccounted, leaves-IsAccounted, lets_go-IsAccounted,
}

light_blast-Same : (s : ArenaState) (bi : ℕ) → Same s (light_blast s bi)
unfolding light_blast
light_blast-Same s bi = elim (Option-cases (find_free_blast s)) [
  | inl e ↦ rw (e, light_blast) (Same-refl s)
  | inr (sl, e) ↦
      rw (e, light_blast)
        (record {
          num = refl;
          players = λ pi. SamePlayer-refl (s.players pi);
          bombs = λ k. SameBomb-refl (s.bombs k);
        })
]

light_blast-bombs : (s : ArenaState) (bi : ℕ) → (light_blast s bi).bombs ≡ s.bombs
unfolding light_blast
light_blast-bombs s bi = elim (Option-cases (find_free_blast s)) [
  | inl e ↦ rw (e, light_blast) refl
  | inr (sl, e) ↦ rw (e, light_blast) refl
]

detonate-IsAccounted :
    (s : ArenaState) (i : ℕ)
    → IsAccounted s
    → i < arena_max_bombs
    → bstate_value (s.bombs i).state ≡ 4
    → IsAccounted (detonate s i)
unfolding detonate
detonate-IsAccounted s i v h e =
    let lit = light_blast s i in
    leaves-IsAccounted lit i (Same-IsAccounted s lit (light_blast-Same s i) v) h _ _
      (rw (light_blast-bombs s i) e) refl refl refl refl

pub detonations-IsAccounted :
    (left i : ℕ) (s : ArenaState)
    → i + left ≤ arena_max_bombs
    → IsAccounted s
    → IsAccounted (detonations left i s)
unfolding detonations
detonations-IsAccounted zero i s h v = v
detonations-IsAccounted (suc left) i s h v =
    elim (Bool-cases ((s.bombs i).state ==ᵦ bstate_exploding)) [
      | inl now ↦ rw now (
          detonations-IsAccounted left (i + 1) (detonate s i) (omega arith)
            (detonate-IsAccounted s i v (omega arith) (ground arith)))
      | inr later ↦ rw later (detonations-IsAccounted left (i + 1) s (omega arith) v)
    ]

-- A hit drops the held bomb, and may kill.
hit-IsAccounted :
    (s : ArenaState) (pi : ℕ) (bl : ArenaBlast)
    → IsAccounted s
    → pi < arena_max_players
    → IsAccounted (put_player (drop_held s pi) pi (hit bl (s.players pi)))
unfolding drop_held dropped hit
hit-IsAccounted s pi bl v h = elim (Bool-cases ((s.players pi).held_bomb == 0)) [
  | inl bare ↦ rw bare (empty_handed-IsAccounted s pi _ v (ground arith) refl refl)
  | inr holds ↦ rw holds (
      lets_go-IsAccounted s pi _ _ ((s.players pi).held_bomb - 1) v h (ground arith) (ground arith)
        (ground arith) refl refl refl)
]

damage-IsAccounted :
    (left pi : ℕ) (bl : ArenaBlast) (radius : ℤ) (s : ArenaState)
    → pi + left ≤ arena_max_players
    → IsAccounted s
    → IsAccounted (damage left pi bl radius s)
unfolding damage
damage-IsAccounted zero pi bl radius s h v = v
damage-IsAccounted (suc left) pi bl radius s h v =
    elim (Bool-cases (hurts bl radius (s.players pi))) [
      | inl hurt ↦ rw hurt (
          damage-IsAccounted left (pi + 1) bl radius _ (omega arith)
            (hit-IsAccounted s pi bl v (omega arith)))
      | inr spared ↦ rw spared (damage-IsAccounted left (pi + 1) bl radius s (omega arith) v)
    ]

chain-SameBomb : (bl : ArenaBlast) (radius : ℤ) (b : ArenaBomb) → SameBomb b (chain bl radius b)
unfolding chain
chain-SameBomb bl radius b = record {
  free = ground arith;
  held = ground arith;
  owner = ground arith;
}

blast_tick-IsAccounted : (s : ArenaState) (i : ℕ) → IsAccounted s → IsAccounted (blast_tick s i)
unfolding blast_tick
blast_tick-IsAccounted s i v = elim (Bool-cases ((s.blasts i).ttl == 0)) [
  | inl out ↦ rw out v
  | inr burns ↦
      let bl = grow (s.blasts i) in
      rw burns (
        damage-IsAccounted s.num_players 0 bl (blast_radius bl) _ (omega (arith, v.fits)) (
          Same-IsAccounted s _
            (record {
              num = refl;
              players = λ pi. SamePlayer-refl (s.players pi);
              bombs = λ k.
                  let c = chain-SameBomb bl (blast_radius bl) (s.bombs k) in
                  record {
                    free = ground (arith, c.free);
                    held = ground (arith, c.held);
                    owner = ground (arith, c.owner);
                  };
            })
            v))
]

pub blasts_tick-IsAccounted :
    (left i : ℕ) (s : ArenaState) → IsAccounted s → IsAccounted (blasts_tick left i s)
unfolding blasts_tick
blasts_tick-IsAccounted zero i s v = v
blasts_tick-IsAccounted (suc left) i s v =
    blasts_tick-IsAccounted left (i + 1) (blast_tick s i) (blast_tick-IsAccounted s i v)
