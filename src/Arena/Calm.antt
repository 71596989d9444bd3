-- ===== src/Arena/Calm.antt =====
-- arena_tick of src/arena/arena_sim.c where no bomb and no blast is about: the stages of pushout,
-- bombs, blasts and the end of the round.
use bmhero_arena.Common.{
  ℕ, zero, suc, ◌+◌, ◌≡◌, refl, ◌∙◌, true, ◌&&◌, Bool-cases, Option, none, some, inl, inr, leb,
  ◌==◌, arith, ℤ,
}
use bmhero_arena.Arena.State.{bstate_free, ArenaPlayer, ArenaState, gameplay}
use bmhero_arena.Arena.Geom.{ArenaGeom}
use bmhero_arena.Arena.BombTick.{bomb_tick}
use bmhero_arena.Arena.Blasts.{blast_tick}
use bmhero_arena.Arena.Tick.{
  push_pair, push_pairs, bombs_tick, detonations, blasts_tick, alive_count, last_alive, award,
  round_end,
}

-- No bomb and no blast is about, and all hands are empty.
pub record Calm (s : ArenaState) : Type 0 where
  pub bombs : (i : ℕ) → (s.bombs i).state ≡ bstate_free
  pub blasts : (i : ℕ) → (s.blasts i).ttl ≡ 0
  pub hands : (i : ℕ) → (s.players i).held_bomb ≡ 0

-- A player who has at most moved.
pub record Still (p q : ArenaPlayer) : Type 0 where
  pub state : q.state ≡ p.state
  pub hp : q.hp ≡ p.hp
  pub timer : q.timer ≡ p.timer
  pub held : q.held_bomb ≡ p.held_bomb

pub record Kept (s t : ArenaState) : Type 0 where
  pub bombs : t.bombs ≡ s.bombs
  pub blasts : t.blasts ≡ s.blasts
  pub players : (k : ℕ) → Still (s.players k) (t.players k)

pub Kept-trans : (s t u : ArenaState) → Kept s t → Kept t u → Kept s u
Kept-trans s t u a b = record {
  bombs = b.bombs ∙ a.bombs;
  blasts = b.blasts ∙ a.blasts;
  players = λ k.
      let p = a.players k in
      let q = b.players k in
      record {
        state = q.state ∙ p.state;
        hp = q.hp ∙ p.hp;
        timer = q.timer ∙ p.timer;
        held = q.held ∙ p.held;
      };
}

pub Kept-Calm : (s t : ArenaState) → Kept s t → Calm s → Calm t
Kept-Calm s t a v = record {
  bombs = λ i. rw a.bombs (v.bombs i);
  blasts = λ i. rw a.blasts (v.blasts i);
  hands = λ i. (a.players i).held ∙ v.hands i;
}

push_pair-Kept : (a b : ℕ) (s : ArenaState) → Kept s (push_pair a b s)
unfolding push_pair
push_pair-Kept a b s = record {
  bombs = ground arith;
  blasts = ground arith;
  players = λ k. record {
    state = ground arith;
    hp = ground arith;
    timer = ground arith;
    held = ground arith;
  };
}

pub push_pairs-Kept : (s : ArenaState) → Kept s (push_pairs s)
unfolding push_pairs
push_pairs-Kept s =
    let s1 = push_pair 0 1 s in
    let s2 = push_pair 0 2 s1 in
    let s3 = push_pair 0 3 s2 in
    let s4 = push_pair 1 2 s3 in
    let s5 = push_pair 1 3 s4 in
    Kept-trans s s1 _ (push_pair-Kept 0 1 s) (
      Kept-trans s1 s2 _ (push_pair-Kept 0 2 s1) (
        Kept-trans s2 s3 _ (push_pair-Kept 0 3 s2) (
          Kept-trans s3 s4 _ (push_pair-Kept 1 2 s3)
            (Kept-trans s4 s5 _ (push_pair-Kept 1 3 s4) (push_pair-Kept 2 3 s5)))))

award-Kept : (s : ArenaState) (o : Option ℕ) → Kept s (award s o)
award-Kept s none = record {
  bombs = refl;
  blasts = refl;
  players = λ k. record { state = refl; hp = refl; timer = refl; held = refl };
}
award-Kept s (some i) = record {
  bombs = refl;
  blasts = refl;
  players = λ k. record {
    state = ground arith;
    hp = ground arith;
    timer = ground arith;
    held = ground arith;
  };
}

pub round_end-Kept : (s : ArenaState) → Kept s (round_end s)
unfolding round_end
round_end-Kept s =
    let a = award-Kept s (last_alive s.num_players s) in
    let b = award-Kept s none in
    elim (Bool-cases (gameplay s.phase && leb (alive_count s) 1)) [
      | inl over ↦ rw over (record { bombs = a.bombs; blasts = a.blasts; players = a.players })
      | inr goes_on ↦ rw goes_on b
    ]

-- The stages of bombs and blasts have nothing to do.
pub bombs_tick-Calm :
    (left i : ℕ) (g : ArenaGeom) (wall_x wall_z : ℤ) (s : ArenaState)
    → Calm s
    → bombs_tick left i g wall_x wall_z s ≡ s
unfolding bombs_tick bomb_tick
bombs_tick-Calm zero i g wall_x wall_z s v = refl
bombs_tick-Calm (suc left) i g wall_x wall_z s v =
    rw (v.bombs i) (bombs_tick-Calm left (i + 1) g wall_x wall_z s v)

pub detonations-Calm : (left i : ℕ) (s : ArenaState) → Calm s → detonations left i s ≡ s
unfolding detonations
detonations-Calm zero i s v = refl
detonations-Calm (suc left) i s v = rw (v.bombs i) (detonations-Calm left (i + 1) s v)

pub blasts_tick-Calm : (left i : ℕ) (s : ArenaState) → Calm s → blasts_tick left i s ≡ s
unfolding blasts_tick blast_tick
blasts_tick-Calm zero i s v = refl
blasts_tick-Calm (suc left) i s v =
    let out : ((s.blasts i).ttl == 0) ≡ true = ground (arith, v.blasts i) in
    rw out (blasts_tick-Calm left (i + 1) s v)
