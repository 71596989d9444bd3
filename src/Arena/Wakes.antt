-- ===== src/Arena/Wakes.antt =====
-- The slots that no player has, in arena_tick of src/arena/arena_sim.c, while nobody touches a bomb.
use bmhero_arena.Common.{
  ℕ, zero, suc, ◌+◌, ◌-◌, ◌≤◌, ◌<◌, ◌≡◌, refl, ◌∙◌, ◌⊎◌, ap, true, false, ◌&&◌, Bool-cases, inl,
  inr, ltb, leb, ◌==◌, arith, Array, List, [], ◌∷◌, length, All, ℤ,
}
use mathlib.Core.Path.{subst}
use bmhero_arena.Arena.State.{
  arena_max_players, arena_max_bombs, arena_max_blasts, Phase, phase_countdown, phase_play,
  phase_sudden_death, phase_round_end, pstate_idle, pstate_dead, ArenaPlayer, ArenaState, gameplay,
  ◌==ₚ◌,
}
use bmhero_arena.Arena.Tuning
use bmhero_arena.Arena.Geom.{ArenaGeom, arena_geoms}
use bmhero_arena.Arena.Input.{input_bomb, input_set}
use bmhero_arena.Arena.Bombs.{init, round_reset, fresh_player}
use bmhero_arena.Arena.Player.{respawned, dead_tick}
use bmhero_arena.Arena.Tick.{phase_tick, wall, players_tick, push_pairs, round_end, arena_tick}
use bmhero_arena.Arena.Course.{countdown_tick}
use bmhero_arena.Arena.Account.Run.{play}
use bmhero_arena.Arena.Calm.{
  Calm, Still, Kept-trans, Kept-Calm, push_pairs-Kept, round_end-Kept, bombs_tick-Calm,
  detonations-Calm, blasts_tick-Calm,
}
use bmhero_arena.Arena.Untouched.{one, Idle, players_tick-one}

-- The slot of no player, before the match is played and after.
record Asleep (p : ArenaPlayer) : Type 0 where
  pub dead : p.state ≡ pstate_dead
  pub over : p.timer ≤ 1

abbrev Awake : ArenaPlayer → Type 0
Awake p = (p.state ≡ pstate_idle) × (p.hp ≡ Tuning.tune_start_hp)

one-Asleep :
    (g : ArenaGeom) (wall_x wall_z : ℤ) (input pi : ℕ) (p : ArenaPlayer)
    → Asleep p
    → Asleep (one false g wall_x wall_z input pi p)
unfolding dead_tick
one-Asleep g wall_x wall_z input pi p a =
    let dead : (p.state ==ₚ pstate_dead) ≡ true = ground (arith, a.dead) in
    rw dead (record { dead = a.dead; over = a.over })

one-Awake :
    (g : ArenaGeom) (wall_x wall_z : ℤ) (input pi : ℕ) (p : ArenaPlayer)
    → Asleep p
    → Awake (one true g wall_x wall_z input pi p)
unfolding dead_tick respawned
one-Awake g wall_x wall_z input pi p a =
    let waited : (p.timer - 1 == 0) ≡ true = ground (arith, a.over) in
    let dead : (p.state ==ₚ pstate_dead) ≡ true = ground (arith, a.dead) in
    rw (dead, waited) (refl, refl)

clock-Kept :
    (s : ArenaState) (ph : Phase)
    → ph ≡ phase_countdown
    → let t = phase_tick s ph in
      (t.bombs ≡ s.bombs) × (t.blasts ≡ s.blasts) × (t.players ≡ s.players)
unfolding phase_tick
clock-Kept s phase_countdown e = (refl, refl, refl)
clock-Kept s phase_play e = absurd (cc)
clock-Kept s phase_sudden_death e = absurd (cc)
clock-Kept s phase_round_end e = absurd (cc)

-- A whole tick of a countdown without the buttons: each player has had a player's tick, and has at
-- most moved after that.
arena_tick-one :
    (s : ArenaState) (inputs : Array ℕ)
    → Calm s
    → ((i : ℕ) → Idle (inputs i))
    → s.phase ≡ phase_countdown
    → Calm (arena_tick s inputs)
      × ((wall_x wall_z : ℤ) × ((k : ℕ)
            → k < arena_max_players
            → Still
                (one
                  (gameplay (phase_tick s s.phase).phase)
                  (arena_geoms s.arena_id)
                  wall_x
                  wall_z
                  (inputs k)
                  k
                  (s.players k))
                ((arena_tick s inputs).players k)))
unfolding arena_tick
arena_tick-one s inputs v idle e =
    let g = arena_geoms s.arena_id in
    let s1 = phase_tick s s.phase in
    let wall_x = wall s1 g.half_x in
    let wall_z = wall s1 g.half_z in
    let (bombs, blasts, players) = clock-Kept s s.phase e in
    let v1 : Calm s1 = record {
      bombs = λ i. rw bombs (v.bombs i);
      blasts = λ i. rw blasts (v.blasts i);
      hands = λ i. rw players (v.hands i);
    } in
    let s2 = players_tick arena_max_players 0 inputs g wall_x wall_z s1 in
    let s3 = push_pairs s2 in
    let (v2, each) = players_tick-one arena_max_players 0 inputs g wall_x wall_z s1 v1 idle in
    let v3 : Calm s3 = Kept-Calm s2 s3 (push_pairs-Kept s2) v2 in
    let kept = Kept-trans s2 s3 (round_end s3) (push_pairs-Kept s2) (round_end-Kept s3) in
    let v6 : Calm (round_end s3) = Kept-Calm s2 (round_end s3) kept v2 in
    let playing = gameplay s1.phase in
    let had : (k : ℕ)
        → k < arena_max_players
        → s2.players k ≡ one playing g wall_x wall_z (inputs k) k (s.players k) =
      λ k lt.
        (let inside : (leb 0 k && ltb k (0 + arena_max_players)) ≡ true = ground (arith, lt) in
          each k
          ∙ rw inside (ap (λ ps. one playing g wall_x wall_z (inputs k) k (ps k)) players)) in
    rw
      (
        bombs_tick-Calm arena_max_bombs 0 g wall_x wall_z s3 v3,
        detonations-Calm arena_max_bombs 0 s3 v3,
        blasts_tick-Calm arena_max_blasts 0 s3 v3,
      )
      (
        record { bombs = v6.bombs; blasts = v6.blasts; hands = v6.hands },
        (
          wall_x,
          wall_z,
          λ k lt. subst (λ p. Still p ((round_end s3).players k)) (had k lt) (kept.players k),
        ),
      )

-- A tick of the countdown that is not its last, and its last.
module _ (s : ArenaState) (inputs : Array ℕ) (v : Calm s) (idle : (i : ℕ) → Idle (inputs i))
    (e : s.phase ≡ phase_countdown) (k : ℕ) (lt : k < arena_max_players)
    (a : Asleep (s.players k)) where
  sleeps : (phase_tick s s.phase).phase ≡ phase_countdown → Asleep ((arena_tick s inputs).players k)
  sleeps q =
      let (_, (wall_x, wall_z, still)) = arena_tick-one s inputs v idle e in
      let quiet : gameplay (phase_tick s s.phase).phase ≡ false = rw q refl in
      let st : Still (one false (arena_geoms s.arena_id) wall_x wall_z (inputs k) k (s.players k))
          ((arena_tick s inputs).players k) =
        subst
          (λ b.
            Still (one b (arena_geoms s.arena_id) wall_x wall_z (inputs k) k (s.players k))
              ((arena_tick s inputs).players k))
          quiet (still k lt) in
      let b = one-Asleep (arena_geoms s.arena_id) wall_x wall_z (inputs k) k (s.players k) a in
      record { dead = st.state ∙ b.dead; over = omega (arith, st.timer, b.over) }

  wakes : (phase_tick s s.phase).phase ≡ phase_play → Awake ((arena_tick s inputs).players k)
  wakes q =
      let (_, (wall_x, wall_z, still)) = arena_tick-one s inputs v idle e in
      let plays : gameplay (phase_tick s s.phase).phase ≡ true = rw q refl in
      let st : Still (one true (arena_geoms s.arena_id) wall_x wall_z (inputs k) k (s.players k))
          ((arena_tick s inputs).players k) =
        subst
          (λ b.
            Still (one b (arena_geoms s.arena_id) wall_x wall_z (inputs k) k (s.players k))
              ((arena_tick s inputs).players k))
          plays (still k lt) in
      let (state, hp) =
        one-Awake (arena_geoms s.arena_id) wall_x wall_z (inputs k) k (s.players k) a in
      (st.state ∙ state, st.hp ∙ hp)

-- The clock of a countdown.
clock :
    (s : ArenaState) (ph : Phase)
    → s.phase ≡ ph
    → ph ≡ phase_countdown
    → ((2 ≤ s.phase_timer) × ((phase_tick s ph).phase ≡ phase_countdown))
      ⊎ ((s.phase_timer ≤ 1) × ((phase_tick s ph).phase ≡ phase_play))
unfolding phase_tick
clock s phase_countdown e c = elim (Bool-cases (s.phase_timer - 1 == 0)) [
  | inl done ↦ rw done (inr (ground (arith, done), refl))
  | inr runs ↦ rw runs (inl (ground (arith, runs), e))
]
clock s phase_play e c = absurd (cc)
clock s phase_sudden_death e c = absurd (cc)
clock s phase_round_end e c = absurd (cc)

abbrev pub Untouched : List (Array ℕ) → Type 0
Untouched ticks =
    All (λ inputs. (i : ℕ) → (input_bomb (inputs i) ≡ false) × (input_set (inputs i) ≡ false)) ticks

-- From a countdown of n + 1 ticks on.
plays-Awake :
    (n : ℕ) (s : ArenaState) (ticks : List (Array ℕ)) (k : ℕ)
    → Calm s
    → s.phase ≡ phase_countdown
    → s.phase_timer ≡ n + 1
    → length ticks ≡ n + 1
    → Untouched ticks
    → k < arena_max_players
    → Asleep (s.players k)
    → Awake ((play s ticks).players k)
plays-Awake n s [] k v e t l u lt a = absurd (omega (arith, l))
plays-Awake zero s (inputs ∷ (more ∷ rest)) k v e t l u lt a = absurd (omega (arith, l))
plays-Awake zero s (inputs ∷ []) k v e t l (idle, u) lt a = elim (clock s s.phase refl e) [
  | inl (two, counts) ↦ absurd (omega (arith, two, t))
  | inr (last, plays) ↦ wakes s inputs v idle e k lt a plays
]
plays-Awake (suc n) s (inputs ∷ rest) k v e t l (idle, u) lt a = elim (clock s s.phase refl e) [
  | inr (last, plays) ↦ absurd (omega (arith, last, t))
  | inl (two, counts) ↦ elim (countdown_tick s inputs e) [
    | inr (last, moved) ↦ absurd (omega (arith, last, t))
    | inl (two', phase, timer) ↦
        let (calm, _) = arena_tick-one s inputs v idle e in
        plays-Awake n (arena_tick s inputs) rest k calm phase (omega (arith, timer, t))
          (omega (arith, l)) u lt (sleeps s inputs v idle e k lt a counts)
  ]
]

init-Calm : (arena_id num_players seed : ℕ) → Calm (init arena_id num_players seed)
unfolding init round_reset fresh_player
init-Calm arena_id num_players seed = record {
  bombs = λ i. refl;
  blasts = λ i. refl;
  hands = λ i. ground arith;
}

init-Asleep :
    (arena_id num_players seed k : ℕ)
    → num_players ≤ k
    → Asleep ((init arena_id num_players seed).players k)
unfolding init round_reset fresh_player
init-Asleep arena_id num_players seed k h =
    let out : ltb k num_players ≡ false = ground (arith, h) in
    rw out (record { dead = refl; over = omega arith })

-- After arena_init and the 180 ticks of the first countdown, in which nobody presses the bomb button
-- or the set button and the sticks and jumps are any, each of the four slots from num_players on
-- holds an idle player with full health.
pub unused_slot-wakes :
    (arena_id num_players seed : ℕ) (ticks : List (Array ℕ)) (k : ℕ)
    → length ticks ≡ Tuning.tune_countdown_ticks
    → Untouched ticks
    → num_players ≤ k
    → k < arena_max_players
    → let p = (play (init arena_id num_players seed) ticks).players k in
      (p.state ≡ pstate_idle) × (p.hp ≡ Tuning.tune_start_hp)
unfolding init round_reset
unused_slot-wakes arena_id num_players seed ticks k l u h lt =
    plays-Awake 179 (init arena_id num_players seed) ticks k (init-Calm arena_id num_players seed)
      refl refl l u lt (init-Asleep arena_id num_players seed k h)
