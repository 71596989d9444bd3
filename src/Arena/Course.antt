-- ===== src/Arena/Course.antt =====
-- The course of a match: the phases, the clock, the shrinking walls.
use bmhero_arena.Common.{
  ℕ, zero, suc, ◌+◌, ◌-◌, ◌≤◌, ◌<◌, ◌≡◌, ◌⊎◌, refl, ◌∙◌, sym, ap, true, false, ◌&&◌, Bool-cases,
  inl, inr, Option, none, some, leb, ◌==◌, arith, Array, List, [], ◌∷◌, u16, u32, length,
}
use mathlib.Core.Path.{subst}
use bmhero_arena.Arena.State.{
  arena_max_players, arena_max_bombs, arena_max_blasts, Phase, phase_countdown, phase_play,
  phase_sudden_death, phase_round_end, ArenaState, gameplay,
}
use bmhero_arena.Arena.Tuning
use bmhero_arena.Arena.Geom.{arena_geoms}
use bmhero_arena.Arena.Bombs.{round_reset}
use bmhero_arena.Arena.Tick.{
  match_over, phase_tick, wall, players_tick, push_pairs, bombs_tick, detonations, blasts_tick,
  alive_count, last_alive, award, round_end, arena_tick,
}
use bmhero_arena.Arena.Frame.{
  Frame, Frame-refl, Frame-trans, framed, players_tick-Frame, push_pairs-Frame, bombs_tick-Frame,
  detonations-Frame, blasts_tick-Frame,
}
use bmhero_arena.Arena.Account.Run.{play}

-- Stages 2 to 5.
abbrev action : ArenaState → Array ℕ → ArenaState
action s inputs =
    let g = arena_geoms s.arena_id in
    let s1 = phase_tick s s.phase in
    let wall_x = wall s1 g.half_x in
    let wall_z = wall s1 g.half_z in
    let s2 = players_tick arena_max_players 0 inputs g wall_x wall_z s1 in
    let s4 = bombs_tick arena_max_bombs 0 g wall_x wall_z (push_pairs s2) in
    blasts_tick arena_max_blasts 0 (detonations arena_max_bombs 0 s4)

action-Frame : (s : ArenaState) (inputs : Array ℕ) → Frame (phase_tick s s.phase) (action s inputs)
action-Frame s inputs =
    let g = arena_geoms s.arena_id in
    let s1 = phase_tick s s.phase in
    let wall_x = wall s1 g.half_x in
    let wall_z = wall s1 g.half_z in
    let s2 = players_tick arena_max_players 0 inputs g wall_x wall_z s1 in
    let s3 = push_pairs s2 in
    let s4 = bombs_tick arena_max_bombs 0 g wall_x wall_z s3 in
    let s5 = detonations arena_max_bombs 0 s4 in
    Frame-trans s1 s2 _ (players_tick-Frame arena_max_players 0 inputs g wall_x wall_z s1) (
      Frame-trans s2 s3 _ (push_pairs-Frame s2) (
        Frame-trans s3 s4 _ (bombs_tick-Frame arena_max_bombs 0 g wall_x wall_z s3) (
          Frame-trans s4 s5 _ (detonations-Frame arena_max_bombs 0 s4)
            (blasts_tick-Frame arena_max_blasts 0 s5))))

-- What a tick may do to the phase: the clock's move, and the end of the round after it.
pub data Clock (s : ArenaState) : Phase → ℕ → Type 0 where
  counting :
      s.phase ≡ phase_countdown → 2 ≤ s.phase_timer → Clock s phase_countdown (s.phase_timer - 1)
  begins : s.phase ≡ phase_countdown → s.phase_timer ≤ 1 → Clock s phase_play 0
  playing :
      s.phase ≡ phase_play
      → u16 (s.phase_timer + 1) < Tuning.tune_round_ticks
      → Clock s phase_play (u16 (s.phase_timer + 1))
  time_up :
      s.phase ≡ phase_play
      → Tuning.tune_round_ticks ≤ u16 (s.phase_timer + 1)
      → Clock s phase_sudden_death (u16 (s.phase_timer + 1))
  shrinking : s.phase ≡ phase_sudden_death → Clock s phase_sudden_death (u16 (s.phase_timer + 1))
  waiting :
      s.phase ≡ phase_round_end → 2 ≤ s.phase_timer → Clock s phase_round_end (s.phase_timer - 1)
  again :
      s.phase ≡ phase_round_end
      → s.phase_timer ≤ 1
      → match_over s ≡ false
      → Clock s phase_countdown Tuning.tune_countdown_ticks
  over :
      s.phase ≡ phase_round_end
      → s.phase_timer ≤ 1
      → match_over s ≡ true
      → Clock s phase_round_end 0

-- The phase that stays.
stays :
    (s : ArenaState) (ph : Phase) (timer : ℕ)
    → s.phase ≡ ph
    → Clock s ph timer
    → Clock s s.phase timer
stays s ph timer e c = subst (λ x. Clock s x timer) (sym e) c

phase_tick-Clock :
    (s : ArenaState) (ph : Phase)
    → s.phase ≡ ph
    → Clock s (phase_tick s ph).phase (phase_tick s ph).phase_timer
unfolding phase_tick
phase_tick-Clock s phase_countdown e = elim (Bool-cases (s.phase_timer - 1 == 0)) [
  | inl done ↦
      let at : s.phase_timer - 1 ≡ 0 = ground arith in rw (done, at) (begins e (omega arith))
  | inr runs ↦ rw runs (stays s phase_countdown _ e (counting e (ground arith)))
]
phase_tick-Clock s phase_play e =
    elim (Bool-cases (leb Tuning.tune_round_ticks (u16 (s.phase_timer + 1)))) [
      | inl late ↦ rw late (time_up e (ground arith))
      | inr early ↦ rw early (stays s phase_play _ e (playing e (ground arith)))
    ]
phase_tick-Clock s phase_sudden_death e = stays s phase_sudden_death _ e (shrinking e)
phase_tick-Clock s phase_round_end e = elim (Bool-cases (s.phase_timer - 1 == 0)) [
  | inr waits ↦ rw waits (stays s phase_round_end _ e (waiting e (ground arith)))
  | inl done ↦
      let at : s.phase_timer - 1 ≡ 0 = ground arith in
      elim (Bool-cases (match_over s)) [
        | inl won ↦ rw (done, won, at) (stays s phase_round_end _ e (over e (omega arith) won))
        | inr undecided ↦ rw (done, undecided) (again e (omega arith) undecided)
      ]
]

-- The end of a round, after the clock: the phase and the timer are left, or the round is over.
abbrev pub Ends : Phase → ℕ → ArenaState → Type 0
Ends ph timer t =
    ((t.phase ≡ ph) × (t.phase_timer ≡ timer))
    ⊎ ((gameplay ph ≡ true)
        × (t.phase ≡ phase_round_end)
        × (t.phase_timer ≡ Tuning.tune_round_end_ticks))

award-Frame : (s : ArenaState) (o : Option ℕ) → Frame s (award s o)
award-Frame s none = Frame-refl s
award-Frame s (some i) = framed s _ _ _

round_end-Ends : (s : ArenaState) → Ends s.phase s.phase_timer (round_end s)
unfolding round_end
round_end-Ends s = elim (Bool-cases (gameplay s.phase && leb (alive_count s) 1)) [
  | inl ended ↦ rw ended (inr (ground arith, refl, refl))
  | inr goes_on ↦ rw goes_on (inl (refl, refl))
]

Ends-Frame :
    (s t u : ArenaState) → Frame s t → Ends t.phase t.phase_timer u → Ends s.phase s.phase_timer u
Ends-Frame s t u f (inl (phase, timer)) = inl (phase ∙ f.phase, timer ∙ f.phase_timer)
Ends-Frame s t u f (inr (played, ended, timer)) =
    inr (sym (ap gameplay f.phase) ∙ played, ended, timer)

-- What a tick does to the phase and its timer.
abbrev pub Moves : ArenaState → ArenaState → Type 0
Moves s t = (ph : Phase) × (timer : ℕ) × Clock s ph timer × Ends ph timer t

-- A tick moves the phase and its timer by the clock alone - countdown to play, play to sudden death
-- at two minutes, the round's end back to a countdown unless the match is over - and after that a
-- round that is played may end, for three seconds.
pub arena_tick-phase : (s : ArenaState) (inputs : Array ℕ) → Moves s (arena_tick s inputs)
unfolding arena_tick
arena_tick-phase s inputs =
    let s1 = phase_tick s s.phase in
    let s5 = action s inputs in
    let f = action-Frame s inputs in
    (
      s1.phase,
      s1.phase_timer,
      phase_tick-Clock s s.phase refl,
      Ends-Frame s1 s5 (round_end s5) f (round_end-Ends s5),
    )

-- The fields that a tick keeps, but for its own count.
abbrev Keeps : ArenaState → ArenaState → Type 0
Keeps s t =
    (t.rng ≡ s.rng)
    × (t.arena_id ≡ s.arena_id)
    × (t.num_players ≡ s.num_players)
    × (t.tick ≡ s.tick)

phase_tick-Keeps : (s : ArenaState) (ph : Phase) → Keeps s (phase_tick s ph)
unfolding phase_tick round_reset
phase_tick-Keeps s phase_countdown = (refl, refl, refl, refl)
phase_tick-Keeps s phase_play = (ground arith, ground arith, ground arith, ground arith)
phase_tick-Keeps s phase_sudden_death = (refl, refl, refl, refl)
phase_tick-Keeps s phase_round_end = (ground arith, ground arith, ground arith, ground arith)

round_end-Keeps : (s : ArenaState) → Keeps s (round_end s)
unfolding round_end
round_end-Keeps s =
    let f = award-Frame s (last_alive s.num_players s) in
    elim (Bool-cases (gameplay s.phase && leb (alive_count s) 1)) [
      | inl ended ↦ rw ended (f.rng, f.arena_id, f.num_players, f.tick)
      | inr goes_on ↦ rw goes_on (refl, refl, refl, refl)
    ]

-- A tick draws no random number, and changes neither the map nor the number of players; it counts
-- itself, modulo 2^32.
pub arena_tick-keeps :
    (s : ArenaState) (inputs : Array ℕ)
    → let t = arena_tick s inputs in
      (t.rng ≡ s.rng)
      × (t.arena_id ≡ s.arena_id)
      × (t.num_players ≡ s.num_players)
      × (t.tick ≡ u32 (s.tick + 1))
unfolding arena_tick
arena_tick-keeps s inputs =
    let s1 = phase_tick s s.phase in
    let s5 = action s inputs in
    let (rng, arena_id, num, tick) = phase_tick-Keeps s s.phase in
    let f = action-Frame s inputs in
    let (rng', arena_id', num', tick') = round_end-Keeps s5 in
    (
      rng' ∙ f.rng ∙ rng,
      arena_id' ∙ f.arena_id ∙ arena_id,
      num' ∙ f.num_players ∙ num,
      ap (λ n. u32 (n + 1)) (tick' ∙ f.tick ∙ tick),
    )

-- One tick of a countdown.
pub countdown_tick :
    (s : ArenaState) (inputs : Array ℕ)
    → s.phase ≡ phase_countdown
    → let t = arena_tick s inputs in
      ((2 ≤ s.phase_timer) × (t.phase ≡ phase_countdown) × (t.phase_timer ≡ s.phase_timer - 1))
      ⊎ ((s.phase_timer ≤ 1) × ((t.phase ≡ phase_play) ⊎ (t.phase ≡ phase_round_end)))
countdown_tick s inputs e = after (arena_tick s inputs) (arena_tick-phase s inputs)
  where
    after :
        (t : ArenaState)
        → ((ph : Phase) × (timer : ℕ) × Clock s ph timer × Ends ph timer t)
        → ((2 ≤ s.phase_timer) × (t.phase ≡ phase_countdown) × (t.phase_timer ≡ s.phase_timer - 1))
          ⊎ ((s.phase_timer ≤ 1) × ((t.phase ≡ phase_play) ⊎ (t.phase ≡ phase_round_end)))
    after t (ph, timer, counting q h, inl (a, b)) = inl (h, a, b)
    after t (ph, timer, counting q h, inr (a, b, c)) = absurd (cc)
    after t (ph, timer, begins q h, inl (a, b)) = inr (h, inl a)
    after t (ph, timer, begins q h, inr (a, b, c)) = inr (h, inr b)
    after t (ph, timer, playing q h, r) = absurd (cc)
    after t (ph, timer, time_up q h, r) = absurd (cc)
    after t (ph, timer, shrinking q, r) = absurd (cc)
    after t (ph, timer, waiting q h, r) = absurd (cc)
    after t (ph, timer, again q h o, r) = absurd (cc)
    after t (ph, timer, over q h o, r) = absurd (cc)

-- A countdown of n ticks is over after n ticks and not before, whatever the inputs.
pub countdown-ends :
    (n : ℕ) (s : ArenaState) (ticks : List (Array ℕ))
    → s.phase ≡ phase_countdown
    → s.phase_timer ≡ n + 1
    → length ticks ≤ n + 1
    → ((length ticks ≤ n) × ((play s ticks).phase ≡ phase_countdown))
      ⊎ ((length ticks ≡ n + 1)
          × (((play s ticks).phase ≡ phase_play) ⊎ ((play s ticks).phase ≡ phase_round_end)))
countdown-ends n s [] e q h = inl (omega arith, e)
countdown-ends zero s (inputs ∷ (more ∷ rest)) e q h = absurd (omega arith)
countdown-ends zero s (inputs ∷ []) e q h = elim (countdown_tick s inputs e) [
  | inl (two, phase, timer) ↦ absurd (omega arith)
  | inr (one, moved) ↦ inr (refl, moved)
]
countdown-ends (suc n) s (inputs ∷ rest) e q h = elim (countdown_tick s inputs e) [
  | inr (one, moved) ↦ absurd (omega arith)
  | inl (two, phase, timer) ↦
      elim (countdown-ends n (arena_tick s inputs) rest phase (timer ∙ omega arith) (omega arith)) [
        | inl (short, still) ↦ inl (omega arith, still)
        | inr (all, moved) ↦ inr (omega arith, moved)
      ]
]
