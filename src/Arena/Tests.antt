-- ===== src/Arena/Tests.antt =====
-- Runs of the simulation of src/arena.
use bmhero_arena.Common.{
  List, [], ◌∷◌, Bool-cases, inl, inr, zero, suc, ap, ◌==◌, if◌then◌else◌, ℕ, ◌+◌, ◌≤◌, ◌<◌, ◌^◌,
  ◌≡◌, ◌⊎◌, refl, true, false, [], ◌∷◌, arith, pos, negsuc, ◌-ℤ◌, ◌*ℤ◌, ◌≤ℤ◌, i32, shr, Array,
  length,
}
use bmhero_arena.Arena.Math.{Vec3q, isqrt64, root_bits, skip_bits, qlen2, qmul}
use bmhero_arena.Arena.Input.{
  clamp_stick, input_pack, input_sx, input_sy, input_jump, input_bomb, input_set,
}
use bmhero_arena.Arena.State.{
  pstate_idle, phase_countdown, phase_play, phase_round_end, ArenaState, no_player, no_blast,
  put_player,
}
use bmhero_arena.Arena.Tuning
use bmhero_arena.Arena.Geom.{arena_nitros_standin}
use bmhero_arena.Arena.Collide.{collide_static}
use bmhero_arena.Arena.Bombs.{round_reset, init}
use bmhero_arena.Arena.Hands.{player_tick}
use bmhero_arena.Arena.Blasts.{hurts}
use bmhero_arena.Arena.Account.{IsAccounted}
use bmhero_arena.Arena.Account.Run.{play, play-init-IsAccounted}
use bmhero_arena.Arena.Root.{IsRoot, isqrt64-IsRoot}
use bmhero_arena.Arena.Walls.{Contained, collide_static-Bounded}
use bmhero_arena.Arena.Course.{countdown-ends}
use bmhero_arena.Arena.Hurt.{holder-unhurt}
use bmhero_arena.Arena.Wakes.{Untouched, unused_slot-wakes}
use bmhero_arena.Arena.Life.{IsHealthy}
use bmhero_arena.Arena.Life.Run.{play-init-IsHealthy}
use bmhero_arena.Arena.Stick.{input-pack}

-- Two players, and a tick in which the first presses the bomb button.
abbrev duel : ArenaState
duel = init 0 2 1

abbrev pressed : Array ℕ
pressed i = 10272

play-init-IsAccounted_example : IsAccounted (play (init 0 2 1) (pressed ∷ pressed ∷ []))
play-init-IsAccounted_example = play-init-IsAccounted 0 2 1 (pressed ∷ pressed ∷ []) (omega arith)

isqrt64-IsRoot_example : IsRoot 10 (isqrt64 10)
isqrt64-IsRoot_example = isqrt64-IsRoot 10 (omega arith)

-- Below the floor and past the wall.
abbrev outside : Vec3q
outside = record { x = pos 40000; y = negsuc 9; z = pos 0 }

abbrev outward : Vec3q
outward = record { x = pos 500; y = negsuc 9; z = pos 3 }

inside_walls : pos 0 ≤ℤ (pos 32426 -ℤ pos 1433)
unfolding ◌-ℤ◌
inside_walls = omega arith

collide_static-Bounded_example :
    Contained outside outward
      (pos 32426 -ℤ pos 1433)
      (pos 32426 -ℤ pos 1433)
      (collide_static outside outward (pos 1433) arena_nitros_standin (pos 32426) (pos 32426))
collide_static-Bounded_example =
    collide_static-Bounded outside outward (pos 1433) arena_nitros_standin (pos 32426) (pos 32426)
      refl inside_walls inside_walls

duel_counts : duel.phase ≡ phase_countdown
unfolding init round_reset
duel_counts = refl

duel_timer : duel.phase_timer ≡ 179 + 1
unfolding init round_reset
duel_timer = refl

countdown-ends_example :
    ((length (pressed ∷ []) ≤ 179) × ((play duel (pressed ∷ [])).phase ≡ phase_countdown))
    ⊎ ((length (pressed ∷ []) ≡ 179 + 1)
        × (((play duel (pressed ∷ [])).phase ≡ phase_play)
            ⊎ ((play duel (pressed ∷ [])).phase ≡ phase_round_end)))
countdown-ends_example = countdown-ends 179 duel (pressed ∷ []) duel_counts duel_timer (omega arith)

-- The first player holds a bomb.
abbrev held : ArenaState
held =
    put_player (record duel { phase = phase_play }) 0 (record no_player { hp = 4; held_bomb = 1 })

presses_bomb : input_bomb 10272 ≡ true
unfolding input_bomb
presses_bomb = refl

holder-unhurt_example :
    hurts no_blast
      (pos 6000)
      ((player_tick held 0 10272 arena_nitros_standin (pos 32426) (pos 32426)).players 0)
    ≡ false
holder-unhurt_example =
    holder-unhurt held 0 10272 arena_nitros_standin (pos 32426) (pos 32426) no_blast (pos 6000) refl
      (omega arith) (omega arith) (omega arith) presses_bomb

-- The 180 ticks of a countdown, in which the first player pushes the stick.
abbrev pushes : Array ℕ
pushes i = if i == 0 then 31 else 0

abbrev pushed_for : ℕ → List (Array ℕ)
pushed_for zero = []
pushed_for (suc n) = pushes ∷ pushed_for n

pushes-Idle : (i : ℕ) → (input_bomb (pushes i) ≡ false) × (input_set (pushes i) ≡ false)
unfolding input_bomb input_set
pushes-Idle i = elim (Bool-cases (i == 0)) [
  | inl first ↦ rw first (refl, refl)
  | inr other ↦ rw other (refl, refl)
]

pushed_for-Untouched : (n : ℕ) → Untouched (pushed_for n)
pushed_for-Untouched zero = tt
pushed_for-Untouched (suc n) = (pushes-Idle, pushed_for-Untouched n)

length-pushed_for : (n : ℕ) → length (pushed_for n) ≡ n
length-pushed_for zero = refl
length-pushed_for (suc n) = ap suc (length-pushed_for n)

unused_slot-wakes_example :
    let p = (play (init 0 2 1) (pushed_for 180)).players 2 in
    (p.state ≡ pstate_idle) × (p.hp ≡ Tuning.tune_start_hp)
unused_slot-wakes_example =
    unused_slot-wakes 0 2 1 (pushed_for 180) 2 (length-pushed_for 180) (pushed_for-Untouched 180)
      (omega arith) (omega arith)

input-pack_example :
    let i = input_pack (pos 40) (negsuc 4) true false true in
    (i < 2 ^ 15)
    × (input_sx i ≡ clamp_stick (pos 40))
    × (input_sy i ≡ clamp_stick (negsuc 4))
    × (input_jump i ≡ true)
    × (input_bomb i ≡ false)
    × (input_set i ≡ true)
input-pack_example = input-pack (pos 40) (negsuc 4) true false true

-- 3-4-5, and half of -1.5.
qlen2_345 : qlen2 (pos 3) (negsuc 3) ≡ pos 5
unfolding qlen2 i32 isqrt64 root_bits skip_bits
qlen2_345 = refl

qmul_half : qmul (negsuc 6143) (pos 2048) ≡ negsuc 3071
unfolding qmul ◌*ℤ◌ i32 shr
qmul_half = refl

play-init-IsHealthy_example : IsHealthy (play (init 0 2 1) (pressed ∷ pressed ∷ []))
play-init-IsHealthy_example = play-init-IsHealthy 0 2 1 (pressed ∷ pressed ∷ [])
