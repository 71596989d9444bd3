-- ===== src/Arena/Root.antt =====
-- isqrt64 is the floor of the square root.
use bmhero_arena.Common.{
  ℕ, zero, suc, ◌+◌, ◌-◌, ◌*◌, ◌/◌, ◌^◌, ◌≤◌, ◌<◌, ◌≡◌, ◌≢◌, if◌then◌else◌, ◌⊎◌, refl, true,
  Bool-cases, inl, inr, arith, leb, ltb, u32,
}
use native.Mathlib.Nat.{pow-succ', one-le-pow}
use bmhero_arena.Arena.Math.{skip_bits, root_bits, isqrt64}

abbrev pub IsRoot : ℕ → ℕ → Type 0
IsRoot v r = (r * r ≤ v) × (v < (r + 1) * (r + 1))

-- With the root's bits above d found, `part` of them: the loop's variables, for the whole v.
record Invariant (whole v r part d : ℕ) : Type 0 where
  pub split : whole ≡ v + part * part
  pub twice : r ≡ part * (2 * d)
  pub below : whole < (part + 2 * d) * (part + 2 * d)

-- One round of the loop at the bit d: it is in the root, or not.
found :
    (whole v r part d : ℕ)
    → Invariant whole v r part d
    → r + d * d ≤ v
    → (whole ≡ (v - (r + d * d)) + (part + d) * (part + d))
      × (r / 2 + d * d ≡ (part + d) * d)
      × (whole < (part + d + d) * (part + d + d))
found whole v r part d i h =
    (omega (arith, i.split, i.twice), omega (arith, i.twice), omega (arith, i.below))

missed :
    (whole v r part d : ℕ)
    → Invariant whole v r part d
    → v < r + d * d
    → (r / 2 ≡ part * d) × (whole < (part + d) * (part + d))
missed whole v r part d i h = (omega (arith, i.twice), omega (arith, i.split, i.twice))

quarter : (e : ℕ) → (2 * e) * (2 * e) / 4 ≡ e * e
quarter e = omega arith

root_bits_zero : (fuel v r : ℕ) → root_bits fuel v r 0 ≡ r
unfolding root_bits
root_bits_zero zero v r = refl
root_bits_zero (suc fuel) v r = refl

root_bits_round :
    (fuel v r bit : ℕ)
    → bit ≢ 0
    → root_bits (suc fuel) v r bit ≡ (
        if leb (r + bit) v
        then root_bits fuel (v - (r + bit)) (r / 2 + bit) (bit / 4)
        else root_bits fuel v (r / 2) (bit / 4))
unfolding root_bits
root_bits_round fuel v r bit h = elim (Bool-cases (leb (r + bit) v)) [
  | inl fits ↦ rw fits (ground arith)
  | inr over ↦ rw over (ground arith)
]

square-positive : (e : ℕ) → 1 ≤ e → e * e ≢ 0
square-positive zero h = λ q. omega arith
square-positive (suc e) h = λ q. omega arith

-- The bit 2 * e leads to the bit e.
halved :
    (whole v r part e : ℕ)
    → (whole ≡ v + part * part)
    → r ≡ part * (2 * e)
    → whole < (part + 2 * e) * (part + 2 * e)
    → Invariant whole v r part e
halved whole v r part e split twice below = record { split = split; twice = twice; below = below }

root_bits-IsRoot :
    (fuel k whole v r part : ℕ)
    → k < fuel
    → Invariant whole v r part (2 ^ k)
    → IsRoot whole (root_bits fuel v r (2 ^ k * 2 ^ k))
root_bits-IsRoot zero k whole v r part lt i = absurd (omega arith)
root_bits-IsRoot (suc fuel) zero whole v r part lt i = elim (Bool-cases (leb (r + 1) v)) [
  | inl fits ↦
      let (split, next, below) = found whole v r part 1 i (ground arith) in
      rw
        (
          root_bits_round fuel v r 1 (omega arith),
          fits,
          root_bits_zero fuel (v - (r + 1)) (r / 2 + 1),
          next,
        )
        (omega arith, omega arith)
  | inr over ↦
      let (next, below) = missed whole v r part 1 i (ground arith) in
      rw (root_bits_round fuel v r 1 (omega arith), over, root_bits_zero fuel v (r / 2), next)
        (omega (arith, i.split), omega arith)
]
root_bits-IsRoot (suc fuel) (suc k) whole v r part lt i =
    let e = 2 ^ k in
    let positive = square-positive e (one-le-pow k 2 (omega arith)) in
    let j : Invariant whole v r part (2 * e) = rw (pow-succ' 2 k) at i in
    elim (Bool-cases (leb (r + (2 * e) * (2 * e)) v)) [
      | inl fits ↦
          let (split, next, below) = found whole v r part (2 * e) j (ground arith) in
          rw
            (
              pow-succ' 2 k,
              root_bits_round fuel v r ((2 * e) * (2 * e)) (omega arith),
              fits,
              quarter e,
            )
            (root_bits-IsRoot fuel k whole _ _ (part + 2 * e) (omega arith)
              (halved whole _ _ (part + 2 * e) e split (omega arith) below))
      | inr over ↦
          let (next, below) = missed whole v r part (2 * e) j (ground arith) in
          rw
            (
              pow-succ' 2 k,
              root_bits_round fuel v r ((2 * e) * (2 * e)) (omega arith),
              over,
              quarter e,
            )
            (root_bits-IsRoot fuel k whole _ _ part (omega arith)
              (halved whole _ _ part e j.split (omega arith) below))
    ]

too_big : (t : ℕ) → 2 ^ 64 ≤ (2 ^ 32 + t) * (2 ^ 32 + t)
too_big t = omega arith

-- A root of a uint64_t fits in a uint32_t.
fits_u32 : (r : ℕ) → r * r < 2 ^ 64 → u32 r ≡ r
fits_u32 r h = elim (Bool-cases (ltb r (2 ^ 32))) [
  | inl small ↦ ground arith
  | inr large ↦
      let t = r - 2 ^ 32 in
      let at : r ≡ 2 ^ 32 + t = ground arith in
      let over : 2 ^ 64 ≤ r * r = rw at (too_big t) in absurd (omega arith)
]

skip_bits_zero : (fuel v : ℕ) → skip_bits fuel v 0 ≡ 0
unfolding skip_bits
skip_bits_zero zero v = refl
skip_bits_zero (suc fuel) v = ground arith

-- Where the first loop stops: at the power 4 ^ j, the highest that is at most v, or at 0.
abbrev Stops : ℕ → ℕ → ℕ → Type 0
Stops v k bit =
    ((j : ℕ) × (j ≤ k) × (bit ≡ 2 ^ j * 2 ^ j) × (v < (2 * 2 ^ j) * (2 * 2 ^ j)))
    ⊎ ((bit ≡ 0) × (v ≡ 0))

skip_bits-Stops :
    (fuel k v : ℕ)
    → k < fuel
    → v < (2 * 2 ^ k) * (2 * 2 ^ k)
    → Stops v k (skip_bits fuel v (2 ^ k * 2 ^ k))
unfolding skip_bits
skip_bits-Stops zero k v lt h = absurd (omega arith)
skip_bits-Stops (suc fuel) zero v lt h = elim (Bool-cases (ltb v 1)) [
  | inr reached ↦ rw reached (inl (0, omega arith, refl, h))
  | inl above ↦ rw (above, skip_bits_zero fuel v) (inr (refl, ground arith))
]
skip_bits-Stops (suc fuel) (suc k) v lt h = elim (Bool-cases (ltb v (2 ^ suc k * 2 ^ suc k))) [
  | inr reached ↦ rw reached (inl (suc k, omega arith, refl, h))
  | inl above ↦
      let e = 2 ^ k in
      let next : 2 ^ suc k * 2 ^ suc k / 4 ≡ e * e = rw (pow-succ' 2 k) (quarter e) in
      let lower : ltb v ((2 * e) * (2 * e)) ≡ true = rw (pow-succ' 2 k) at above in
      rw (above, next)
        (weaker v k (skip_bits fuel v (e * e))
          (skip_bits-Stops fuel k v (omega arith) (ground arith)))
]
  where
    weaker : (v k bit : ℕ) → Stops v k bit → Stops v (suc k) bit
    weaker v k bit (inl (j, le, at, below)) = inl (j, omega arith, at, below)
    weaker v k bit (inr zero_out) = inr zero_out

-- For every uint64_t v, isqrt64 returns the largest r with r * r <= v.
pub isqrt64-IsRoot : (v : ℕ) → v < 2 ^ 64 → IsRoot v (isqrt64 v)
unfolding isqrt64
isqrt64-IsRoot v h = elim (skip_bits-Stops 32 31 v (omega arith) (omega arith)) [
  | inr (at, none_left) ↦ rw (at, root_bits_zero 32 v 0, none_left) (omega arith, omega arith)
  | inl (j, le, at, below) ↦
      let (low, high) =
        root_bits-IsRoot 32 j v v 0 0 (omega arith)
          (record { split = omega arith; twice = omega arith; below = omega arith }) in
      let r = root_bits 32 v 0 (2 ^ j * 2 ^ j) in rw (at, fits_u32 r (omega arith)) (low, high)
]
