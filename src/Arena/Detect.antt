-- ===== src/Arena/Detect.antt =====
-- What arena_hash of src/arena/arena_state.h cannot miss: a change in one byte of the state.
use bmhero_arena.Common.{
  ℕ, zero, suc, ◌+◌, ◌*◌, ◌^◌, ◌≡◌, ◌≢◌, ◌<◌, refl, List, [], ◌∷◌, ◌++◌, Array, All, All-append,
  bit_xor, bit_xor-one, bit_xor-left, bit_xor-right, bit_xor-lt, u32, u8, ◌>>>◌, arith,
}
use mathlib.Core.Path.{subst}
use bmhero_arena.Arena.State.{
  arena_max_players, arena_max_bombs, arena_max_blasts, ArenaPlayer, ArenaBomb, ArenaBlast,
  ArenaState,
}
use bmhero_arena.Arena.Hash.{
  vec_bytes, player_bytes, bomb_bytes, blast_bytes, array_bytes, state_bytes, fnv, arena_hash,
  phase_value,
}

abbrev Bytes : List ℕ → Type 0
Bytes bs = All (λ b. b < 256) bs

times_odd : (x y : ℕ) → x < 2 ^ 32 → y < 2 ^ 32 → u32 (x * 16777619) ≡ u32 (y * 16777619) → x ≡ y
times_odd x y p q e = omega arith

-- A step of the hash tells two values apart, and two bytes.
step_value :
    (h k b : ℕ)
    → h < 2 ^ 32
    → k < 2 ^ 32
    → b < 256
    → u32 (bit_xor h b * 16777619) ≡ u32 (bit_xor k b * 16777619)
    → h ≡ k
step_value h k b p q r e = bit_xor-left h k b (
    times_odd (bit_xor h b) (bit_xor k b) (bit_xor-lt 32 h b p (omega arith))
      (bit_xor-lt 32 k b q (omega arith)) e)

step_byte :
    (h b c : ℕ)
    → h < 2 ^ 32
    → b < 256
    → c < 256
    → u32 (bit_xor h b * 16777619) ≡ u32 (bit_xor h c * 16777619)
    → b ≡ c
step_byte h b c p q r e = bit_xor-right b c h (
    times_odd (bit_xor h b) (bit_xor h c) (bit_xor-lt 32 h b p (omega arith))
      (bit_xor-lt 32 h c p (omega arith)) e)

fnv_value :
    (bs : List ℕ) (h k : ℕ) → h < 2 ^ 32 → k < 2 ^ 32 → Bytes bs → fnv h bs ≡ fnv k bs → h ≡ k
unfolding fnv
fnv_value [] h k p q v e = e
fnv_value (b ∷ bs) h k p q (r, v) e = step_value h k b p q r (
    fnv_value bs (u32 (bit_xor h b * 16777619)) (u32 (bit_xor k b * 16777619)) (omega arith)
      (omega arith) v e)

-- Two lists that differ in just one byte have different hashes.
pub fnv_byte :
    (pre : List ℕ) (b c : ℕ) (bs : List ℕ) (h : ℕ)
    → h < 2 ^ 32
    → b < 256
    → c < 256
    → Bytes bs
    → fnv h (pre ++ b ∷ bs) ≡ fnv h (pre ++ c ∷ bs)
    → b ≡ c
unfolding fnv
fnv_byte [] b c bs h p q r v e = step_byte h b c p q r (
    fnv_value bs (u32 (bit_xor h b * 16777619)) (u32 (bit_xor h c * 16777619)) (omega arith)
      (omega arith) v e)
fnv_byte (a ∷ pre) b c bs h p q r v e =
    fnv_byte pre b c bs (u32 (bit_xor h a * 16777619)) (omega arith) q r v e

array_bytes-Bytes {ℓ} :
    {A : Type ℓ} (f : A → List ℕ) (n i : ℕ) (a : Array A)
    → ((x : A) → Bytes (f x))
    → Bytes (array_bytes f n i a)
unfolding array_bytes
array_bytes-Bytes f zero i a h = tt
array_bytes-Bytes f (suc n) i a h =
    All-append (λ b. b < 256) (f (a i)) (array_bytes f n (i + 1) a) (h (a i))
      (array_bytes-Bytes f n (i + 1) a h)

player_bytes-Bytes : (p : ArenaPlayer) → Bytes (player_bytes p)
unfolding player_bytes vec_bytes
player_bytes-Bytes p = ground arith

bomb_bytes-Bytes : (b : ArenaBomb) → Bytes (bomb_bytes b)
unfolding bomb_bytes vec_bytes
bomb_bytes-Bytes b = ground arith

blast_bytes-Bytes : (b : ArenaBlast) → Bytes (blast_bytes b)
unfolding blast_bytes vec_bytes
blast_bytes-Bytes b = ground arith

abbrev arrays : ArenaState → List ℕ
arrays s =
    array_bytes player_bytes arena_max_players 0 s.players
    ++ array_bytes bomb_bytes arena_max_bombs 0 s.bombs
    ++ array_bytes blast_bytes arena_max_blasts 0 s.blasts

arrays-Bytes : (s : ArenaState) → Bytes (arrays s)
arrays-Bytes s =
    let ps = array_bytes player_bytes arena_max_players 0 s.players in
    let bs = array_bytes bomb_bytes arena_max_bombs 0 s.bombs in
    let ls = array_bytes blast_bytes arena_max_blasts 0 s.blasts in
    let all = All-append (λ b. b < 256) in
    let players = array_bytes-Bytes player_bytes arena_max_players 0 s.players player_bytes-Bytes in
    let bombs = array_bytes-Bytes bomb_bytes arena_max_bombs 0 s.bombs bomb_bytes-Bytes in
    let blasts = array_bytes-Bytes blast_bytes arena_max_blasts 0 s.blasts blast_bytes-Bytes in
    all (ps ++ bs) ls (all ps bs players bombs) blasts

-- The bytes behind the lowest one of the random state.
abbrev behind : ArenaState → ℕ → List ℕ
behind s r =
    u8 (r >>> 8)
    ∷ u8 (r >>> 16)
    ∷ u8 (r >>> 24)
    ∷ u8 s.round
    ∷ u8 (phase_value s.phase)
    ∷ u8 s.phase_timer
    ∷ u8 (s.phase_timer >>> 8)
    ∷ u8 s.arena_id
    ∷ u8 s.num_players
    ∷ u8 s.shrink_step
    ∷ u8 (s.shrink_step >>> 8)
    ∷ arrays s

behind-Bytes : (s : ArenaState) (r : ℕ) → Bytes (behind s r)
behind-Bytes s r = ground (arith, arrays-Bytes s)

same_behind : (s : ArenaState) (r : ℕ) → behind s (bit_xor r 1) ≡ behind s r
same_behind s r =
    let one : bit_xor r 1 >>> 8 ≡ r >>> 8 = omega (arith, bit_xor-one r) in
    let two : bit_xor r 1 >>> 16 ≡ r >>> 16 = omega (arith, bit_xor-one r) in
    let three : bit_xor r 1 >>> 24 ≡ r >>> 24 = omega (arith, bit_xor-one r) in
    rw (one, two, three) refl

-- The hash tells a state from the one whose random state has another lowest bit.
pub arena_hash-rng :
    (s : ArenaState) → arena_hash (record s { rng = bit_xor s.rng 1 }) ≢ arena_hash s
unfolding arena_hash state_bytes
arena_hash-rng s e =
    let pre = u8 s.tick ∷ u8 (s.tick >>> 8) ∷ u8 (s.tick >>> 16) ∷ u8 (s.tick >>> 24) ∷ [] in
    let e' : fnv 2166136261 (pre ++ u8 (bit_xor s.rng 1) ∷ behind s s.rng)
        ≡ fnv 2166136261 (pre ++ u8 s.rng ∷ behind s s.rng) =
      subst
        (λ bs.
          fnv 2166136261 (pre ++ u8 (bit_xor s.rng 1) ∷ bs)
          ≡ fnv 2166136261 (pre ++ u8 s.rng ∷ behind s s.rng))
        (same_behind s s.rng) e in
    let q =
      fnv_byte pre (u8 (bit_xor s.rng 1)) (u8 s.rng) (behind s s.rng) 2166136261 (omega arith)
        (omega arith) (omega arith) (behind-Bytes s s.rng) e' in
    omega (arith, q, bit_xor-one s.rng)
