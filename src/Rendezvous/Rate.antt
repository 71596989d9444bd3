-- ===== src/Rendezvous/Rate.antt =====
-- The rate limit of rate_take in src/lobby/rendezvous.c, over many packets.
use bmhero_arena.Common.{
  ℕ, ◌+◌, ◌*◌, ◌^◌, ◌≤◌, ◌<◌, ◌≡◌, arith, if◌then◌else◌, List, [], ◌∷◌, All, u32, sub_u32,
}
use bmhero_arena.Rendezvous.{RateBucket, take_token}

-- How many of the packets of one bucket pass, from the gaps in milliseconds between them.
unfoldable pub granted : RateBucket → List ℕ → ℕ
granted b [] = 0
granted b (gap ∷ gaps) =
    let (b', passed) = take_token b (u32 (b.last_ms + gap)) in
    (if passed then 1 else 0) + granted b' gaps

abbrev pub total : List ℕ → ℕ
total [] = 0
total (gap ∷ gaps) = gap + total gaps

since : (last gap : ℕ) → last < 2 ^ 32 → gap < 2 ^ 32 → sub_u32 (u32 (last + gap)) last ≡ gap
since last gap h g = omega arith

-- One packet: what it takes was there or has come in since the last one.
take_token_pays :
    (b : RateBucket) (now gap : ℕ)
    → sub_u32 now b.last_ms ≡ gap
    → b.tokens_milli ≤ 40000
    → let (b', passed) = take_token b now in
      ((b'.tokens_milli + (if passed then 1000 else 0)) ≤ b.tokens_milli + 20 * gap)
      × (b'.tokens_milli ≤ 40000)
      × (b'.last_ms ≡ now)
unfolding take_token
take_token_pays b now gap e h = (ground arith, ground arith, ground arith)

-- Whatever the packets of one bucket, over any stretch of time with gaps below 2^32 ms, those that
-- pass cost at most the tokens that were there and twenty a second.
pub granted_bound :
    (b : RateBucket) (gaps : List ℕ)
    → b.last_ms < 2 ^ 32
    → b.tokens_milli ≤ 40000
    → All (λ gap. gap < 2 ^ 32) gaps
    → 1000 * granted b gaps ≤ b.tokens_milli + 20 * total gaps
unfolding granted
granted_bound b [] h t small = omega arith
granted_bound b (gap ∷ gaps) h t (g, small) =
    let now = u32 (b.last_ms + gap) in
    let (pays, cap, last) = take_token_pays b now gap (since b.last_ms gap h g) t in
    let rest = granted_bound (take_token b now).0 gaps (omega arith) cap small in ground arith
