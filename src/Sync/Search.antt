-- ===== src/Sync/Search.antt =====
-- first_divergence of tools/replay_bundle.c on a ring that goes its own way at one tick.
use bmhero_arena.Common.{
  ℕ, zero, suc, ◌+◌, ◌≤◌, ◌<◌, ◌≡◌, ◌≢◌, ◌∙◌, sym, ap, List, [], ◌∷◌, ◌==◌, Array, arith,
  Bool-cases, inl, inr, All,
}
use bmhero_arena.Sync.{TickHash}
use bmhero_arena.Sync.Bundle.{slice, Divergence, compare_entry, compare_ring}

-- An entry that the search passes over, or that it takes for tick m or later.
abbrev pub NotBefore : ℕ → Array ℕ → TickHash → Type 0
NotBefore m hashes e = 0 < e.tick → e.tick < m → e.hash ≡ hashes e.tick

abbrev IsBest : ℕ → Divergence → Type 0
IsBest m d = 0 < d.tick → m ≤ d.tick

module _ (count m : ℕ) (hashes : Array ℕ) where
  compare_entry-IsBest :
      (best : Divergence) (e : TickHash)
      → NotBefore m hashes e
      → IsBest m best
      → IsBest m (compare_entry count hashes best e)
  compare_entry-IsBest best e n b = ground (arith, n, b)

  -- Once tick m is found, it stays.
  compare_ring-stays :
      (best : Divergence) (es : List TickHash)
      → 0 < m
      → All (NotBefore m hashes) es
      → best.tick ≡ m
      → (compare_ring count hashes best es).tick ≡ m
  unfolding compare_ring
  compare_ring-stays best [] pos v q = q
  compare_ring-stays best (e ∷ es) pos (n, v) q =
      let kept : (compare_entry count hashes best e).tick ≡ m = ground (arith, n, q) in
      compare_ring-stays (compare_entry count hashes best e) es pos v kept

  -- An entry of tick m with another hash is found, wherever it stands.
  pub compare_ring-finds :
      (a : Array TickHash) (k n i : ℕ) (best : Divergence)
      → 0 < m
      → m ≤ count
      → (a k).tick ≡ m
      → (a k).hash ≢ hashes m
      → i ≤ k
      → k < i + n
      → All (NotBefore m hashes) (slice n i a)
      → IsBest m best
      → (compare_ring count hashes best (slice n i a)).tick ≡ m
  unfolding compare_ring
  compare_ring-finds a k zero i best pos le t h lo hi v b = absurd (omega (arith, lo, hi))
  compare_ring-finds a k (suc n) i best pos le t h lo hi (now, v) b = elim (Bool-cases (i == k)) [
    | inl here ↦
        let q : i ≡ k = ground (arith, here) in
        let t' : (a i).tick ≡ m = ap (λ j. (a j).tick) q ∙ t in
        let h' : (a i).hash ≢ hashes (a i).tick =
          λ e. h (ap (λ j. (a j).hash) (sym q) ∙ e ∙ ap hashes t') in
        let found : (compare_entry count hashes best (a i)).tick ≡ m =
          ground (arith, t', h', b, pos, le) in
        compare_ring-stays (compare_entry count hashes best (a i)) (slice n (suc i) a) pos v found
    | inr on ↦
        compare_ring-finds a k n (suc i) (compare_entry count hashes best (a i)) pos le t h
          (ground (arith, on, lo)) (omega (arith, hi)) v (compare_entry-IsBest best (a i) now b)
  ]
