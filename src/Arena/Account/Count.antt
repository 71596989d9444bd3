-- ===== src/Arena/Account/Count.antt =====
-- Counting the indices that pass a test.
use bmhero_arena.Common.{
  ℕ, zero, suc, ◌+◌, ◌≤◌, ◌<◌, ◌≡◌, ◌≢◌, refl, Bool, false, if◌then◌else◌, count_from, ◌==◌, arith,
  Bool-cases, inl, inr,
}

abbrev pub bit : Bool → ℕ
bit b = if b then 1 else 0

pub count_same :
    (n i : ℕ) (p q : ℕ → Bool)
    → ((j : ℕ) → i ≤ j → j < i + n → p j ≡ q j)
    → count_from n i p ≡ count_from n i q
unfolding count_from
count_same zero i p q f = refl
count_same (suc n) i p q f =
    rw
      (
        f i (omega arith) (omega arith),
        count_same n (i + 1) p q (λ j h g. f j (omega arith) (omega arith)),
      )
      refl

-- A change at one index.
pub count_update :
    (n i k : ℕ) (p q : ℕ → Bool)
    → i ≤ k
    → k < i + n
    → ((j : ℕ) → j ≢ k → p j ≡ q j)
    → count_from n i q + bit (p k) ≡ count_from n i p + bit (q k)
unfolding count_from
count_update zero i k p q h g f = absurd (omega arith)
count_update (suc n) i k p q h g f = elim (Bool-cases (i == k)) [
  | inl same ↦
      let at : i ≡ k = ground arith in
      let rest = count_same n (i + 1) p q (λ j a b. f j (λ e. absurd (omega arith))) in ground arith
  | inr other ↦
      let rest = count_update n (i + 1) k p q (ground arith) (omega arith) f in
      let here = f i (ground arith) in ground arith
]

pub count_none : (n i : ℕ) (p : ℕ → Bool) → ((j : ℕ) → p j ≡ false) → count_from n i p ≡ 0
unfolding count_from
count_none zero i p f = refl
count_none (suc n) i p f = rw (f i, count_none n (i + 1) p f) refl
