-- ===== src/Common/Arrays.antt =====
-- Fixed C arrays as functions of the index, and the loops that search them.
-- An array of n elements is read and written only at indices below n: the bound of each loop is
-- written at its use, and the functions that return an index are shown to return one in range.
use Prim.Native.Nat.{ℕ, zero, suc, ◌+◌, ◌≤◌, ◌<◌}
use mathlib.Core.Path.{◌≡◌, refl}
use mathlib.Core.Logic.{inl, inr}
use mathlib.Core.Bool.{Bool, true, false, ◌&&◌, ◌||◌}
use mathlib.Core.Option.{Option, none, some}
use native.Mathlib.Omega.{arith}
use bmhero_arena.Common.Tests.{==_self, ◌==◌, ltb, if◌then◌else◌, Bool-cases, Option-cases}

abbrev pub Array {ℓ} : Type ℓ → Type ℓ
Array A = ℕ → A

-- a[i] = v
abbrev pub update {ℓ} : {A : Type ℓ} → Array A → ℕ → A → Array A
update a i v j = if j == i then v else a j

pub update_self {ℓ} : {A : Type ℓ} (a : Array A) (i : ℕ) (v : A) → update a i v i ≡ v
update_self a i v = rw (==_self i) refl

-- for (k = i; k < i + n; k++) if (p(k)) return k; return -1;
first_from : ℕ → ℕ → (ℕ → Bool) → Option ℕ
first_from zero i p = none
first_from (suc n) i p = let rest = first_from n (i + 1) p in if p i then some i else rest

unfoldable pub first_index : ℕ → (ℕ → Bool) → Option ℕ
unfolding first_from
first_index n p = first_from n 0 p

first_from-some :
    (n i : ℕ) (p : ℕ → Bool) {k : ℕ}
    → first_from n i p ≡ some k
    → (i ≤ k) × (k < i + n) × (p k ≡ true)
unfolding first_from
first_from-some zero i p e = absurd (cc)
first_from-some (suc n) i p {k} e = ground (arith, first_from-some n (i + 1) p {k = k})

pub first_index-some :
    (n : ℕ) (p : ℕ → Bool) (k : ℕ) → first_index n p ≡ some k → (k < n) × (p k ≡ true)
unfolding first_index
first_index-some n p k e = let r = first_from-some n 0 p e in (omega arith, r.2)

first_from_before :
    (n i : ℕ) (p : ℕ → Bool) {k : ℕ} (j : ℕ)
    → first_from n i p ≡ some k
    → i ≤ j
    → j < k
    → p j ≡ false
unfolding first_from
first_from_before zero i p j e h g = absurd (cc)
first_from_before (suc n) i p {k} j e h g = elim (Bool-cases (p i)) [
  | inl hit ↦ absurd (ground arith)
  | inr miss ↦ elim (Bool-cases (j == i)) [
    | inl same ↦ ground arith
    | inr other ↦ first_from_before n (i + 1) p j (ground arith) (ground arith) g
  ]
]

-- The index that is returned is the first one that passes.
pub first_index_before :
    (n : ℕ) (p : ℕ → Bool) (k j : ℕ) → first_index n p ≡ some k → j < k → p j ≡ false
unfolding first_index
first_index_before n p k j e h = first_from_before n 0 p j e (omega arith) h

first_from-none :
    (n i : ℕ) (p : ℕ → Bool) (j : ℕ) → first_from n i p ≡ none → i ≤ j → j < i + n → p j ≡ false
unfolding first_from
first_from-none zero i p j e h g = absurd (omega arith)
first_from-none (suc n) i p j e h g = elim (Bool-cases (p i)) [
  | inl hit ↦ absurd (ground arith)
  | inr miss ↦ elim (Bool-cases (j == i)) [
    | inl same ↦ ground arith
    | inr other ↦ first_from-none n (i + 1) p j (ground arith) (ground arith) (omega arith)
  ]
]

pub first_index-none : (n : ℕ) (p : ℕ → Bool) (j : ℕ) → first_index n p ≡ none → j < n → p j ≡ false
unfolding first_index
first_index-none n p j e h = first_from-none n 0 p j e (omega arith) (omega arith)

-- for (k = i; k < i + n; k++) if (!p(k)) return 0; return 1;
all_from : ℕ → ℕ → (ℕ → Bool) → Bool
all_from zero i p = true
all_from (suc n) i p = p i && all_from n (i + 1) p

unfoldable pub all_below : ℕ → (ℕ → Bool) → Bool
unfolding all_from
all_below n p = all_from n 0 p

-- for (k = i; k < i + n; k++) if (p(k)) return 1; return 0;
any_from : ℕ → ℕ → (ℕ → Bool) → Bool
any_from zero i p = false
any_from (suc n) i p = p i || any_from n (i + 1) p

unfoldable pub any_below : ℕ → (ℕ → Bool) → Bool
unfolding any_from
any_below n p = any_from n 0 p

-- The number of indices from i on that pass, n of them to look at.
unfoldable pub count_from : ℕ → ℕ → (ℕ → Bool) → ℕ
count_from zero i p = 0
count_from (suc n) i p = (if p i then 1 else 0) + count_from n (i + 1) p

all_from_sound :
    (n i : ℕ) (p : ℕ → Bool) (j : ℕ) → all_from n i p ≡ true → i ≤ j → j < i + n → p j ≡ true
unfolding all_from
all_from_sound zero i p j e h g = absurd (omega arith)
all_from_sound (suc n) i p j e h g = elim (Bool-cases (j == i)) [
  | inl same ↦ ground arith
  | inr other ↦ all_from_sound n (i + 1) p j (ground arith) (ground arith) (omega arith)
]

pub all_below_sound : (n : ℕ) (p : ℕ → Bool) (j : ℕ) → all_below n p ≡ true → j < n → p j ≡ true
unfolding all_below
all_below_sound n p j e h = all_from_sound n 0 p j e (omega arith) (omega arith)

-- The search returns an index that is in range, passes, and is the first to.
pub first_index_found :
    (n : ℕ) (p : ℕ → Bool) (k : ℕ)
    → k < n
    → p k ≡ true
    → ((j : ℕ) → j < k → p j ≡ false)
    → first_index n p ≡ some k
first_index_found n p k h at before = elim (Option-cases (first_index n p)) [
  | inl e ↦ absurd (ground (arith, first_index-none n p k e h))
  | inr (m, e) ↦
      let (lt, hit) = first_index-some n p m e in
      elim (Bool-cases (m == k)) [
        | inl same ↦ let q : m ≡ k = ground arith in rw (e, q) refl
        | inr other ↦ elim (Bool-cases (ltb m k)) [
          | inl below ↦ absurd (ground (arith, before m))
          | inr above ↦ absurd (ground (arith, first_index_before n p m k e))
        ]
      ]
]
