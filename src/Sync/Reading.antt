-- ===== src/Sync/Reading.antt =====
-- The readers of tools/replay_bundle.c on what src/netplay/sync_session.c writes.
use bmhero_arena.Common.{
  ℕ, ◌+◌, ◌*◌, ◌^◌, ◌<◌, ◌≤◌, ◌≡◌, refl, ap, false, some, List, [], ◌∷◌, ◌++◌, length,
  length-append, take, drop, ltb, arith, All, u8, ◌>>>◌,
}
use mathlib.Core.List.{append_assoc}
use bmhero_arena.Arena.State.{arena_max_players}
use bmhero_arena.Arena.Hash.{le16, le32}
use bmhero_arena.Sync.{TickHash}
use bmhero_arena.Sync.Bundle.{
  bundle_magic, bundle_version, BundleHeader, header_bytes, write_all, entry_bytes, Reader,
  read_bytes, read32, read16, read_all, read_entry, read_header,
}

pub read32-le32 : (v : ℕ) (f : List ℕ) → v < 2 ^ 32 → read32 (le32 v ++ f) ≡ some (v, f)
unfolding read32
read32-le32 v f h = ground arith

read16-le16 : (v : ℕ) (f : List ℕ) → v < 2 ^ 16 → read16 (le16 v ++ f) ≡ some (v, f)
unfolding read16
read16-le16 v f h = ground arith

module _ {ℓ} {A : Type ℓ} where
  take-append : (xs ys : List A) → take (length xs) (xs ++ ys) ≡ xs
  take-append [] ys = refl
  take-append (x ∷ xs) ys = ap (λ l. x ∷ l) (take-append xs ys)

  drop-append : (xs ys : List A) → drop (length xs) (xs ++ ys) ≡ ys
  drop-append [] ys = refl
  drop-append (x ∷ xs) ys = drop-append xs ys

pub read_bytes-append :
    (n : ℕ) (xs f : List ℕ) → length xs ≡ n → read_bytes n (xs ++ f) ≡ some (xs, f)
unfolding read_bytes
read_bytes-append n xs f e =
    let long : ltb (length (xs ++ f)) n ≡ false = ground (arith, length-append xs f, e) in
    rw (← e) (
      let long' : ltb (length (xs ++ f)) (length xs) ≡ false = ground (arith, length-append xs f) in
      rw (long', take-append xs f, drop-append xs f) refl)

-- What is written element by element is read element by element.
pub read_all-write_all {ℓ} :
    {A : Type ℓ} (r : Reader A) (w : A → List ℕ) (P : A → Type 0)
    → ((x : A) (f : List ℕ) → P x → r (w x ++ f) ≡ some (x, f))
    → (xs : List A) (f : List ℕ) → All P xs
    → read_all r (length xs) (write_all w xs ++ f) ≡ some (xs, f)
unfolding read_all write_all
read_all-write_all r w P one [] f h = refl
read_all-write_all r w P one (x ∷ xs) f (h, hs) =
    rw
      (
        append_assoc (w x) (write_all w xs) f,
        one x (write_all w xs ++ f) h,
        read_all-write_all r w P one xs f hs,
      )
      refl

abbrev pub IsEntry : TickHash → Type 0
IsEntry e = (e.tick < 2 ^ 32) × (e.hash < 2 ^ 32)

pub read_entry-entry_bytes :
    (e : TickHash) (f : List ℕ) → IsEntry e → read_entry (entry_bytes e ++ f) ≡ some (e, f)
unfolding read_entry entry_bytes
read_entry-entry_bytes e f (t, k) =
    rw (read32-le32 e.tick (le32 e.hash ++ f) t, read32-le32 e.hash f k) refl

abbrev pub IsRow : List ℕ → Type 0
IsRow row = (length row ≡ arena_max_players) × All (λ v. v < 2 ^ 16) row

pub read_row :
    (row f : List ℕ)
    → IsRow row
    → read_all read16 arena_max_players (write_all le16 row ++ f) ≡ some (row, f)
read_row row f (n, h) =
    rw (← n) (read_all-write_all read16 le16 (λ v. v < 2 ^ 16) read16-le16 row f h)

-- Every field of the header fits its width.
pub record IsHeader (h : BundleHeader) : Type 0 where
  pub magic : h.magic ≡ bundle_magic
  pub version : h.version ≡ bundle_version
  pub net_version : h.net_version < 2 ^ 32
  pub seed : h.seed < 2 ^ 32
  pub arena_id : h.arena_id < 256
  pub players_min : 2 ≤ h.num_players
  pub players_max : h.num_players ≤ arena_max_players
  pub local_slot : h.local_slot < 256
  pub detect_tick : h.detect_tick < 2 ^ 32
  pub local_checksum : h.local_checksum < 2 ^ 32
  pub remote_checksum : h.remote_checksum < 2 ^ 32
  pub remote_slot : h.remote_slot < 2 ^ 32

-- The value of four bytes, and of one.
le32-value :
    (v : ℕ)
    → v < 2 ^ 32
    → u8 v + u8 (v >>> 8) * 2 ^ 8 + u8 (v >>> 16) * 2 ^ 16 + u8 (v >>> 24) * 2 ^ 24 ≡ v
le32-value v h = ground arith

u8-value : (v : ℕ) → v < 256 → u8 v ≡ v
u8-value v h = omega arith

pub read_header-header_bytes :
    (h : BundleHeader) (f : List ℕ) → IsHeader h → read_header (header_bytes h ++ f) ≡ some (h, f)
unfolding read_header header_bytes read32
read_header-header_bytes h f v =
    let rest =
      le32 h.detect_tick
      ++ (le32 h.local_checksum ++ (le32 h.remote_checksum ++ (le32 h.remote_slot ++ f))) in
    let small : h.num_players < 256 = omega (arith, v.players_max) in
    rw
      (
        read_bytes-append 4 (u8 h.arena_id ∷ u8 h.num_players ∷ u8 h.local_slot ∷ 0 ∷ []) rest refl,
        le32-value h.magic (omega (arith, v.magic)),
        le32-value h.version (omega (arith, v.version)),
        le32-value h.net_version v.net_version,
        le32-value h.seed v.seed,
        le32-value h.detect_tick v.detect_tick,
        le32-value h.local_checksum v.local_checksum,
        le32-value h.remote_checksum v.remote_checksum,
        le32-value h.remote_slot v.remote_slot,
        u8-value h.arena_id v.arena_id,
        u8-value h.num_players small,
        u8-value h.local_slot v.local_slot,
      )
      refl
