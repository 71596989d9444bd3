-- ===== src/Sync/RoundTrip.antt =====
-- A bundle that is written is read back.
use bmhero_arena.Common.{
  ℕ, zero, suc, ◌+◌, ◌^◌, ◌<◌, ◌≤◌, ◌≡◌, refl, ap, true, false, Option, none, some, List, [], ◌++◌,
  length, ltb, Array, arith, All,
}
use mathlib.Core.List.{append-nil}
use bmhero_arena.Arena.State.{arena_max_players}
use bmhero_arena.Arena.Hash.{le16, le32, state_size, length-state_bytes}
use bmhero_arena.Sync.{bundle_max_ticks, bundle_ring, SyncSession, SyncDesyncInfo}
use bmhero_arena.Sync.Bundle.{
  BundleHeader, Bundle, remote_word, reported_info, slice, bundle_of, write_all, entry_bytes,
  file_of, sync_dump_bundle, read32, read16, read_all, read_entry, is_bundle, load_body,
  bundle_load,
}
use bmhero_arena.Sync.Reading.{
  read32-le32, read_bytes-append, read_all-write_all, IsEntry, read_entry-entry_bytes, IsRow,
  read_row, IsHeader, read_header-header_bytes,
}

-- What the loader relies on: the ranges of the C types, and the sizes of the arrays.
pub record IsBundle (b : Bundle) : Type 0 where
  pub header : IsHeader b.header
  pub ring_length : length b.ring ≡ bundle_ring
  pub ring : All IsEntry b.ring
  pub snap_length : length b.snap ≡ state_size
  pub rec_length : length b.rec ≤ bundle_max_ticks
  pub rec : All IsRow b.rec

is_bundle-true : (h : BundleHeader) → IsHeader h → is_bundle h ≡ true
is_bundle-true h v = ground (arith, v.magic, v.version, v.players_min, v.players_max)

read_count :
    (b : Bundle)
    → IsBundle b
    → read32 (le32 (length b.rec) ++ write_all (write_all le16) b.rec)
      ≡ some (length b.rec, write_all (write_all le16) b.rec)
read_count b v =
    read32-le32 (length b.rec) (write_all (write_all le16) b.rec) (omega (arith, v.rec_length))

read_rows :
    (b : Bundle)
    → IsBundle b
    → read_all (read_all read16 arena_max_players) (length b.rec) (write_all (write_all le16) b.rec)
      ≡ some (b.rec, [])
read_rows b v =
    let all =
      read_all-write_all (read_all read16 arena_max_players) (write_all le16) IsRow read_row b.rec
        [] v.rec in
    rw (← append-nil (write_all (write_all le16) b.rec)) all

read_ring :
    (b : Bundle) (f : List ℕ)
    → IsBundle b
    → read_all read_entry bundle_ring (write_all entry_bytes b.ring ++ f) ≡ some (b.ring, f)
read_ring b f v =
    rw (← v.ring_length)
      (read_all-write_all read_entry entry_bytes IsEntry read_entry-entry_bytes b.ring f v.ring)

load_body-file :
    (b : Bundle)
    → IsBundle b
    → load_body b.header (
        write_all entry_bytes b.ring
        ++ (b.snap ++ (le32 (length b.rec) ++ write_all (write_all le16) b.rec)))
      ≡ some b
unfolding load_body
load_body-file b v =
    let rows = write_all (write_all le16) b.rec in
    let few : ltb bundle_max_ticks (length b.rec) ≡ false = ground (arith, v.rec_length) in
    rw
      (
        read_ring b (b.snap ++ (le32 (length b.rec) ++ rows)) v,
        read_bytes-append state_size b.snap (le32 (length b.rec) ++ rows) v.snap_length,
        read_count b v,
        few,
        read_rows b v,
      )
      refl

bundle_load-file_of : (b : Bundle) → IsBundle b → bundle_load (file_of b) ≡ some b
unfolding bundle_load file_of
bundle_load-file_of b v =
    let body =
      write_all entry_bytes b.ring
      ++ (b.snap ++ (le32 (length b.rec) ++ write_all (write_all le16) b.rec)) in
    rw (read_header-header_bytes b.header body v.header, is_bundle-true b.header v.header)
      (load_body-file b v)

pub slice-length {ℓ} : {A : Type ℓ} (n i : ℕ) (a : Array A) → length (slice n i a) ≡ n
slice-length zero i a = refl
slice-length (suc n) i a = ap suc (slice-length n (suc i) a)

pub slice-All {ℓ} :
    {A : Type ℓ} (P : A → Type 0) (n i : ℕ) (a : Array A)
    → ((k : ℕ) → i ≤ k → k < i + n → P (a k))
    → All P (slice n i a)
slice-All P zero i a h = tt
slice-All P (suc n) i a h = (
  h i (omega arith) (omega arith),
  slice-All P n (suc i) a (λ k lo hi. h k (omega (arith, lo)) (omega (arith, hi))),
)

-- The ranges of a session's fields.
pub record InRange (s : SyncSession) : Type 0 where
  pub players_min : 2 ≤ s.num_players
  pub players_max : s.num_players ≤ arena_max_players
  pub seed : s.seed < 2 ^ 32
  pub arena_id : s.state.arena_id < 256
  pub local_slot : s.local_slot < 256
  pub ring : (i : ℕ) → i < bundle_ring → IsEntry (s.ring i)
  pub rec_count : s.rec_count ≤ bundle_max_ticks
  pub rec : (t : ℕ) → t < s.rec_count → (p : ℕ) → p < arena_max_players → s.rec t p < 2 ^ 16
  pub report :
      (i : SyncDesyncInfo)
      → s.dinfo ≡ some i
      → (i.tick < 2 ^ 32)
        × (i.local_hash < 2 ^ 32)
        × (i.remote_hash < 2 ^ 32)
        × (remote_word i.remote_slot < 2 ^ 32)

abbrev FitsReport : Option SyncDesyncInfo → Type 0
FitsReport o =
    let (tick, mine, theirs, remote) = reported_info o in
    (tick < 2 ^ 32) × (mine < 2 ^ 32) × (theirs < 2 ^ 32) × (remote < 2 ^ 32)

reported-Fits :
    (o : Option SyncDesyncInfo)
    → ((i : SyncDesyncInfo) → o ≡ some i → FitsReport (some i))
    → FitsReport o
reported-Fits none h = (omega arith, omega arith, omega arith, omega arith)
reported-Fits (some i) h = h i refl

bundle_of-IsBundle :
    (net_version : ℕ) (s : SyncSession)
    → net_version < 2 ^ 32
    → InRange s
    → IsBundle (bundle_of net_version s)
unfolding bundle_of
bundle_of-IsBundle net_version s n v =
    let (tick, mine, theirs, remote) = reported-Fits s.dinfo v.report in
    record {
      header = record {
        magic = refl;
        version = refl;
        net_version = n;
        seed = v.seed;
        arena_id = v.arena_id;
        players_min = v.players_min;
        players_max = v.players_max;
        local_slot = v.local_slot;
        detect_tick = tick;
        local_checksum = mine;
        remote_checksum = theirs;
        remote_slot = remote;
      };
      ring_length = slice-length bundle_ring 0 s.ring;
      ring = slice-All IsEntry bundle_ring 0 s.ring (λ k lo hi. v.ring k hi);
      snap_length = length-state_bytes s.state;
      rec_length = omega (
        arith,
        slice-length s.rec_count 0 (λ t. slice arena_max_players 0 (s.rec t)),
        v.rec_count,
      );
      rec =
          slice-All IsRow s.rec_count 0 (λ t. slice arena_max_players 0 (s.rec t))
            (λ t lo hi. (
              slice-length arena_max_players 0 (s.rec t),
              slice-All (λ v. v < 2 ^ 16) arena_max_players 0 (s.rec t)
                  (λ p lo' hi'. v.rec t (omega (arith, hi)) p (omega (arith, hi'))),
            ));
    }

-- The file that sync_dump_bundle writes for a session whose fields are in the ranges of their C
-- types, with two to four players and at most 36000 recorded ticks, is read back by bundle_load of
-- the replay tool: header, ring, bytes of the state and recorded inputs.
pub bundle_load-sync_dump_bundle :
    (net_version : ℕ) (s : SyncSession)
    → net_version < 2 ^ 32
    → InRange s
    → bundle_load (sync_dump_bundle net_version s) ≡ some (bundle_of net_version s)
unfolding sync_dump_bundle
bundle_load-sync_dump_bundle net_version s n v =
    bundle_load-file_of (bundle_of net_version s) (bundle_of-IsBundle net_version s n v)
