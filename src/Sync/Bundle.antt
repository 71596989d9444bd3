-- ===== src/Sync/Bundle.antt =====
-- The desync bundle: what sync_dump_bundle of src/netplay/sync_session.c writes, and what
-- tools/replay_bundle.c reads, replays and compares. A file is the list of its bytes; the files open
-- and close, and the printing is left out.
use bmhero_arena.Common.{
  ℕ, zero, suc, ◌+◌, ◌*◌, ◌-◌, ◌^◌, Bool, not, ◌&&◌, ◌||◌, Option, none, some, List, [], ◌∷◌, ◌++◌,
  length, take, drop, ltb, ◌==◌, if◌then◌else◌, Array, update, u8,
}
use bmhero_arena.Arena.State.{arena_max_players, ArenaState}
use bmhero_arena.Arena.Bombs.{init}
use bmhero_arena.Arena.Tick.{arena_tick}
use bmhero_arena.Arena.Hash.{arena_hash, le16, le32, state_bytes, state_size}
use bmhero_arena.Lobby.Code.{◌>>=◌}
use bmhero_arena.Sync.{bundle_max_ticks, bundle_ring, SyncSession, SyncDesyncInfo, TickHash}

abbrev pub bundle_magic : ℕ
bundle_magic = 0x41334442

abbrev pub bundle_version : ℕ
bundle_version = 1

-- BundleHeader, without its pad; `remote_slot` is the word that is written.
pub record BundleHeader : Type 0 where
  pub magic : ℕ
  pub version : ℕ
  pub net_version : ℕ
  pub seed : ℕ
  pub arena_id : ℕ
  pub num_players : ℕ
  pub local_slot : ℕ
  pub detect_tick : ℕ
  pub local_checksum : ℕ
  pub remote_checksum : ℕ
  pub remote_slot : ℕ

-- Bundle of replay_bundle.c; `snap` has the bytes of the state.
pub record Bundle : Type 0 where
  pub header : BundleHeader
  pub ring : List TickHash
  pub snap : List ℕ
  pub rec : List (List ℕ)

abbrev pub remote_word : Option ℕ → ℕ
remote_word none = 2 ^ 32 - 1
remote_word (some k) = k

-- The fields of the report, 0 without one.
abbrev pub reported_info : Option SyncDesyncInfo → ℕ × ℕ × ℕ × ℕ
reported_info none = (0, 0, 0, remote_word none)
reported_info (some i) = (i.tick, i.local_hash, i.remote_hash, remote_word i.remote_slot)

-- The elements of an array from index i on, n of them.
abbrev pub slice {ℓ} : {A : Type ℓ} → ℕ → ℕ → Array A → List A
slice zero i a = []
slice (suc n) i a = a i ∷ slice n (suc i) a

-- The bundle of a session, for the version that arena_net_version gives.
unfoldable pub bundle_of : ℕ → SyncSession → Bundle
bundle_of net_version s =
    let (tick, mine, theirs, remote) = reported_info s.dinfo in
    record {
      header = record {
        magic = bundle_magic;
        version = bundle_version;
        net_version = net_version;
        seed = s.seed;
        arena_id = s.state.arena_id;
        num_players = s.num_players;
        local_slot = s.local_slot;
        detect_tick = tick;
        local_checksum = mine;
        remote_checksum = theirs;
        remote_slot = remote;
      };
      ring = slice bundle_ring 0 s.ring;
      snap = state_bytes s.state;
      rec = slice s.rec_count 0 (λ t. slice arena_max_players 0 (s.rec t));
    }

unfoldable pub header_bytes : BundleHeader → List ℕ
header_bytes h =
    le32 h.magic
    ++ (le32 h.version
        ++ (le32 h.net_version
            ++ (le32 h.seed
                ++ ((u8 h.arena_id ∷ u8 h.num_players ∷ u8 h.local_slot ∷ 0 ∷ [])
                    ++ (le32 h.detect_tick
                        ++ (le32 h.local_checksum
                            ++ (le32 h.remote_checksum ++ le32 h.remote_slot)))))))

-- A loop of writes.
unfoldable pub write_all {ℓ} : {A : Type ℓ} → (A → List ℕ) → List A → List ℕ
write_all w [] = []
write_all w (x ∷ xs) = w x ++ write_all w xs

unfoldable pub entry_bytes : TickHash → List ℕ
entry_bytes e = le32 e.tick ++ le32 e.hash

-- The file of a bundle.
unfoldable pub file_of : Bundle → List ℕ
file_of b =
    header_bytes b.header
    ++ (write_all entry_bytes b.ring
        ++ (b.snap ++ (le32 (length b.rec) ++ write_all (write_all le16) b.rec)))

-- sync_dump_bundle
unfoldable pub sync_dump_bundle : ℕ → SyncSession → List ℕ
sync_dump_bundle net_version s = file_of (bundle_of net_version s)

-- A reader takes what it reads off the file; `none` is a file that is too short.
abbrev pub Reader {ℓ} : Type ℓ → Type ℓ
Reader A = List ℕ → Option (A × List ℕ)

unfoldable pub read_bytes : ℕ → Reader (List ℕ)
read_bytes n f = if ltb (length f) n then none else some (take n f, drop n f)

unfoldable pub read32 : Reader ℕ
read32 (a ∷ b ∷ c ∷ d ∷ f) = some (a + b * 2 ^ 8 + c * 2 ^ 16 + d * 2 ^ 24, f)
read32 f = none

unfoldable pub read16 : Reader ℕ
read16 (a ∷ b ∷ f) = some (a + b * 2 ^ 8, f)
read16 f = none

-- A loop of n reads.
unfoldable pub read_all {ℓ} : {A : Type ℓ} → Reader A → ℕ → Reader (List A)
read_all r zero f = some ([], f)
read_all r (suc n) f = do (x, f) ← r f; (xs, f) ← read_all r n f; some (x ∷ xs, f)

unfoldable pub read_entry : Reader TickHash
read_entry f = do
  (tick, f) ← read32 f
  (hash, f) ← read32 f
  some (record { tick = tick; hash = hash }, f)

abbrev pub byte_at : List ℕ → ℕ → ℕ
byte_at [] i = 0
byte_at (b ∷ bs) zero = b
byte_at (b ∷ bs) (suc i) = byte_at bs i

unfoldable pub read_header : Reader BundleHeader
read_header f = do
  (magic, f) ← read32 f
  (version, f) ← read32 f
  (net_version, f) ← read32 f
  (seed, f) ← read32 f
  (hb, f) ← read_bytes 4 f
  (tick, f) ← read32 f
  (mine, f) ← read32 f
  (theirs, f) ← read32 f
  (remote, f) ← read32 f
  some (
    record {
      magic = magic;
      version = version;
      net_version = net_version;
      seed = seed;
      arena_id = byte_at hb 0;
      num_players = byte_at hb 1;
      local_slot = byte_at hb 2;
      detect_tick = tick;
      local_checksum = mine;
      remote_checksum = theirs;
      remote_slot = remote;
    },
    f,
  )

abbrev pub is_bundle : BundleHeader → Bool
is_bundle h =
    h.magic == bundle_magic
    && h.version == bundle_version
    && not (ltb h.num_players 2 || ltb arena_max_players h.num_players)

-- bundle_load behind the header.
unfoldable pub load_body : BundleHeader → List ℕ → Option Bundle
load_body h f = do
  (ring, f) ← read_all read_entry bundle_ring f
  (snap, f) ← read_bytes state_size f
  (count, f) ← read32 f
  if ltb bundle_max_ticks count then none else (do
    (rows, f) ← read_all (read_all read16 arena_max_players) count f
    some (record { header = h; ring = ring; snap = snap; rec = rows }))

-- bundle_load: `none` is -1. Its allocation succeeds.
unfoldable pub bundle_load : List ℕ → Option Bundle
bundle_load f = do (h, f) ← read_header f; if is_bundle h then load_body h f else none

-- The inputs of a row.
abbrev pub row_inputs : List ℕ → Array ℕ
row_inputs row = byte_at row

-- replay of replay_bundle.c from a state on: the hashes by tick.
unfoldable pub replay_from : List (List ℕ) → ArenaState → Array ℕ → Array ℕ
replay_from [] s hashes = hashes
replay_from (row ∷ rows) s hashes =
    let t = arena_tick s (row_inputs row) in
    replay_from rows t (update hashes t.tick (arena_hash t))

unfoldable pub replay : Bundle → Array ℕ
replay b =
    let s = init b.header.arena_id b.header.num_players b.header.seed in
    replay_from b.rec s (update (λ k. 0) 0 (arena_hash s))

-- What first_divergence has found: the tick, 0 for none, and the two hashes.
pub record Divergence : Type 0 where
  pub tick : ℕ
  pub ring_hash : ℕ
  pub replay_hash : ℕ

-- One entry of the ring.
abbrev pub compare_entry : ℕ → Array ℕ → Divergence → TickHash → Divergence
compare_entry count hashes best e =
    if e.tick == 0 || ltb count e.tick
    then best
    else if e.hash == hashes e.tick
    then best
    else if best.tick == 0 || ltb e.tick best.tick
    then record { tick = e.tick; ring_hash = e.hash; replay_hash = hashes e.tick }
    else best

unfoldable pub compare_ring : ℕ → Array ℕ → Divergence → List TickHash → Divergence
compare_ring count hashes best [] = best
compare_ring count hashes best (e ∷ es) =
    compare_ring count hashes (compare_entry count hashes best e) es

unfoldable pub first_divergence : Bundle → Array ℕ → Divergence
first_divergence b hashes =
    compare_ring (length b.rec) hashes (record { tick = 0; ring_hash = 0; replay_hash = 0 }) b.ring

-- The verdict on one bundle: the tick after DIVERGED, or 0 for CONSISTENT.
abbrev pub diverges_at : Bundle → ℕ
diverges_at b = (first_divergence b (replay b)).tick
