-- ===== src/Sync.antt =====
-- The sync session of src/netplay/sync_session.h and .c: the loop that owns the ArenaState. The
-- rollback library is not part of the program: what it answers enters as arguments, namely the
-- events of a frame and the handles of the actors, and what it is told is returned. A saved state
-- is the value that the code copies into the library's buffer.
pub mod Timeline
pub mod Bundle
pub mod RoundTrip
pub mod Consistent
pub mod Localised
pub mod Verdict
pub mod Tests
pub mod Advance
pub mod Search
pub mod Reading
pub mod Replayed
pub mod Runs
pub mod Frames
use bmhero_arena.Common.{
  ℕ, zero, suc, ◌+◌, ◌*◌, ◌%◌, Bool, true, false, not, ◌&&◌, ◌||◌, Option, none, some, List, [],
  ◌∷◌, ◌++◌, ltb, leb, ◌==◌, if◌then◌else◌, Array, update, first_index, u32, u8, ◌>>>◌, bit_xor,
}
use bmhero_arena.Arena.State.{arena_max_players, ArenaState}
use bmhero_arena.Arena.Bombs.{init}
use bmhero_arena.Arena.Tick.{arena_tick}
use bmhero_arena.Arena.Hash.{arena_hash}

abbrev pub bundle_max_ticks : ℕ
bundle_max_ticks = 36000

abbrev pub bundle_ring : ℕ
bundle_ring = 256

-- SYNC_COUCH, SYNC_ONLINE, SYNC_STRESS
pub data SyncMode : Type 0 where
  couch online stress : SyncMode

abbrev pub is_online : SyncMode → Bool
is_online online = true
is_online _ = false

abbrev pub is_couch : SyncMode → Bool
is_couch couch = true
is_couch _ = false

-- `peer_addr` has the bytes of each text; `custom` tells whether an adapter is given.
pub record SyncConfig : Type 0 where
  pub mode : SyncMode
  pub num_players : ℕ
  pub local_mask : ℕ
  pub peer_addr : Array (List ℕ)
  pub seed : ℕ
  pub arena_id : ℕ
  pub input_delay : ℕ
  pub custom : Bool

pub record TickHash : Type 0 where
  pub tick : ℕ
  pub hash : ℕ

pub record SyncStats : Type 0 where
  pub rollback_ticks : ℕ
  pub max_rollback_depth : ℕ
  pub stall_frames : ℕ
  pub pumps : ℕ
  pub rbhist : Array ℕ

-- `remote_slot` is `none` for -1.
pub record SyncDesyncInfo : Type 0 where
  pub tick : ℕ
  pub local_hash : ℕ
  pub remote_hash : ℕ
  pub remote_slot : Option ℕ

-- `rec t` are the four inputs that are recorded for tick t.
pub record SyncSession : Type 0 where
  pub mode : SyncMode
  pub num_players : ℕ
  pub local_mask : ℕ
  pub state : ArenaState
  pub connected : Bool
  pub desynced : Bool
  pub handle : Array ℕ
  pub ring : Array TickHash
  pub stats : SyncStats
  pub started : Bool
  pub seed : ℕ
  pub local_slot : ℕ
  pub rec : Array (Array ℕ)
  pub rec_count : ℕ
  pub dinfo : Option SyncDesyncInfo
  pub corrupt_pending : Bool

-- gekko_add_actor: a local player, whose delay is set, or a remote one at an address.
pub data Actor : Type 0 where
  local_player : ℕ → Actor
  remote_player : List ℕ → Actor

-- mask & (1u << i)
abbrev pub is_local : ℕ → ℕ → Bool
is_local mask i = (mask >>> i) % 2 == 1

abbrev pub actor_of : SyncConfig → ℕ → Actor
actor_of cfg i =
    if is_local cfg.local_mask i
    then local_player cfg.input_delay
    else remote_player (if cfg.custom then i ∷ [] else cfg.peer_addr i)

-- The actors from i on, n of them to go.
unfoldable pub actors_from : ℕ → ℕ → SyncConfig → List Actor
actors_from zero i cfg = []
actors_from (suc n) i cfg = actor_of cfg i ∷ actors_from n (i + 1) cfg

abbrev pub no_stats : SyncStats
no_stats = record {
  rollback_ticks = 0;
  max_rollback_depth = 0;
  stall_frames = 0;
  pumps = 0;
  rbhist = λ i. 0;
}

abbrev pub lowest_bit : ℕ → ℕ
lowest_bit mask = elim (first_index arena_max_players (is_local mask)) [ none ↦ 0 | some i ↦ i ]

-- What calloc and the assignments leave; gekko_add_actor answers with `handles`.
unfoldable pub new_session : SyncConfig → Array ℕ → SyncSession
new_session cfg handles = record {
  mode = cfg.mode;
  num_players = cfg.num_players;
  local_mask = cfg.local_mask;
  state = init cfg.arena_id cfg.num_players cfg.seed;
  connected = not (is_online cfg.mode);
  desynced = false;
  handle = λ i. if ltb i cfg.num_players then handles i else 0;
  ring = λ i. record { tick = 0; hash = 0 };
  stats = no_stats;
  started = false;
  seed = cfg.seed;
  local_slot = lowest_bit cfg.local_mask;
  rec = λ t p. 0;
  rec_count = 0;
  dinfo = none;
  corrupt_pending = false;
}

-- sync_create: `none` is NULL; `given` tells whether the allocations and gekko_create succeed.
unfoldable pub sync_create : SyncConfig → Bool → Array ℕ → Option (SyncSession × List Actor)
sync_create cfg given handles =
    if ltb cfg.num_players 2 || ltb arena_max_players cfg.num_players
    then none
    else if not given
    then none
    else some (new_session cfg handles, actors_from cfg.num_players 0 cfg)

-- sync_hash_at
unfoldable pub sync_hash_at : SyncSession → ℕ → ℕ
sync_hash_at s tick = let th = s.ring (tick % bundle_ring) in if th.tick == tick then th.hash else 0

-- sync_state_debug_mut: whether the state may be written.
abbrev pub may_debug : SyncSession → Bool
may_debug s = is_couch s.mode

-- sync_debug_corrupt
abbrev pub debug_corrupt : SyncSession → SyncSession
debug_corrupt s = record s { corrupt_pending = true }
