-- ===== src/Sync/Frames.antt =====
-- sync_frame of src/netplay/sync_session.c: what it gives the rollback library, the session events, the
-- game events, and the counters.
use bmhero_arena.Common.{
  ℕ, zero, suc, ◌+◌, ◌%◌, Bool, true, false, not, ◌&&◌, Option, none, some, List, [], ◌∷◌, ltb,
  ◌==◌, if◌then◌else◌, Array, update, first_index, u32, bit_xor,
}
use bmhero_arena.Arena.State.{ArenaState}
use bmhero_arena.Arena.Tick.{arena_tick}
use bmhero_arena.Arena.Hash.{arena_hash}
use bmhero_arena.Sync.{
  SyncDesyncInfo, SyncSession, SyncStats, bundle_max_ticks, bundle_ring, is_local, is_online,
}

-- What gekko_add_local_input is given: the handle and the input of each local player.
unfoldable pub local_inputs : ℕ → ℕ → SyncSession → Array ℕ → List (ℕ × ℕ)
local_inputs zero i s inputs = []
local_inputs (suc n) i s inputs =
    let more = local_inputs n (i + 1) s inputs in
    if is_local s.local_mask i then (s.handle i, inputs i) ∷ more else more

pub data SessionEvent : Type 0 where
  session_started player_disconnected other_event : SessionEvent
  desync_detected : ℕ → ℕ → ℕ → ℕ → SessionEvent

-- One session event. Of the desync reports the first is kept.
unfoldable pub session_event : SyncSession → SessionEvent → SyncSession
session_event s session_started = record s { connected = true; started = true }
session_event s player_disconnected = record s { connected = false }
session_event s (desync_detected frame mine theirs remote) =
    let info : SyncDesyncInfo = record {
      tick = frame;
      local_hash = mine;
      remote_hash = theirs;
      remote_slot = first_index s.num_players (λ k. s.handle k == remote);
    } in
    let kept = elim s.dinfo as (λ o. Option SyncDesyncInfo) [
      | none ↦ some info
      | some i ↦ some i
    ] in
    record s { dinfo = kept; desynced = true }
session_event s other_event = s

unfoldable pub session_events : SyncSession → List SessionEvent → SyncSession
session_events s [] = s
session_events s (e ∷ es) = session_events (session_event s e) es

-- The inputs of the event for the players that take part, 0 for the others.
abbrev pub tick_inputs : ℕ → Array ℕ → Array ℕ
tick_inputs n inputs p = if ltb p n then inputs p else 0

-- The inputs of the tick that is about to run are recorded, over those of an earlier run.
unfoldable pub record_inputs : SyncSession → Array ℕ → SyncSession
record_inputs s inputs =
    let t = s.state.tick in
    if ltb t bundle_max_ticks
    then record s {
      rec = update s.rec t inputs;
      rec_count = if ltb s.rec_count (t + 1) then t + 1 else s.rec_count;
    }
    else s

-- The test hook: the next fresh tick ends in another state.
unfoldable pub corrupt : SyncSession → Bool → SyncSession
corrupt s rolling_back =
    if s.corrupt_pending && not rolling_back
    then record s {
      state = record s.state { rng = bit_xor s.state.rng 1 };
      corrupt_pending = false;
    }
    else s

unfoldable pub note_hash : SyncSession → SyncSession
note_hash s = record s {
  ring =
      update s.ring (s.state.tick % bundle_ring)
        (record { tick = s.state.tick; hash = arena_hash s.state });
}

-- GekkoAdvanceEvent, but for the counters.
unfoldable pub advance : SyncSession → Array ℕ → Bool → SyncSession
advance s inputs rolling_back =
    let now = tick_inputs s.num_players inputs in
    let t = record_inputs s now in
    note_hash (corrupt (record t { state = arena_tick t.state now }) rolling_back)

-- GekkoSaveEvent, GekkoLoadEvent with the state of the library's buffer, and GekkoAdvanceEvent.
pub data GameEvent : Type 0 where
  save : GameEvent
  load : ArenaState → GameEvent
  advances : Array ℕ → Bool → GameEvent

-- What a save event hands to the library: the checksum and the state.
abbrev pub saved : SyncSession → ℕ × ArenaState
saved s = (arena_hash s.state, s.state)

unfoldable pub game_event : SyncSession → GameEvent → SyncSession
game_event s save = s
game_event s (load st) = record s { state = st }
game_event s (advances inputs rolling_back) = advance s inputs rolling_back

-- The game events of a frame, with the counts of fresh and re-simulated ticks.
pub record Frame : Type 0 where
  pub session : SyncSession
  pub fresh : ℕ
  pub rb : ℕ

abbrev pub counted : Frame → GameEvent → Frame
counted f (advances inputs true) = record f { rb = f.rb + 1 }
counted f (advances inputs false) = record f { fresh = f.fresh + 1 }
counted f _ = f

unfoldable pub game_events : Frame → List GameEvent → Frame
game_events f [] = f
game_events f (e ∷ es) = game_events (record (counted f e) { session = game_event f.session e }) es

unfoldable pub frame_stats : SyncSession → ℕ → ℕ → SyncStats
frame_stats s fresh rb =
    let st = s.stats in
    if is_online s.mode && s.started
    then (let d = if ltb 8 rb then 8 else rb in
        record {
          pumps = u32 (st.pumps + 1);
          rollback_ticks = u32 (st.rollback_ticks + rb);
          max_rollback_depth = if ltb st.max_rollback_depth rb then rb else st.max_rollback_depth;
          rbhist = update st.rbhist d (u32 (st.rbhist d + 1));
          stall_frames =
              if fresh == 0 && s.connected then u32 (st.stall_frames + 1) else st.stall_frames;
        })
    else st

-- sync_frame: the session, the fresh ticks, and what the library is given as local inputs.
unfoldable pub sync_frame :
    SyncSession → Array ℕ → List SessionEvent → List GameEvent → SyncSession × ℕ × List (ℕ × ℕ)
sync_frame s inputs events game =
    let given = local_inputs s.num_players 0 s inputs in
    let t = session_events s events in
    let f = game_events (record { session = t; fresh = 0; rb = 0 }) game in
    (record f.session { stats = frame_stats f.session f.fresh f.rb }, f.fresh, given)
