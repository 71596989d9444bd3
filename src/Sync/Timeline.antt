-- ===== src/Sync/Timeline.antt =====
-- The session of src/netplay/sync_session.c under a rollback library that keeps to its contract: a
-- state that it loads is one that was saved on the present timeline, where loading a frame discards
-- what was saved after it.
use bmhero_arena.Common.{
  ℕ, zero, suc, ◌+◌, ◌%◌, ◌≤◌, ◌<◌, ◌≡◌, ◌≢◌, refl, Bool, false, none, some, Option, leb, ==_ne,
  if◌then◌else◌, Array, update, arith,
}
use bmhero_arena.Arena.State.{ArenaState}
use bmhero_arena.Arena.Tick.{arena_tick}
use bmhero_arena.Arena.Hash.{arena_hash}
use bmhero_arena.Arena.Course.{arena_tick-keeps}
use bmhero_arena.Sync.{bundle_max_ticks, bundle_ring, SyncSession}
use bmhero_arena.Sync.Frames.{save, load, advances, game_event}

-- The simulation of the recorded inputs, n ticks from a state on.
abbrev pub replayed : ArenaState → Array (Array ℕ) → ℕ → ArenaState
replayed s rec zero = s
replayed s rec (suc n) = arena_tick (replayed s rec n) (rec n)

-- The session, and the states that the library holds, by their frame.
pub record Timeline : Type 0 where
  pub session : SyncSession
  pub saves : Array (Option ArenaState)

-- A game event that keeps to the contract, within the ticks that are recorded.
pub data Event (t : Timeline) : Timeline → Type 0 where
  saves_frame : Event t (record {
    session = game_event t.session save;
    saves = update t.saves t.session.state.tick (some t.session.state);
  })
  loads_frame :
      (f : ℕ) (st : ArenaState)
      → t.saves f ≡ some st
      → Event t (record {
        session = game_event t.session (load st);
        saves = λ g. if leb g f then t.saves g else none;
      })
  runs_tick :
      (inputs : Array ℕ) (rolling_back : Bool)
      → t.session.state.tick < bundle_max_ticks
      → Event t (record {
        session = game_event t.session (advances inputs rolling_back);
        saves = t.saves;
      })

pub data Events (t : Timeline) : Timeline → Type 0 where
  start : Events t t
  next : {u v : Timeline} → Events t u → Event u v → Events t v

-- The state is what the recorded inputs lead to, as far as the present tick; so are the states that
-- are held, and the hashes that the ring has of ticks on the timeline. The ring has all of those less
-- than 256 behind the last tick that was ever run, and none of a later tick than that one.
pub record IsReplay (s₀ : ArenaState) (t : Timeline) : Type 0 where
  pub honest : t.session.corrupt_pending ≡ false
  pub state_is : t.session.state ≡ replayed s₀ t.session.rec t.session.state.tick
  pub in_range : t.session.state.tick ≤ bundle_max_ticks
  pub recorded : t.session.state.tick ≤ t.session.rec_count
  pub most : t.session.rec_count ≤ bundle_max_ticks
  pub held :
      (f : ℕ) (st : ArenaState)
      → t.saves f ≡ some st
      → (f ≤ t.session.state.tick) × (st.tick ≡ f) × (st ≡ replayed s₀ t.session.rec f)
  pub ring_index :
      (i : ℕ)
      → i < bundle_ring
      → 0 < (t.session.ring i).tick
      → (t.session.ring i).tick % bundle_ring ≡ i
  pub ring_hash :
      (i : ℕ)
      → i < bundle_ring
      → 0 < (t.session.ring i).tick
      → (t.session.ring i).tick ≤ t.session.state.tick
      → (t.session.ring i).hash ≡ arena_hash (replayed s₀ t.session.rec (t.session.ring i).tick)
  pub ring_full :
      (k : ℕ)
      → 0 < k
      → k ≤ t.session.state.tick
      → t.session.rec_count < k + bundle_ring
      → (t.session.ring (k % bundle_ring)).tick ≡ k
  pub ring_most : (i : ℕ) → i < bundle_ring → (t.session.ring i).tick ≤ t.session.rec_count

-- What is recorded for a later tick does not matter to an earlier one.
pub replayed-update :
    (s₀ : ArenaState) (rec : Array (Array ℕ)) (k : ℕ) (now : Array ℕ) (n : ℕ)
    → n ≤ k
    → replayed s₀ (update rec k now) n ≡ replayed s₀ rec n
replayed-update s₀ rec k now zero h = refl
replayed-update s₀ rec k now (suc n) h =
    let off : n ≢ k = omega arith in
    let same : update rec k now n ≡ rec n = rw (==_ne n k off) refl in
    rw (replayed-update s₀ rec k now n (omega arith), same) refl

pub replayed-tick :
    (s₀ : ArenaState) (rec : Array (Array ℕ)) (n : ℕ)
    → s₀.tick ≡ 0
    → n ≤ bundle_max_ticks
    → (replayed s₀ rec n).tick ≡ n
replayed-tick s₀ rec zero z h = z
replayed-tick s₀ rec (suc n) z h =
    let (_, _, _, e) = arena_tick-keeps (replayed s₀ rec n) (rec n) in
    omega (arith, e, replayed-tick s₀ rec n z (omega arith))
