-- ===== src/Sync/Replayed.antt =====
-- A session of src/netplay/sync_session.c from sync_create on: its state, what the rollback library
-- holds, and sync_hash_at.
use bmhero_arena.Common.{
  false, ◌&&◌, ◌+◌, ◌*◌, ◌-◌, ◌/◌, leb, ltb, ◌≢◌, if◌then◌else◌, ℕ, ◌+◌, ◌%◌, ◌≤◌, ◌<◌, ◌≡◌, ◌∙◌,
  refl, sym, ap, Bool, true, none, some, List, leb, ◌==◌, if◌then◌else◌, Array, update, arith,
  Bool-cases, inl, inr,
}
use bmhero_arena.Arena.State.{ArenaState}
use bmhero_arena.Arena.Bombs.{init, round_reset}
use bmhero_arena.Arena.Hash.{arena_hash}
use bmhero_arena.Sync.{
  bundle_ring, SyncConfig, SyncSession, Actor, sync_create, new_session, sync_hash_at,
}
use bmhero_arena.Sync.Frames.{save, load, game_event}
use bmhero_arena.Sync.Timeline.{
  Event, Events, IsReplay, Timeline, loads_frame, next, replayed, runs_tick, saves_frame, start,
}
use bmhero_arena.Sync.Runs.{now, runs-IsReplay}

saves-IsReplay :
    (s₀ : ArenaState) (t : Timeline)
    → IsReplay s₀ t
    → IsReplay s₀ (record {
      session = game_event t.session save;
      saves = update t.saves t.session.state.tick (some t.session.state);
    })
unfolding game_event
saves-IsReplay s₀ t v = record {
  honest = v.honest;
  state_is = v.state_is;
  in_range = v.in_range;
  recorded = v.recorded;
  most = v.most;
  held = λ f st e. elim (Bool-cases (f == t.session.state.tick)) [
    | inl now ↦
        let q : f ≡ t.session.state.tick = ground arith in
        let own : st ≡ t.session.state = ground (arith, e, now) in
        (
          omega (arith, q),
          ap (λ (r : ArenaState). r.tick) own ∙ sym q,
          own ∙ v.state_is ∙ ap (replayed s₀ t.session.rec) (sym q),
        )
    | inr other ↦ v.held f st (ground (arith, e, other))
  ];
  ring_index = v.ring_index;
  ring_hash = v.ring_hash;
  ring_full = v.ring_full;
  ring_most = v.ring_most;
}

loads-IsReplay :
    (s₀ : ArenaState) (t : Timeline) (f : ℕ) (st : ArenaState)
    → t.saves f ≡ some st
    → IsReplay s₀ t
    → IsReplay s₀ (record {
      session = game_event t.session (load st);
      saves = λ g. if leb g f then t.saves g else none;
    })
unfolding game_event
loads-IsReplay s₀ t f st e v =
    let (le, tick, is) = v.held f st e in
    record {
      honest = v.honest;
      state_is = is ∙ ap (replayed s₀ t.session.rec) (sym tick);
      in_range = omega (arith, v.in_range);
      recorded = omega (arith, v.recorded);
      most = v.most;
      held = λ g st' e'. elim (Bool-cases (leb g f)) [
        | inl kept ↦
            let (le', tick', is') = v.held g st' (rw kept at e') in
            (ground (arith, kept, tick), tick', is')
        | inr gone ↦ absurd (ground (arith, e', gone))
      ];
      ring_index = v.ring_index;
      ring_hash = λ i h pos before. v.ring_hash i h pos (omega arith);
      ring_full = λ k pos before. v.ring_full k pos (omega arith);
      ring_most = v.ring_most;
    }

Event-IsReplay : (s₀ : ArenaState) (t u : Timeline) → Event t u → IsReplay s₀ t → IsReplay s₀ u
Event-IsReplay s₀ t u saves_frame v = saves-IsReplay s₀ t v
Event-IsReplay s₀ t u (loads_frame f st e) v = loads-IsReplay s₀ t f st e v
Event-IsReplay s₀ t u (runs_tick inputs rb lt) v = runs-IsReplay s₀ t v inputs rb lt

Events-keep : (s₀ : ArenaState) (t u : Timeline) → Events t u → IsReplay s₀ t → IsReplay s₀ u
Events-keep s₀ t u start v = v
Events-keep s₀ t u (next {u = m} es e) v = Event-IsReplay s₀ m u e (Events-keep s₀ t m es v)

-- The library holds nothing at first.
abbrev pub begun : SyncSession → Timeline
begun s = record { session = s; saves = λ f. none }

pub init-tick : (arena_id num_players seed : ℕ) → (init arena_id num_players seed).tick ≡ 0
unfolding init round_reset
init-tick arena_id num_players seed = refl

begun-IsReplay :
    (cfg : SyncConfig) (handles : Array ℕ)
    → IsReplay (init cfg.arena_id cfg.num_players cfg.seed) (begun (new_session cfg handles))
unfolding new_session
begun-IsReplay cfg handles =
    let z = init-tick cfg.arena_id cfg.num_players cfg.seed in
    record {
      honest = refl;
      state_is = ap (replayed (init cfg.arena_id cfg.num_players cfg.seed) (λ t p. 0)) (sym z);
      in_range = omega (arith, z);
      recorded = omega (arith, z);
      most = omega arith;
      held = λ f st e. absurd (cc);
      ring_index = λ i h pos. absurd (omega arith);
      ring_hash = λ i h pos before. absurd (omega arith);
      ring_full = λ k pos before near. absurd (omega (arith, z));
      ring_most = λ i h. omega arith;
    }

abbrev pub first_state : SyncConfig → ArenaState
first_state cfg = init cfg.arena_id cfg.num_players cfg.seed

-- From sync_create on, whatever the library has the session save, load and run, within its contract
-- and the 36000 ticks that are recorded, the session's state is what the recorded inputs lead to
-- from arena_init, as far as the present tick: so are the states that the library holds, and the
-- hashes that the ring has of the ticks up to the present one. The ring has those less than 256
-- behind the last tick that was ever run, and none of a later tick than that one.
pub Events-IsReplay :
    (cfg : SyncConfig) (given : Bool) (handles : Array ℕ) (s : SyncSession) (actors : List Actor)
    (u : Timeline)
    → sync_create cfg given handles ≡ some (s, actors)
    → Events (begun s) u
    → IsReplay (first_state cfg) u
unfolding sync_create
Events-IsReplay cfg given handles s actors u e es =
    let own : s ≡ new_session cfg handles = ground (arith, e) in
    Events-keep (first_state cfg) (begun s) u es (rw own (begun-IsReplay cfg handles))

-- The slot of a tick has another tick, where the tick is not among the last 256 that were run.
slot_other :
    (s₀ : ArenaState) (t : Timeline) (k : ℕ)
    → IsReplay s₀ t
    → t.session.state.tick ≡ t.session.rec_count
    → 0 < k
    → (leb k t.session.state.tick && ltb t.session.state.tick (k + bundle_ring)) ≡ false
    → (t.session.ring (k % bundle_ring)).tick ≢ k
slot_other s₀ t k v last pos out e =
    let n = t.session.state.tick in
    let le : k ≤ n = omega (arith, last, e, v.ring_most (k % bundle_ring) (omega arith)) in
    let old : k + bundle_ring ≤ n = ground (arith, out, le) in
    let j = k + (n - k) / bundle_ring * bundle_ring in
    let same : j % bundle_ring ≡ k % bundle_ring = omega arith in
    let full : (t.session.ring (j % bundle_ring)).tick ≡ j =
      v.ring_full j (omega arith) (omega (arith, le)) (omega (arith, last, le)) in
    omega (arith, old, e, sym (ap (λ i. (t.session.ring i).tick) same) ∙ full)

-- From sync_create on, whatever the library has had the session save, load and run within its
-- contract and the 36000 recorded ticks, when the session stands at the last tick that it ever ran,
-- sync_hash_at answers for any positive tick: with the hash of the state that the recorded inputs
-- lead to there from arena_init, for the present tick and the 255 before it, and with 0 for every
-- other.
pub sync_hash_at-replayed :
    (cfg : SyncConfig) (given : Bool) (handles : Array ℕ) (s : SyncSession) (actors : List Actor)
    (u : Timeline) (k : ℕ)
    → sync_create cfg given handles ≡ some (s, actors)
    → Events (begun s) u
    → u.session.state.tick ≡ u.session.rec_count
    → 0 < k
    → sync_hash_at u.session k ≡ (
        if leb k u.session.state.tick && ltb u.session.state.tick (k + bundle_ring)
        then arena_hash (replayed (first_state cfg) u.session.rec k)
        else 0)
unfolding sync_hash_at
sync_hash_at-replayed cfg given handles s actors u k e es last pos =
    let v = Events-IsReplay cfg given handles s actors u e es in
    let i = k % bundle_ring in
    elim (Bool-cases (leb k u.session.state.tick && ltb u.session.state.tick (k + bundle_ring))) [
      | inl near ↦
          let q : (u.session.ring i).tick ≡ k =
            v.ring_full k pos (ground (arith, near)) (ground (arith, near, last)) in
          let same : ((u.session.ring i).tick == k) ≡ true = ground (arith, q) in
          let h = v.ring_hash i (omega arith) (omega (arith, q, pos)) (ground (arith, q, near)) in
          rw (near, same) (h ∙ ap (λ n. arena_hash (replayed (first_state cfg) u.session.rec n)) q)
      | inr out ↦
          let other : ((u.session.ring i).tick == k) ≡ false =
            ground (arith, slot_other (first_state cfg) u k v last pos out) in
          rw (out, other) refl
    ]
