-- ===== src/Sync/Localised.antt =====
-- The test hook of src/netplay/sync_session.c and what tools/replay_bundle.c makes of it: the tick
-- at which a state went its own way.
use bmhero_arena.Common.{
  ℕ, suc, ◌+◌, ◌%◌, ◌≤◌, ◌<◌, ◌≡◌, ◌≢◌, ◌∙◌, refl, sym, ap, Bool, true, false, some, List, [], ◌∷◌,
  length, ltb, ◌==◌, Array, update_self, arith, bit_xor,
}
use bmhero_arena.Arena.State.{arena_max_players, ArenaState}
use bmhero_arena.Arena.Tick.{arena_tick}
use bmhero_arena.Arena.Hash.{arena_hash}
use bmhero_arena.Arena.Detect.{arena_hash-rng}
use bmhero_arena.Sync.{
  bundle_max_ticks, bundle_ring, SyncConfig, SyncSession, TickHash, Actor, sync_create, new_session,
  debug_corrupt,
}
use bmhero_arena.Sync.Frames.{
  advances, game_event, advance, record_inputs, corrupt, note_hash, tick_inputs,
}
use bmhero_arena.Sync.Timeline.{replayed, Timeline, Events, IsReplay}
use bmhero_arena.Sync.Replayed.{begun, first_state, Events-IsReplay}
use bmhero_arena.Sync.Bundle.{slice, bundle_of, replay, Divergence, first_divergence, diverges_at}
use bmhero_arena.Sync.RoundTrip.{slice-length, slice-All}
use bmhero_arena.Sync.Consistent.{
  IsOf, advance-IsOf, advance-rec, Events-IsOf, new_session-IsOf, replay-bundle_of, init-arena_id,
  replayed-arena_id,
}
use bmhero_arena.Sync.Advance.{
  advance-ring, advance-count, advance-arena_id, advance-tick, advance_earlier, advance_kept,
  advance_wrote, advance_before,
}
use bmhero_arena.Sync.Search.{NotBefore, compare_ring-finds}

-- The ring holds another hash for tick m than the recorded inputs lead to, and none such before.
record IsSplit (s₀ : ArenaState) (m : ℕ) (s : SyncSession) : Type 0 where
  past : m ≤ s.state.tick
  in_range : s.state.tick ≤ bundle_max_ticks
  recorded : m ≤ s.rec_count
  most : s.rec_count ≤ bundle_max_ticks
  slot_tick : (s.ring (m % bundle_ring)).tick ≡ m
  slot_hash : (s.ring (m % bundle_ring)).hash ≢ arena_hash (replayed s₀ s.rec m)
  before :
      (i : ℕ)
      → i < bundle_ring
      → 0 < (s.ring i).tick
      → (s.ring i).tick < m
      → (s.ring i).hash ≡ arena_hash (replayed s₀ s.rec (s.ring i).tick)

advance-IsSplit :
    (s₀ : ArenaState) (m : ℕ) (s : SyncSession) (inputs : Array ℕ) (rb : Bool)
    → IsSplit s₀ m s
    → s.state.tick < bundle_max_ticks
    → suc s.state.tick < m + bundle_ring
    → IsSplit s₀ m (advance s inputs rb)
advance-IsSplit s₀ m s inputs rb v lt near =
    let tick = advance-tick s inputs rb lt in
    let slot = advance_kept s inputs rb lt (m % bundle_ring) (omega (arith, near, v.past)) in
    record {
      past = omega (arith, tick, v.past);
      in_range = omega (arith, tick, lt);
      recorded = ground (arith, advance-count s inputs rb, v.recorded);
      most = ground (arith, advance-count s inputs rb, v.most, lt);
      slot_tick = ap (λ (e : TickHash). e.tick) slot ∙ v.slot_tick;
      slot_hash = λ e. v.slot_hash (
          ap (λ (e : TickHash). e.hash) (sym slot)
          ∙ e
          ∙ ap arena_hash (advance_earlier s inputs rb lt s₀ m v.past));
      before = advance_before s inputs rb lt s₀ m (omega (arith, v.past)) v.before;
    }

-- Fresh ticks, one after the other.
abbrev pub run_fresh : SyncSession → List (Array ℕ) → SyncSession
run_fresh s [] = s
run_fresh s (inputs ∷ rest) = run_fresh (game_event s (advances inputs false)) rest

run_fresh-IsSplit :
    (s₀ : ArenaState) (m : ℕ) (rest : List (Array ℕ)) (s : SyncSession)
    → IsSplit s₀ m s
    → s.state.tick + length rest ≤ bundle_max_ticks
    → s.state.tick + length rest < m + bundle_ring
    → IsSplit s₀ m (run_fresh s rest)
unfolding game_event
run_fresh-IsSplit s₀ m [] s v le near = v
run_fresh-IsSplit s₀ m (inputs ∷ rest) s v le near =
    let lt : s.state.tick < bundle_max_ticks = omega (arith, le) in
    let tick = advance-tick s inputs false lt in
    run_fresh-IsSplit s₀ m rest (advance s inputs false)
      (advance-IsSplit s₀ m s inputs false v lt (omega (arith, near))) (omega (arith, tick, le))
      (omega (arith, tick, near))

run_fresh-IsOf :
    (cfg : SyncConfig) (rest : List (Array ℕ)) (s : SyncSession)
    → IsOf cfg s
    → IsOf cfg (run_fresh s rest)
unfolding game_event
run_fresh-IsOf cfg [] s v = v
run_fresh-IsOf cfg (inputs ∷ rest) s v =
    run_fresh-IsOf cfg rest (advance s inputs false) (advance-IsOf s inputs false cfg v)

run_fresh-arena_id :
    (rest : List (Array ℕ)) (s : SyncSession) → (run_fresh s rest).state.arena_id ≡ s.state.arena_id
unfolding game_event
run_fresh-arena_id [] s = refl
run_fresh-arena_id (inputs ∷ rest) s =
    run_fresh-arena_id rest (advance s inputs false) ∙ advance-arena_id s inputs false

-- The replay tool finds the tick of a split session.
IsSplit-diverges_at :
    (cfg : SyncConfig) (m v : ℕ) (s : SyncSession)
    → cfg.num_players ≤ arena_max_players
    → 0 < m
    → IsOf cfg s
    → s.state.arena_id ≡ cfg.arena_id
    → IsSplit (first_state cfg) m s
    → diverges_at (bundle_of v s) ≡ m
unfolding first_divergence bundle_of
IsSplit-diverges_at cfg m v s few pos of map split =
    let hashes = replay (bundle_of v s) in
    let rows : length (slice s.rec_count 0 (λ n. slice arena_max_players 0 (s.rec n)))
        ≡ s.rec_count =
      slice-length s.rec_count 0 (λ n. slice arena_max_players 0 (s.rec n)) in
    let at : (k : ℕ)
        → k ≤ s.rec_count
        → hashes k ≡ arena_hash (replayed (first_state cfg) s.rec k) =
      replay-bundle_of cfg v s of few map split.most in
    let all = slice-All (NotBefore m hashes) bundle_ring 0 s.ring (λ k lo hi there old.
      split.before k hi there old
      ∙ sym (at (s.ring k).tick (omega (arith, old, split.recorded)))) in
    let other : (s.ring (m % bundle_ring)).hash ≢ hashes m =
      λ e. split.slot_hash (e ∙ at m split.recorded) in
    let nothing : Divergence = record { tick = 0; ring_hash = 0; replay_hash = 0 } in
    rw (diverges_at, rows)
      (compare_ring-finds s.rec_count m hashes s.ring (m % bundle_ring) bundle_ring 0 nothing pos
        split.recorded split.slot_tick other (omega arith) (omega arith) all
        (λ z. absurd (omega (arith, z))))

-- The tick of the hook, in a session that has been a replay so far.
module _ (s₀ : ArenaState) (u : Timeline) (v : IsReplay s₀ u) (now : Array ℕ)
    (lt : u.session.state.tick < bundle_max_ticks) where
  abbrev inputs : Array ℕ
  inputs = tick_inputs u.session.num_players now

  -- The state in which the tick would have ended.
  abbrev clean : ArenaState
  clean = arena_tick u.session.state inputs

  abbrev went : SyncSession
  went = advance (debug_corrupt u.session) now false

  went-state : went.state ≡ record clean { rng = bit_xor clean.rng 1 }
  unfolding advance record_inputs corrupt note_hash
  went-state = ground arith

  went-replayed : replayed s₀ went.rec (suc u.session.state.tick) ≡ clean
  went-replayed =
      let n = u.session.state.tick in
      let fits : ltb n bundle_max_ticks ≡ true = ground (arith, lt) in
      let own : went.rec n ≡ inputs =
        rw (advance-rec (debug_corrupt u.session) now false, fits)
          (update_self u.session.rec n inputs) in
      let before : replayed s₀ went.rec n ≡ u.session.state =
        advance_earlier (debug_corrupt u.session) now false lt s₀ n (omega arith)
        ∙ sym v.state_is in
      rw (own, before) refl

  went-hash :
      (went.ring (suc u.session.state.tick % bundle_ring)).hash
      ≡ arena_hash (record clean { rng = bit_xor clean.rng 1 })
  went-hash =
      let tick = advance-tick (debug_corrupt u.session) now false lt in
      let on : (suc u.session.state.tick % bundle_ring == went.state.tick % bundle_ring) ≡ true =
        ground (arith, tick) in
      rw (advance-ring (debug_corrupt u.session) now false, on) (ap arena_hash went-state)

  went-IsSplit : IsSplit s₀ (suc u.session.state.tick) went
  went-IsSplit =
      let n = u.session.state.tick in
      let c = debug_corrupt u.session in
      let tick = advance-tick c now false lt in
      record {
        past = omega (arith, tick);
        in_range = omega (arith, tick, lt);
        recorded = ground (arith, advance-count c now false, lt);
        most = ground (arith, advance-count c now false, v.most, lt);
        slot_tick = advance_wrote c now false lt (suc n % bundle_ring) refl;
        slot_hash = λ e. arena_hash-rng clean (sym went-hash ∙ e ∙ ap arena_hash went-replayed);
        before =
            advance_before c now false lt s₀ (suc n) (omega arith)
              (λ i h pos old. v.ring_hash i h pos (omega (arith, old)));
      }

-- A session that its library has brought, within its contract, to some tick, whose next fresh tick
-- the hook sync_debug_corrupt then alters, and which runs fewer than 256 fresh ticks more, within
-- the 36000 that are recorded: the replay tool reports its bundle as diverged at just the tick in
-- which the altered one ended. No two hashes have to be assumed different.
pub diverges_at-debug_corrupt :
    (cfg : SyncConfig) (given : Bool) (handles : Array ℕ) (s : SyncSession) (actors : List Actor)
    (u : Timeline) (now : Array ℕ) (rest : List (Array ℕ)) (v : ℕ)
    → sync_create cfg given handles ≡ some (s, actors)
    → Events (begun s) u
    → suc u.session.state.tick + length rest ≤ bundle_max_ticks
    → length rest < bundle_ring
    → diverges_at (bundle_of v (run_fresh (debug_corrupt u.session) (now ∷ rest)))
      ≡ suc u.session.state.tick
unfolding sync_create game_event
diverges_at-debug_corrupt cfg given handles s actors u now rest v e es le short =
    let s₀ = first_state cfg in
    let m = suc u.session.state.tick in
    let own : s ≡ new_session cfg handles = ground (arith, e) in
    let few : cfg.num_players ≤ arena_max_players = ground (arith, e) in
    let is = Events-IsReplay cfg given handles s actors u e es in
    let lt : u.session.state.tick < bundle_max_ticks = omega (arith, le) in
    let t = advance (debug_corrupt u.session) now false in
    let tick : t.state.tick ≡ m = advance-tick (debug_corrupt u.session) now false lt in
    let of₀ : IsOf cfg u.session =
      Events-IsOf cfg (begun s) u es (rw own (new_session-IsOf cfg handles)) in
    let of₁ : IsOf cfg (debug_corrupt u.session) = record {
      seed = of₀.seed;
      players = of₀.players;
      narrow = of₀.narrow;
    } in
    let of₂ = advance-IsOf (debug_corrupt u.session) now false cfg of₁ in
    let map : u.session.state.arena_id ≡ cfg.arena_id =
      ap (λ (r : ArenaState). r.arena_id) is.state_is
      ∙ replayed-arena_id s₀ u.session.rec u.session.state.tick
      ∙ init-arena_id cfg in
    IsSplit-diverges_at cfg m v (run_fresh t rest) few (omega arith) (run_fresh-IsOf cfg rest t of₂)
      (run_fresh-arena_id rest t ∙ advance-arena_id (debug_corrupt u.session) now false ∙ map)
      (run_fresh-IsSplit s₀ m rest t (went-IsSplit s₀ u is now lt) (omega (arith, tick, le))
        (omega (arith, tick, short)))
