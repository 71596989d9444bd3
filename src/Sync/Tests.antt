-- ===== src/Sync/Tests.antt =====
-- Runs of the session of src/netplay/sync_session.c.
use bmhero_arena.Common.{
  ◌&&◌, ltb, suc, ◌∷◌, first_index, ℕ, ◌+◌, ◌*◌, ◌≡◌, ◌<◌, refl, sym, ◌∙◌, true, false, none, some,
  List, [], leb, Array, update, arith, if◌then◌else◌,
}
use mathlib.Core.Path.{subst}
use bmhero_arena.Arena.State.{ArenaState}
use bmhero_arena.Arena.Bombs.{init, round_reset}
use bmhero_arena.Arena.Hash.{arena_hash}
use bmhero_arena.Arena.Course.{arena_tick-keeps}
use bmhero_arena.Sync.{
  debug_corrupt, SyncConfig, SyncSession, online, sync_create, new_session, actors_from,
  sync_hash_at, Actor,
}
use bmhero_arena.Sync.Frames.{
  save, load, advances, game_event, advance, record_inputs, corrupt, note_hash, tick_inputs,
}
use bmhero_arena.Sync.Timeline.{
  Timeline, saves_frame, loads_frame, runs_tick, Events, start, next, IsReplay, replayed,
}
use bmhero_arena.Sync.Replayed.{begun, first_state, Events-IsReplay, sync_hash_at-replayed}
use bmhero_arena.Sync.Bundle.{bundle_of, sync_dump_bundle, bundle_load, diverges_at}
use bmhero_arena.Sync.RoundTrip.{InRange, bundle_load-sync_dump_bundle}
use bmhero_arena.Sync.Localised.{run_fresh, diverges_at-debug_corrupt}
use bmhero_arena.Sync.Verdict.{Analysis, first_drifted, analyse, analyse-debug_corrupt}
use bmhero_arena.Sync.Consistent.{sessions-Agree, diverges_at-session}

-- Two players, each the local one of a session.
abbrev duel : ℕ → SyncConfig
duel mask = record {
  mode = online;
  num_players = 2;
  local_mask = mask;
  peer_addr = λ i. [];
  seed = 77;
  arena_id = 0;
  input_delay = 1;
  custom = true;
}

abbrev near : SyncSession
near = new_session (duel 1) (λ i. i)

abbrev far : SyncSession
far = new_session (duel 2) (λ i. 1 + i)

abbrev actors_of : ℕ → List Actor
actors_of mask = actors_from 2 0 (duel mask)

near_created : sync_create (duel 1) true (λ i. i) ≡ some (near, actors_of 1)
unfolding sync_create
near_created = refl

far_created : sync_create (duel 2) true (λ i. 1 + i) ≡ some (far, actors_of 2)
unfolding sync_create
far_created = refl

abbrev guessed : Array ℕ
guessed i = 0

abbrev known : Array ℕ
known i = 7

abbrev saved_frame : Timeline → Timeline
saved_frame t = record {
  session = game_event t.session save;
  saves = update t.saves t.session.state.tick (some t.session.state);
}

abbrev ran : Array ℕ → Timeline → Timeline
ran inputs t = record { session = game_event t.session (advances inputs false); saves = t.saves }

abbrev loaded : ℕ → ArenaState → Timeline → Timeline
loaded f st t = record {
  session = game_event t.session (load st);
  saves = λ g. if leb g f then t.saves g else none;
}

-- The near session saves tick 0, guesses an input, is rolled back, and runs the input that came.
abbrev near_guessed : Timeline
near_guessed = ran guessed (saved_frame (begun near))

abbrev near_back : Timeline
near_back = loaded 0 near.state near_guessed

abbrev near_ran : Timeline
near_ran = ran known near_back

near_held : near_guessed.saves 0 ≡ some near.state
unfolding game_event new_session init round_reset
near_held = refl

near_returns : Events (begun near) near_back
unfolding new_session game_event init round_reset
near_returns =
    next (next (next start saves_frame) (runs_tick guessed false (omega arith)))
      (loads_frame 0 near.state near_held)

near_back-zero : near_back.session.state.tick ≡ 0
unfolding new_session game_event init round_reset
near_back-zero = refl

near_runs : Events (begun near) near_ran
near_runs = next near_returns (runs_tick known false (omega (arith, near_back-zero)))

far_zero : (begun far).session.state.tick ≡ 0
unfolding new_session init round_reset
far_zero = refl

abbrev far_ran : Timeline
far_ran = ran known (begun far)

far_runs : Events (begun far) far_ran
far_runs = next start (runs_tick known false (omega (arith, far_zero)))

Events-IsReplay_example : IsReplay (first_state (duel 1)) near_ran
Events-IsReplay_example =
    Events-IsReplay (duel 1) true (λ i. i) near (actors_of 1) near_ran near_created near_runs

-- A tick of a session at tick 0 ends at tick 1.
first_tick :
    (s : SyncSession) (inputs : Array ℕ)
    → s.corrupt_pending ≡ false
    → s.state.tick ≡ 0
    → (game_event s (advances inputs false)).state.tick ≡ 1
unfolding game_event advance record_inputs corrupt note_hash
first_tick s inputs quiet z =
    let (_, _, _, e) = arena_tick-keeps s.state (tick_inputs s.num_players inputs) in
    ground (arith, quiet, z, e)

near_honest : near_back.session.corrupt_pending ≡ false
near_honest =
    (Events-IsReplay (duel 1) true (λ i. i) near (actors_of 1) near_back near_created
      near_returns).honest

near_tick : near_ran.session.state.tick ≡ 1
near_tick = first_tick near_back.session known near_honest near_back-zero

far_tick : far_ran.session.state.tick ≡ 1
unfolding new_session
far_tick = first_tick far known refl far_zero

near_count : near_ran.session.rec_count ≡ 1
unfolding new_session game_event advance record_inputs corrupt note_hash init round_reset
near_count = refl

sync_hash_at-replayed_example : sync_hash_at near_ran.session 1 ≡ (
    if leb 1 near_ran.session.state.tick && ltb near_ran.session.state.tick (1 + 256)
    then arena_hash (replayed (first_state (duel 1)) near_ran.session.rec 1)
    else 0)
sync_hash_at-replayed_example =
    sync_hash_at-replayed (duel 1) true (λ i. i) near (actors_of 1) near_ran 1 near_created
      near_runs (near_tick ∙ sym near_count) (omega arith)

near_rec : near_ran.session.rec 0 ≡ far_ran.session.rec 0
unfolding new_session game_event advance record_inputs corrupt note_hash init round_reset
near_rec = refl

same_inputs :
    (t : ℕ) → t < near_ran.session.state.tick → near_ran.session.rec t ≡ far_ran.session.rec t
same_inputs t h =
    let z : t ≡ 0 = omega (arith, h, near_tick) in
    subst (λ n. near_ran.session.rec n ≡ far_ran.session.rec n) (sym z) near_rec

sessions-Agree_example : near_ran.session.state ≡ far_ran.session.state
sessions-Agree_example =
    sessions-Agree (duel 1) (duel 2) true true (λ i. i) (λ i. 1 + i) near far (actors_of 1)
      (actors_of 2) near_ran far_ran refl near_created far_created near_runs far_runs
      (near_tick ∙ sym far_tick) same_inputs

diverges_at-session_example : diverges_at (bundle_of 9 near_ran.session) ≡ 0
diverges_at-session_example =
    diverges_at-session (duel 1) true (λ i. i) near (actors_of 1) near_ran 9 near_created near_runs
      (near_tick ∙ sym near_count)

-- A session that has reported a desync, with two recorded ticks and an entry in its ring.
abbrev desynced_session : SyncSession
desynced_session = record near {
  ring = λ i. record { tick = i; hash = 1000 + i };
  rec = λ t p. 100 * t + p;
  rec_count = 2;
  desynced = true;
  dinfo = some (record { tick = 2; local_hash = 5; remote_hash = 6; remote_slot = some 1 });
}

desynced-InRange : InRange desynced_session
unfolding new_session init round_reset first_index
desynced-InRange = record {
  players_min = omega arith;
  players_max = omega arith;
  seed = omega arith;
  arena_id = omega arith;
  local_slot = omega arith;
  ring = λ i h. (omega (arith, h), omega (arith, h));
  rec_count = omega arith;
  rec = λ t h p g. omega (arith, h, g);
  report = λ i e. ground (arith, e);
}

bundle_load-sync_dump_bundle_example :
    bundle_load (sync_dump_bundle 9 desynced_session) ≡ some (bundle_of 9 desynced_session)
bundle_load-sync_dump_bundle_example =
    bundle_load-sync_dump_bundle 9 desynced_session (omega arith) desynced-InRange

-- The hook alters the tick that ends at 2.
diverges_at-debug_corrupt_example :
    diverges_at (bundle_of 9 (run_fresh (debug_corrupt near_ran.session) (known ∷ guessed ∷ [])))
    ≡ suc near_ran.session.state.tick
diverges_at-debug_corrupt_example =
    diverges_at-debug_corrupt (duel 1) true (λ i. i) near (actors_of 1) near_ran known
      (guessed ∷ []) 9 near_created near_runs (omega (arith, near_tick)) (omega arith)

far_count : far_ran.session.rec_count ≡ 1
unfolding new_session game_event advance record_inputs corrupt note_hash init round_reset
far_count = refl

analyse-debug_corrupt_example :
    (out : Analysis) × (analyse
        (bundle_of 9 (run_fresh (debug_corrupt near_ran.session) (known ∷ guessed ∷ [])))
        (bundle_of 9 far_ran.session)
      ≡ some out)
    × (out.culprit ≡ first_drifted)
    × (out.first.tick ≡ suc near_ran.session.state.tick)
analyse-debug_corrupt_example =
    analyse-debug_corrupt (duel 1) (duel 2) true true (λ i. i) (λ i. 1 + i) near far (actors_of 1)
      (actors_of 2) near_ran far_ran known (guessed ∷ []) 9 near_created far_created near_runs
      far_runs (omega (arith, near_tick)) (omega arith) (far_tick ∙ sym far_count)
