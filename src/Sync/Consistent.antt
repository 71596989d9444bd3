-- ===== src/Sync/Consistent.antt =====
-- What the recorded inputs decide: two sessions, and a session and the replay of its bundle by
-- tools/replay_bundle.c.
use bmhero_arena.Common.{
  ℕ, zero, suc, ◌+◌, ◌≤◌, ◌<◌, ◌≡◌, ◌∙◌, refl, sym, ap, Bool, true, ◌||◌, some, List, [], ◌∷◌,
  length, ltb, ◌==◌, if◌then◌else◌, Array, update, arith, Bool-cases, inl, inr, All,
}
use mathlib.Core.Path.{fun_ext}
use bmhero_arena.Arena.State.{arena_max_players, ArenaState}
use bmhero_arena.Arena.Bombs.{init, round_reset}
use bmhero_arena.Arena.Hash.{arena_hash}
use bmhero_arena.Arena.Course.{arena_tick-keeps}
use bmhero_arena.Sync.{
  bundle_max_ticks, bundle_ring, SyncConfig, SyncSession, TickHash, Actor, sync_create, new_session,
}
use bmhero_arena.Sync.Frames.{game_event, advance, record_inputs, corrupt, note_hash, tick_inputs}
use bmhero_arena.Sync.Timeline.{
  replayed, Timeline, Event, saves_frame, loads_frame, runs_tick, Events, start, next,
  replayed-tick,
}
use bmhero_arena.Sync.Replayed.{begun, first_state, init-tick, Events-IsReplay}
use bmhero_arena.Sync.Bundle.{
  slice, bundle_of, byte_at, row_inputs, replay_from, replay, Divergence, compare_entry,
  compare_ring, first_divergence, diverges_at,
}
use bmhero_arena.Sync.RoundTrip.{slice-length, slice-All}

-- The same inputs up to a tick lead to the same state.
replayed_agree :
    (s₀ : ArenaState) (r q : Array (Array ℕ)) (n : ℕ)
    → ((t : ℕ) → t < n → r t ≡ q t)
    → replayed s₀ r n ≡ replayed s₀ q n
replayed_agree s₀ r q zero h = refl
replayed_agree s₀ r q (suc n) h =
    rw (replayed_agree s₀ r q n (λ t lt. h t (omega (arith, lt))), h n (omega arith)) refl

-- Two sessions of one seed, map and number of players, each under its own library, its own
-- handles, delays and predictions: whenever they stand at the same tick, and the inputs that they
-- have recorded for the ticks before it agree, they are in the same state.
pub sessions-Agree :
    (cfg dfg : SyncConfig) (given given' : Bool) (handles handles' : Array ℕ) (s r : SyncSession)
    (actors actors' : List Actor) (u w : Timeline)
    → first_state cfg ≡ first_state dfg
    → sync_create cfg given handles ≡ some (s, actors)
    → sync_create dfg given' handles' ≡ some (r, actors')
    → Events (begun s) u
    → Events (begun r) w
    → u.session.state.tick ≡ w.session.state.tick
    → ((t : ℕ) → t < u.session.state.tick → u.session.rec t ≡ w.session.rec t)
    → u.session.state ≡ w.session.state
sessions-Agree cfg dfg given given' handles handles' s r actors actors' u w first es er us ws tick
      same =
    let mine = (Events-IsReplay cfg given handles s actors u es us).state_is in
    let theirs = (Events-IsReplay dfg given' handles' r actors' w er ws).state_is in
    mine
    ∙ replayed_agree (first_state cfg) u.session.rec w.session.rec u.session.state.tick same
    ∙ ap (λ n. replayed (first_state cfg) w.session.rec n) tick
    ∙ ap (λ s₀. replayed s₀ w.session.rec w.session.state.tick) first
    ∙ sym theirs

-- What a session keeps of its configuration; the inputs of a slot that does not exist are 0.
pub record IsOf (cfg : SyncConfig) (s : SyncSession) : Type 0 where
  pub seed : s.seed ≡ cfg.seed
  pub players : s.num_players ≡ cfg.num_players
  pub narrow : (t p : ℕ) → cfg.num_players ≤ p → s.rec t p ≡ 0

module _ (s : SyncSession) (inputs : Array ℕ) (rb : Bool) where
  advance-seed : (advance s inputs rb).seed ≡ s.seed
  unfolding advance record_inputs corrupt note_hash
  advance-seed = ground arith

  advance-players : (advance s inputs rb).num_players ≡ s.num_players
  unfolding advance record_inputs corrupt note_hash
  advance-players = ground arith

  pub advance-rec : (advance s inputs rb).rec ≡ (
      if ltb s.state.tick bundle_max_ticks
      then update s.rec s.state.tick (tick_inputs s.num_players inputs)
      else s.rec)
  unfolding advance record_inputs corrupt note_hash
  advance-rec = ground arith

  pub advance-IsOf : (cfg : SyncConfig) → IsOf cfg s → IsOf cfg (advance s inputs rb)
  advance-IsOf cfg v = record {
    seed = advance-seed ∙ v.seed;
    players = advance-players ∙ v.players;
    narrow = λ t p h. rw advance-rec (ground (arith, v.narrow t p h, v.players, h));
  }

Event-IsOf :
    (cfg : SyncConfig) (t u : Timeline) → Event t u → IsOf cfg t.session → IsOf cfg u.session
unfolding game_event
Event-IsOf cfg t u saves_frame v = v
Event-IsOf cfg t u (loads_frame f st e) v = record {
  seed = v.seed;
  players = v.players;
  narrow = v.narrow;
}
Event-IsOf cfg t u (runs_tick inputs rb lt) v = advance-IsOf t.session inputs rb cfg v

pub Events-IsOf :
    (cfg : SyncConfig) (t u : Timeline) → Events t u → IsOf cfg t.session → IsOf cfg u.session
Events-IsOf cfg t u start v = v
Events-IsOf cfg t u (next {u = m} es e) v = Event-IsOf cfg m u e (Events-IsOf cfg t m es v)

pub new_session-IsOf : (cfg : SyncConfig) (handles : Array ℕ) → IsOf cfg (new_session cfg handles)
unfolding new_session
new_session-IsOf cfg handles = record { seed = refl; players = refl; narrow = λ t p h. refl }

pub replayed-arena_id :
    (s₀ : ArenaState) (rec : Array (Array ℕ)) (n : ℕ) → (replayed s₀ rec n).arena_id ≡ s₀.arena_id
replayed-arena_id s₀ rec zero = refl
replayed-arena_id s₀ rec (suc n) =
    let (_, id, _, _) = arena_tick-keeps (replayed s₀ rec n) (rec n) in
    id ∙ replayed-arena_id s₀ rec n

-- A row gives the inputs that it was written from.
row_inputs-slice :
    (a : Array ℕ)
    → ((p : ℕ) → arena_max_players ≤ p → a p ≡ 0)
    → row_inputs (slice arena_max_players 0 a) ≡ a
row_inputs-slice a h = fun_ext row
  where
    row : (p : ℕ) → byte_at (slice arena_max_players 0 a) p ≡ a p
    row zero = refl
    row (suc zero) = refl
    row (suc (suc zero)) = refl
    row (suc (suc (suc zero))) = refl
    row (suc (suc (suc (suc p)))) = sym (h (suc (suc (suc (suc p)))) (omega arith))

-- Each hash that the replay has taken is that of the recorded inputs' state at its tick.
replay_from-hashes :
    (s₀ : ArenaState) (rec : Array (Array ℕ))
    → s₀.tick ≡ 0
    → ((t p : ℕ) → arena_max_players ≤ p → rec t p ≡ 0)
    → (n i : ℕ) (hashes : Array ℕ) → i + n ≤ bundle_max_ticks
    → ((k : ℕ) → k ≤ i → hashes k ≡ arena_hash (replayed s₀ rec k))
    → (k : ℕ) → k ≤ i + n
    → replay_from (slice n i (λ t. slice arena_max_players 0 (rec t))) (replayed s₀ rec i) hashes k
      ≡ arena_hash (replayed s₀ rec k)
unfolding replay_from
replay_from-hashes s₀ rec z h zero i hashes le old k lt = old k (omega (arith, lt))
replay_from-hashes s₀ rec z h (suc n) i hashes le old k lt =
    let t = replayed s₀ rec (suc i) in
    let own : row_inputs (slice arena_max_players 0 (rec i)) ≡ rec i =
      row_inputs-slice (rec i) (h i) in
    let tick : t.tick ≡ suc i = replayed-tick s₀ rec (suc i) z (omega (arith, le)) in
    let now : (k : ℕ)
        → k ≤ suc i
        → update hashes t.tick (arena_hash t) k ≡ arena_hash (replayed s₀ rec k) =
      λ k le'. elim (Bool-cases (k == t.tick)) [
        | inl new ↦
            let q : k ≡ suc i = ground (arith, new, tick) in
            rw new (ap (λ k. arena_hash (replayed s₀ rec k)) (sym q))
        | inr other ↦ rw other (old k (ground (arith, other, tick, le')))
      ] in
    rw (replay_from, own)
      (replay_from-hashes s₀ rec z h n (suc i) (update hashes t.tick (arena_hash t))
        (omega (arith, le)) now k (omega (arith, lt)))

-- A ring of entries that agree with the replay shows no divergence.
compare_ring-Agree :
    (count : ℕ) (hashes : Array ℕ) (best : Divergence) (es : List TickHash)
    → All (λ (e : TickHash). 0 < e.tick → e.tick ≤ count → e.hash ≡ hashes e.tick) es
    → compare_ring count hashes best es ≡ best
unfolding compare_ring
compare_ring-Agree count hashes best [] v = refl
compare_ring-Agree count hashes best (e ∷ es) (now, v) =
    let same : compare_entry count hashes best e ≡ best =
      elim (Bool-cases (e.tick == 0 || ltb count e.tick)) [
        | inl out ↦ rw out refl
        | inr in_range ↦
            let agree : (e.hash == hashes e.tick) ≡ true =
              ground (arith, now (ground (arith, in_range)) (ground (arith, in_range))) in
            rw (in_range, agree) refl
      ] in
    rw same (compare_ring-Agree count hashes best es v)

-- The replay of the bundle takes the hashes of the recorded inputs' states.
pub replay-bundle_of :
    (cfg : SyncConfig) (v : ℕ) (s : SyncSession)
    → IsOf cfg s
    → cfg.num_players ≤ arena_max_players
    → s.state.arena_id ≡ cfg.arena_id
    → s.rec_count ≤ bundle_max_ticks
    → (k : ℕ) → k ≤ s.rec_count
    → replay (bundle_of v s) k ≡ arena_hash (replayed (first_state cfg) s.rec k)
unfolding replay bundle_of
replay-bundle_of cfg v s of few map le k lt =
    let s₀ = first_state cfg in
    let start : (k : ℕ)
        → k ≤ 0
        → update (λ k. 0) 0 (arena_hash s₀) k ≡ arena_hash (replayed s₀ s.rec k) =
      λ k h. (let q : k ≡ 0 = omega arith in rw q refl) in
    rw (map, of.players, of.seed)
      (replay_from-hashes s₀ s.rec (init-tick cfg.arena_id cfg.num_players cfg.seed)
        (λ t p h. of.narrow t p (omega (arith, h, few))) s.rec_count 0
        (update (λ k. 0) 0 (arena_hash s₀)) (omega (arith, le)) start k (omega (arith, lt)))

pub init-arena_id : (cfg : SyncConfig) → (first_state cfg).arena_id ≡ cfg.arena_id
unfolding init round_reset
init-arena_id cfg = refl

-- The bundle of a session that its library has brought, within its contract, to the last tick that
-- it ever ran is consistent: the replay tool, which runs the recorded inputs from arena_init, finds
-- no entry of the ring that differs from its own hash, over the whole ring.
pub diverges_at-session :
    (cfg : SyncConfig) (given : Bool) (handles : Array ℕ) (s : SyncSession) (actors : List Actor)
    (u : Timeline) (v : ℕ)
    → sync_create cfg given handles ≡ some (s, actors)
    → Events (begun s) u
    → u.session.state.tick ≡ u.session.rec_count
    → diverges_at (bundle_of v u.session) ≡ 0
unfolding first_divergence bundle_of sync_create
diverges_at-session cfg given handles s actors u v e es last =
    let s₀ = first_state cfg in
    let t = u.session in
    let own : s ≡ new_session cfg handles = ground (arith, e) in
    let few : cfg.num_players ≤ arena_max_players = ground (arith, e) in
    let is = Events-IsReplay cfg given handles s actors u e es in
    let of : IsOf cfg t = Events-IsOf cfg (begun s) u es (rw own (new_session-IsOf cfg handles)) in
    let map : t.state.arena_id ≡ cfg.arena_id =
      ap (λ (r : ArenaState). r.arena_id) is.state_is
      ∙ replayed-arena_id s₀ t.rec t.state.tick
      ∙ init-arena_id cfg in
    let le : t.rec_count ≤ bundle_max_ticks = omega (arith, last, is.in_range) in
    let rows : length (slice t.rec_count 0 (λ n. slice arena_max_players 0 (t.rec n)))
        ≡ t.rec_count =
      slice-length t.rec_count 0 (λ n. slice arena_max_players 0 (t.rec n)) in
    let all =
      slice-All
        (λ (e : TickHash).
          0 < e.tick → e.tick ≤ t.rec_count → e.hash ≡ replay (bundle_of v t) e.tick)
        bundle_ring 0 t.ring
        (λ k lo hi pos there.
          is.ring_hash k hi pos (omega (arith, there, last))
          ∙ sym (replay-bundle_of cfg v t of few map le (t.ring k).tick there)) in
    let nothing : Divergence = record { tick = 0; ring_hash = 0; replay_hash = 0 } in
    rw (diverges_at, rows)
      (ap (λ (d : Divergence). d.tick)
        (compare_ring-Agree t.rec_count (replay (bundle_of v t)) nothing
          (slice bundle_ring 0 t.ring) all))
