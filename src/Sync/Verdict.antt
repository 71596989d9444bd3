-- ===== src/Sync/Verdict.antt =====
-- tools/replay_bundle.c on two bundles: the differing inputs, the culprit, and the states around the
-- divergence. What main prints is returned.
use bmhero_arena.Common.{
  ℕ, zero, suc, ◌+◌, ◌-◌, ◌≡◌, ◌<◌, ◌≤◌, refl, Bool, true, not, ◌&&◌, ◌||◌, none, some, Option,
  List, [], ◌∷◌, length, ltb, leb, ◌==◌, if◌then◌else◌, Array, first_index, take, arith,
}
use bmhero_arena.Arena.State.{arena_max_players, ArenaState}
use bmhero_arena.Arena.Bombs.{init}
use bmhero_arena.Arena.Tick.{arena_tick}
use bmhero_arena.Sync.{
  bundle_max_ticks, bundle_ring, SyncConfig, SyncSession, Actor, sync_create, debug_corrupt,
}
use bmhero_arena.Sync.Timeline.{Timeline, Events}
use bmhero_arena.Sync.Replayed.{begun}
use bmhero_arena.Sync.Bundle.{
  Bundle, bundle_of, byte_at, row_inputs, replay, Divergence, first_divergence,
}
use bmhero_arena.Sync.Consistent.{diverges_at-session}
use bmhero_arena.Sync.Localised.{run_fresh, diverges_at-debug_corrupt}

-- The CULPRIT line.
pub data Culprit : Type 0 where
  first_drifted second_drifted both_drifted none_drifted : Culprit

abbrev pub culprit_of : ℕ → ℕ → Culprit
culprit_of ta tb =
    if not (ta == 0) && tb == 0
    then first_drifted
    else if not (tb == 0) && ta == 0
    then second_drifted
    else if not (ta == 0) && not (tb == 0)
    then both_drifted
    else none_drifted

-- The first tick and player whose inputs differ, over the ticks that both have, from tick t on.
unfoldable pub input_difference : ℕ → List (List ℕ) → List (List ℕ) → Option (ℕ × ℕ)
input_difference t (x ∷ xs) (y ∷ ys) =
    let later = input_difference (t + 1) xs ys in
    elim (first_index arena_max_players (λ p. not (byte_at x p == byte_at y p))) [
      | some p ↦ some (t, p)
      | none ↦ later
    ]
input_difference t xs ys = none

abbrev pub run_rows : List (List ℕ) → ArenaState → ArenaState
run_rows [] s = s
run_rows (row ∷ rows) s = run_rows rows (arena_tick s (row_inputs row))

abbrev pub row_at : List (List ℕ) → ℕ → List ℕ
row_at [] i = []
row_at (row ∷ rows) zero = row
row_at (row ∷ rows) (suc i) = row_at rows i

-- dump_around: the states before and after tick n.
unfoldable pub dump_around : Bundle → ℕ → Option (ArenaState × ArenaState)
dump_around b n =
    if n == 0 || ltb (length b.rec) n
    then none
    else (let s =
          run_rows (take (n - 1) b.rec)
            (init b.header.arena_id b.header.num_players b.header.seed) in
        some (s, arena_tick s (row_inputs (row_at b.rec (n - 1)))))

-- What is printed of two bundles.
pub record Analysis : Type 0 where
  pub inputs_differ : Option (ℕ × ℕ)
  pub first : Divergence
  pub second : Divergence
  pub culprit : Culprit
  pub dump : Option (ArenaState × ArenaState)

-- The bundle to dump, and the tick.
abbrev pub dumped : Bundle → Bundle → ℕ → ℕ → Option (ArenaState × ArenaState)
dumped a b ta tb =
    if not (ta == 0) && (tb == 0 || leb ta tb)
    then dump_around a ta
    else if not (tb == 0)
    then dump_around b tb
    else none

-- What main finds out.
abbrev pub analysis : Bundle → Bundle → Analysis
analysis a b =
    let first = first_divergence a (replay a) in
    let second = first_divergence b (replay b) in
    record {
      inputs_differ = input_difference 0 a.rec b.rec;
      first = first;
      second = second;
      culprit = culprit_of first.tick second.tick;
      dump = dumped a b first.tick second.tick;
    }

-- main on two bundles that have been loaded: `none` for those of different builds.
unfoldable pub analyse : Bundle → Bundle → Option Analysis
analyse a b = if a.header.net_version == b.header.net_version then some (analysis a b) else none

same_build :
    (v : ℕ) (s r : SyncSession)
    → (bundle_of v s).header.net_version ≡ (bundle_of v r).header.net_version
unfolding bundle_of
same_build v s r = refl

-- Of two sessions that their libraries have brought, within their contracts, to some tick each, the
-- hook sync_debug_corrupt alters the next fresh tick of the first, which then runs fewer than 256
-- fresh ticks more; the second stands at the last tick that it ever ran. From their two bundles the
-- replay tool names the first as the culprit, at the tick in which the altered one ended.
pub analyse-debug_corrupt :
    (cfg dfg : SyncConfig) (given given' : Bool) (handles handles' : Array ℕ) (s r : SyncSession)
    (actors actors' : List Actor) (u w : Timeline) (now : Array ℕ) (rest : List (Array ℕ)) (v : ℕ)
    → sync_create cfg given handles ≡ some (s, actors)
    → sync_create dfg given' handles' ≡ some (r, actors')
    → Events (begun s) u
    → Events (begun r) w
    → suc u.session.state.tick + length rest ≤ bundle_max_ticks
    → length rest < bundle_ring
    → w.session.state.tick ≡ w.session.rec_count
    → (out : Analysis) × (analyse
          (bundle_of v (run_fresh (debug_corrupt u.session) (now ∷ rest)))
          (bundle_of v w.session)
        ≡ some out)
      × (out.culprit ≡ first_drifted)
      × (out.first.tick ≡ suc u.session.state.tick)
unfolding analyse
analyse-debug_corrupt cfg dfg given given' handles handles' s r actors actors' u w now rest v es er
      us ws le short last =
    let a = bundle_of v (run_fresh (debug_corrupt u.session) (now ∷ rest)) in
    let b = bundle_of v w.session in
    let ta : (first_divergence a (replay a)).tick ≡ suc u.session.state.tick =
      diverges_at-debug_corrupt cfg given handles s actors u now rest v es us le short in
    let tb : (first_divergence b (replay b)).tick ≡ 0 =
      diverges_at-session dfg given' handles' r actors' w v er ws last in
    let build : (a.header.net_version == b.header.net_version) ≡ true =
      ground (arith, same_build v (run_fresh (debug_corrupt u.session) (now ∷ rest)) w.session) in
    let named : culprit_of (first_divergence a (replay a)).tick (first_divergence b (replay b)).tick
        ≡ first_drifted =
      rw (ta, tb) (ground arith) in
    (analysis a b, rw build refl, named, ta)
