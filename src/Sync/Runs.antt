-- ===== src/Sync/Runs.antt =====
-- A tick that the session of src/netplay/sync_session.c runs, under its library.
use bmhero_arena.Common.{
  ℕ, suc, ◌+◌, ◌%◌, ◌≤◌, ◌<◌, ◌≡◌, ◌≢◌, ◌∙◌, refl, sym, ap, Bool, ltb, ◌==◌, if◌then◌else◌, Array,
  update, update_self, arith, Bool-cases, inl, inr,
}
use bmhero_arena.Arena.State.{ArenaState}
use bmhero_arena.Arena.Tick.{arena_tick}
use bmhero_arena.Arena.Hash.{arena_hash}
use bmhero_arena.Arena.Course.{arena_tick-keeps}
use bmhero_arena.Sync.{bundle_max_ticks, bundle_ring, TickHash}
use bmhero_arena.Sync.Frames.{
  advances, game_event, advance, record_inputs, corrupt, note_hash, tick_inputs,
}
use bmhero_arena.Sync.Timeline.{IsReplay, Timeline, replayed, replayed-update}

-- A tick that is run, spelt out.
module _ (s₀ : ArenaState) (t : Timeline) (v : IsReplay s₀ t) (inputs : Array ℕ) (rb : Bool)
    (lt : t.session.state.tick < bundle_max_ticks) where
  abbrev pub n : ℕ
  n = t.session.state.tick

  abbrev pub now : Array ℕ
  now = tick_inputs t.session.num_players inputs

  abbrev rec' : Array (Array ℕ)
  rec' = update t.session.rec n now

  abbrev after : ArenaState
  after = arena_tick t.session.state now

  -- The session after the tick.
  advanced : advance t.session inputs rb ≡ record t.session {
    state = after;
    rec = rec';
    rec_count = if ltb t.session.rec_count (n + 1) then n + 1 else t.session.rec_count;
    ring =
        update t.session.ring
          (after.tick % bundle_ring)
          (record { tick = after.tick; hash = arena_hash after });
  }
  unfolding advance record_inputs corrupt note_hash
  advanced = ground (arith, v.honest, lt)

  after-tick : after.tick ≡ suc n
  after-tick = let (_, _, _, e) = arena_tick-keeps t.session.state now in omega (arith, e)

  after-replayed : after ≡ replayed s₀ rec' (suc n)
  after-replayed =
      let own : rec' n ≡ now = update_self t.session.rec n now in
      let same : replayed s₀ rec' n ≡ t.session.state =
        replayed-update s₀ t.session.rec n now n (omega arith) ∙ sym v.state_is in
      rw (own, same) refl

  after-replayed_at : after ≡ replayed s₀ rec' after.tick
  after-replayed_at = after-replayed ∙ ap (replayed s₀ rec') (sym after-tick)

  earlier : (k : ℕ) → k ≤ n → replayed s₀ rec' k ≡ replayed s₀ t.session.rec k
  earlier k h = replayed-update s₀ t.session.rec n now k h

  ring' : Array TickHash
  ring' =
      update t.session.ring (after.tick % bundle_ring)
        (record { tick = after.tick; hash = arena_hash after })

  ring'_index : (i : ℕ) → i < bundle_ring → 0 < (ring' i).tick → (ring' i).tick % bundle_ring ≡ i
  unfolding ring'
  ring'_index i h pos = elim (Bool-cases (i == after.tick % bundle_ring)) [
    | inl new ↦ rw new (ground (arith, new))
    | inr old ↦ rw old (v.ring_index i h (rw old at pos))
  ]

  ring'_hash :
      (i : ℕ)
      → i < bundle_ring
      → 0 < (ring' i).tick
      → (ring' i).tick ≤ after.tick
      → (ring' i).hash ≡ arena_hash (replayed s₀ rec' (ring' i).tick)
  unfolding ring'
  ring'_hash i h pos le = elim (Bool-cases (i == after.tick % bundle_ring)) [
    | inl new ↦ rw new (ap arena_hash after-replayed_at)
    | inr old ↦
        let k = (t.session.ring i).tick in
        let pos' : 0 < k = rw old at pos in
        let le' : k ≤ after.tick = rw old at le in
        let at_i : k % bundle_ring ≡ i = v.ring_index i h pos' in
        let before : k ≤ n = ground (arith, at_i, le', after-tick, old) in
        rw (old, earlier k before) (v.ring_hash i h pos' before)
  ]

  count' : ℕ
  count' = if ltb t.session.rec_count (n + 1) then n + 1 else t.session.rec_count

  count'_bounds : (t.session.rec_count ≤ count') × (n + 1 ≤ count')
  unfolding count'
  count'_bounds = ground arith

  ring'_full :
      (k : ℕ)
      → 0 < k
      → k ≤ after.tick
      → count' < k + bundle_ring
      → (ring' (k % bundle_ring)).tick ≡ k
  unfolding ring'
  ring'_full k pos le near = elim (Bool-cases (k % bundle_ring == after.tick % bundle_ring)) [
    | inl new ↦
        let (_, past) = count'_bounds in
        let same : k % bundle_ring ≡ after.tick % bundle_ring = ground (arith, new) in
        rw new (omega (arith, same, past, after-tick, le, near))
    | inr old ↦
        let (more, _) = count'_bounds in
        let apart : k ≢ after.tick = ground (arith, old) in
        rw old
          (v.ring_full k pos (omega (arith, apart, le, after-tick)) (omega (arith, more, near)))
  ]

  ring'_most : (i : ℕ) → i < bundle_ring → (ring' i).tick ≤ count'
  unfolding ring'
  ring'_most i h =
      let (more, past) = count'_bounds in
      elim (Bool-cases (i == after.tick % bundle_ring)) [
        | inl new ↦ rw new (omega (arith, past, after-tick))
        | inr old ↦ rw old (omega (arith, more, v.ring_most i h))
      ]

  pub runs-IsReplay :
      IsReplay s₀ (record { session = game_event t.session (advances inputs rb); saves = t.saves })
  unfolding game_event ring' count'
  runs-IsReplay = rw advanced (record {
    honest = v.honest;
    state_is = after-replayed_at;
    in_range = omega (arith, after-tick);
    recorded = ground (arith, after-tick, v.recorded);
    most = ground (arith, v.most, lt);
    held = λ f st e.
        let (le, tick, is) = v.held f st e in
        (omega (arith, after-tick), tick, is ∙ sym (earlier f le));
    ring_index = ring'_index;
    ring_hash = ring'_hash;
    ring_full = ring'_full;
    ring_most = ring'_most;
  })
