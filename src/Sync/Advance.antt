-- ===== src/Sync/Advance.antt =====
-- What GekkoAdvanceEvent in src/netplay/sync_session.c changes, whatever state it is given.
use bmhero_arena.Common.{
  ℕ, suc, ◌+◌, ◌%◌, ◌≤◌, ◌<◌, ◌≡◌, ◌≢◌, ◌∙◌, refl, sym, ap, Bool, true, false, ltb, ◌==◌,
  if◌then◌else◌, Array, update, arith, Bool-cases, inl, inr,
}
use bmhero_arena.Arena.State.{ArenaState}
use bmhero_arena.Arena.Tick.{arena_tick}
use bmhero_arena.Arena.Hash.{arena_hash}
use bmhero_arena.Arena.Course.{arena_tick-keeps}
use bmhero_arena.Sync.{bundle_max_ticks, bundle_ring, SyncSession, TickHash}
use bmhero_arena.Sync.Frames.{advance, record_inputs, corrupt, note_hash, tick_inputs}
use bmhero_arena.Sync.Timeline.{replayed, replayed-update}
use bmhero_arena.Sync.Consistent.{advance-rec}

module _ (s : SyncSession) (inputs : Array ℕ) (rb : Bool) where
  pub advance-ring :
      let t = advance s inputs rb in
      t.ring
      ≡ update s.ring
          (t.state.tick % bundle_ring)
          (record { tick = t.state.tick; hash = arena_hash t.state })
  unfolding advance record_inputs corrupt note_hash
  advance-ring = ground arith

  advance-state :
      ((advance s inputs rb).state.tick
        ≡ (arena_tick s.state (tick_inputs s.num_players inputs)).tick)
      × ((advance s inputs rb).state.arena_id
          ≡ (arena_tick s.state (tick_inputs s.num_players inputs)).arena_id)
  unfolding advance record_inputs corrupt note_hash
  advance-state = ground arith

  pub advance-count : (advance s inputs rb).rec_count ≡ (
      if ltb s.state.tick bundle_max_ticks
      then if ltb s.rec_count (s.state.tick + 1) then s.state.tick + 1 else s.rec_count
      else s.rec_count)
  unfolding advance record_inputs corrupt note_hash
  advance-count = ground arith

  pub advance-arena_id : (advance s inputs rb).state.arena_id ≡ s.state.arena_id
  advance-arena_id =
      let (_, id, _, _) = arena_tick-keeps s.state (tick_inputs s.num_players inputs) in
      let (_, own) = advance-state in own ∙ id

  module _ (lt : s.state.tick < bundle_max_ticks) where
    pub advance-tick : (advance s inputs rb).state.tick ≡ suc s.state.tick
    advance-tick =
        let (_, _, _, e) = arena_tick-keeps s.state (tick_inputs s.num_players inputs) in
        let (own, _) = advance-state in omega (arith, own, e, lt)

    -- The inputs of earlier ticks stay.
    pub advance_earlier :
        (s₀ : ArenaState) (k : ℕ)
        → k ≤ s.state.tick
        → replayed s₀ (advance s inputs rb).rec k ≡ replayed s₀ s.rec k
    advance_earlier s₀ k h =
        let fits : ltb s.state.tick bundle_max_ticks ≡ true = ground (arith, lt) in
        rw (advance-rec s inputs rb, fits)
          (replayed-update s₀ s.rec s.state.tick (tick_inputs s.num_players inputs) k h)

    -- One slot of the ring is written.
    pub advance_kept :
        (i : ℕ) → i ≢ suc s.state.tick % bundle_ring → (advance s inputs rb).ring i ≡ s.ring i
    advance_kept i off =
        let off' : (i == (advance s inputs rb).state.tick % bundle_ring) ≡ false =
          ground (arith, off, advance-tick) in
        rw (advance-ring, off') refl

    pub advance_wrote :
        (i : ℕ)
        → i ≡ suc s.state.tick % bundle_ring
        → ((advance s inputs rb).ring i).tick ≡ suc s.state.tick
    advance_wrote i q =
        let on : (i == (advance s inputs rb).state.tick % bundle_ring) ≡ true =
          ground (arith, q, advance-tick) in
        rw (advance-ring, on) advance-tick

    -- What a run leaves of the hashes before a tick that is not later than the one it ends in.
    pub advance_before :
        (s₀ : ArenaState) (m : ℕ)
        → m ≤ suc s.state.tick
        → ((i : ℕ)
            → i < bundle_ring
            → 0 < (s.ring i).tick
            → (s.ring i).tick < m
            → (s.ring i).hash ≡ arena_hash (replayed s₀ s.rec (s.ring i).tick))
        → (i : ℕ) → i < bundle_ring
        → 0 < ((advance s inputs rb).ring i).tick
        → ((advance s inputs rb).ring i).tick < m
        → ((advance s inputs rb).ring i).hash
          ≡ arena_hash (replayed s₀ (advance s inputs rb).rec ((advance s inputs rb).ring i).tick)
    advance_before s₀ m le v i h pos old = elim (Bool-cases (i == suc s.state.tick % bundle_ring)) [
      | inl new ↦
          let wrote = advance_wrote i (ground (arith, new)) in
          absurd (omega (arith, wrote, old, le))
      | inr other ↦
          let kept : (advance s inputs rb).ring i ≡ s.ring i =
            advance_kept i (ground (arith, other)) in
          let same = ap (λ (e : TickHash). e.tick) kept in
          let k = (s.ring i).tick in
          let before : (s.ring i).hash ≡ arena_hash (replayed s₀ s.rec k) =
            v i h (omega (arith, pos, same)) (omega (arith, old, same)) in
          ap (λ (e : TickHash). e.hash) kept
          ∙ before
          ∙ ap arena_hash (sym (advance_earlier s₀ k (omega (arith, old, same, le))))
          ∙ ap (λ j. arena_hash (replayed s₀ (advance s inputs rb).rec j)) (sym same)
    ]
