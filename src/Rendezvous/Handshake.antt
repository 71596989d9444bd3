-- ===== src/Rendezvous/Handshake.antt =====
-- The START handshake: when the acknowledgements are complete.
use bmhero_arena.Common.{
  ℕ, zero, suc, ◌<◌, ◌≡◌, refl, true, arith, Bool-cases, inl, inr, ◌⊎◌, ◌↔◌, update,
}
use bmhero_arena.Rendezvous.{rv_max_players, starting, Session, is_running}
use bmhero_arena.Rendezvous.Handlers.{seen, acked, all_acked}
use bmhero_arena.Rendezvous.Invariant.{IsLive}

-- Everyone but p, who acknowledges now, has acknowledged before.
abbrev pub OthersAcked : Session → ℕ → Type 0
OthersAcked s p = (k : ℕ) → k < s.joined → (k ≡ p) ⊎ ((s.peers k).start_acked ≡ true)

all_acked-each :
    (s : Session) (k : ℕ)
    → all_acked s ≡ true
    → k < rv_max_players
    → (s.peers k).used ≡ true
    → (s.peers k).start_acked ≡ true
all_acked-each s zero a h u = ground arith
all_acked-each s (suc zero) a h u = ground arith
all_acked-each s (suc (suc zero)) a h u = ground arith
all_acked-each s (suc (suc (suc zero))) a h u = ground arith
all_acked-each s (suc (suc (suc (suc k)))) a h u = absurd (omega arith)

all_acked-of :
    (s : Session)
    → ((k : ℕ) → k < rv_max_players → (s.peers k).used ≡ true → (s.peers k).start_acked ≡ true)
    → all_acked s ≡ true
all_acked-of s f = ground (arith, f 0, f 1, f 2, f 3)

abbrev acking : Session → ℕ → ℕ → Session
acking s p now =
    let t = seen s p now in
    record t { peers = update t.peers p (record (t.peers p) { start_acked = true }) }

acking_complete :
    (s : Session) (p now : ℕ)
    → IsLive s
    → p < s.joined
    → (all_acked (acking s p now) ≡ true) ↔ OthersAcked s p
acking_complete s p now v h = (
  λ a k lt.
      ground (arith, all_acked-each (acking s p now) k a, v.seats k, v.not_over, v.at_most_four),
  λ f. all_acked-of (acking s p now) (λ k lt u. ground (arith, v.seats k, f k)),
)

acked-running :
    (s : Session) (p now : ℕ)
    → s.phase ≡ starting
    → is_running (acked s p now).phase ≡ all_acked (acking s p now)
unfolding acked
acked-running s p now e =
    rw (e, acked)
      (elim (Bool-cases (all_acked (acking s p now))) [
        | inl all ↦ rw all refl
        | inr wait ↦ rw wait refl
      ])

-- An acknowledgement completes the start exactly when all the others that are in have sent theirs:
-- a starting session then runs, whatever their order was.
pub acked_complete :
    (s : Session) (p now : ℕ)
    → IsLive s
    → s.phase ≡ starting
    → p < s.joined
    → (is_running (acked s p now).phase ≡ true) ↔ OthersAcked s p
acked_complete s p now v e h = rw (acked-running s p now e) (acking_complete s p now v h)
