-- ===== src/Rendezvous/Ownership.antt =====
-- Who may change a session of src/lobby/rendezvous.c: the members that its packets come from.
use bmhero_arena.Common.{
  ℕ, ◌<◌, ◌≡◌, Bool, false, not, List, arith, inl, inr, ◌⊎◌, first_index-some,
}
use bmhero_arena.Lobby.Proto.{LobbyEndpoint}
use bmhero_arena.Rendezvous.{rv_max_sessions, rv_max_players, Session, Rendezvous, is_free}
use bmhero_arena.Rendezvous.Handlers.{
  admitted, reported, arbitrate, decided, started, acked, handle,
}
use bmhero_arena.Rendezvous.Invariant.{IsLive, IsValid}
use bmhero_arena.Rendezvous.Moves.{Owns, Write, saw, admits, reports, starts, acks, relays}
use bmhero_arena.Rendezvous.History.{Effect, handle-Effect, untouched, written}

reported-Owns :
    (s : Session) (from : LobbyEndpoint) (rep oth now : ℕ) (ok : Bool)
    → Owns s from rep
    → Owns (reported s rep oth now ok) from rep
unfolding reported
reported-Owns s from rep oth now ok own = ground arith

arbitrate-Owns :
    (s : Session) (now : ℕ) (from : LobbyEndpoint) (a b p : ℕ)
    → Owns s from p
    → Owns (arbitrate s now from a b).0 from p
unfolding arbitrate decided
arbitrate-Owns s now from a b p own = ground arith

-- The writer holds a seat of what it wrote.
Write-Owns :
    (from : LobbyEndpoint) (s t : Session) → IsLive s → Write from s t → (p : ℕ) × Owns t from p
unfolding admitted started acked
Write-Owns from s t v (saw p now own e) = (p, ground arith)
Write-Owns from s t v (admits slot now m waits stranger room here e) =
    let at = first_index-some rv_max_players (λ k. not (s.peers k).used) slot here in
    (slot, ground arith)
Write-Owns from s t v (reports rep oth now ok a b own ne e) = (
  rep,
  rw e (
      arbitrate-Owns (reported s rep oth now ok) now from a b rep
        (reported-Owns s from rep oth now ok own)),
)
Write-Owns from s t v (starts now m own _ e) = (0, ground arith)
Write-Owns from s t v (acks p now own e) = (p, ground arith)
Write-Owns from s t v (relays p now own e) = (p, ground arith)

-- On a server in order, a packet changes a live session only when its source address holds a seat
-- there afterwards.
pub handle-Owns :
    (rv : Rendezvous) (now : ℕ) (from : LobbyEndpoint) (buf : List ℕ) (i : ℕ)
    → IsValid rv
    → i < rv_max_sessions
    → is_free (rv.sessions i).phase ≡ false
    → ((handle rv now from buf).0.sessions i ≡ rv.sessions i)
      ⊎ ((p : ℕ) × Owns ((handle rv now from buf).0.sessions i) from p)
handle-Owns rv now from buf i v h live = owner (handle-Effect rv now from buf i live)
  where
    owner :
        {t : Session}
        → Effect from (rv.sessions i) t
        → (t ≡ rv.sessions i) ⊎ ((p : ℕ) × Owns t from p)
    owner (untouched e) = inl e
    owner {t} (written w) = inr (Write-Owns from (rv.sessions i) t (v.table.each i h live) w)
