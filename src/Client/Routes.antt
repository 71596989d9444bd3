-- ===== src/Client/Routes.antt =====
-- The verdict of the server on a pair, and what the two clients of the pair make of it.
use bmhero_arena.Common.{
  ℕ, ◌<◌, ◌≤◌, ◌≡◌, refl, true, not, ◌||◌, some, List, [], arith, ==_self, ==_ne, Bool-cases, inl,
  inr, All, All-map, u8,
}
use bmhero_arena.Lobby.Proto.{LobbyEndpoint, route_relay}
use bmhero_arena.Lobby.Proto.Wire.{done, >>=-eq-done}
use bmhero_arena.Lobby.Proto.Pack.{pack}
use bmhero_arena.Lobby.Proto.Unpack.{unpack}
use bmhero_arena.Lobby.Proto.RoundTrip.{unpack-pack}
use bmhero_arena.Rendezvous.{Session, Datagram, emit_msg}
use bmhero_arena.Rendezvous.Invariant.{IsLive}
use bmhero_arena.Rendezvous.Sending.{emit_msg-All, players-All, All-if}
use bmhero_arena.Rendezvous.Handlers.{arbitrate, decided, pair_msg, is_seen}
use bmhero_arena.Arena.State.{arena_max_players}
use bmhero_arena.Client.{LobbyClient}
use bmhero_arena.Client.Receive.{receive_msg, on_pair_route}
use bmhero_arena.Client.Poll.{hear}
use bmhero_arena.Client.Punching.{hear_done}

module _ (a b r : ℕ) (lo : a < b) (hi : b < arena_max_players) (kind : r ≤ route_relay) where
  abbrev Says : Datagram → Type 0
  Says d = unpack d.bytes ≡ done (pair_msg a b r)

  pair_msg-read :
      (bytes : List ℕ) → pack (pair_msg a b r) ≡ done bytes → unpack bytes ≡ done (pair_msg a b r)
  pair_msg-read bytes e =
      let (xs, p, u) =
        >>=-eq-done (pack (pair_msg a b r)) unpack
          (unpack-pack (pair_msg a b r) (omega arith) tt) in
      ground (arith, u)

  emit_msg-Says : (to : LobbyEndpoint) → All Says (emit_msg to (pair_msg a b r))
  emit_msg-Says to = emit_msg-All Says to (pair_msg a b r) pair_msg-read

-- Every datagram is a PAIR_ROUTE of the pair, with the route that the session then has.
abbrev pub Told : ℕ → ℕ → Session × List Datagram → Type 0
Told a b (s, out) =
    (s.route a b ≤ route_relay) × All (λ d. unpack d.bytes ≡ done (pair_msg a b (s.route a b))) out

decided-kind : (s : Session) (a b now : ℕ) → a < b → (decided s a b now).route a b ≤ route_relay
unfolding decided
decided-kind s a b now h = ground (arith, ==_self a, ==_self b)

arbitrate-Told :
    (s : Session) (now : ℕ) (from : LobbyEndpoint) (a b : ℕ)
    → a < b
    → b < arena_max_players
    → IsLive s
    → Told a b (arbitrate s now from a b)
unfolding arbitrate
arbitrate-Told s now from a b lo hi v =
    let unseen = not (is_seen (s.punch a b)) || not (is_seen (s.punch b a)) in
    elim (Bool-cases unseen) [
      | inl e ↦ rw (e, arbitrate) (v.route_kind a b, tt)
      | inr e ↦ elim (Bool-cases (s.route_sent a b)) [
        | inl f ↦
            rw (e, f, arbitrate)
              (v.route_kind a b, emit_msg-Says a b (s.route a b) lo hi (v.route_kind a b) from)
        | inr f ↦
            let t = decided s a b now in
            let k = decided-kind s a b now lo in
            rw (e, f, arbitrate)
              (
                k,
                players-All _ _ λ i.
                    All-if _ (t.peers i).used _ []
                      (emit_msg-Says a b (t.route a b) lo hi k (t.peers i).public_ep) tt,
              )
      ]
    ]

-- A client of slot a has the route to b, and knows that the pair is decided.
abbrev pub Holds : LobbyClient → ℕ → ℕ → ℕ → Type 0
Holds lc a b r =
    ((lc.peer b).route ≡ some r) × (lc.route_known a b ≡ true) × (lc.route_known b a ≡ true)

on_pair_route-Holds :
    (lc : LobbyClient) (a b r : ℕ)
    → a < b
    → b < arena_max_players
    → r ≤ route_relay
    → let t = on_pair_route lc (record { slot_a = a; slot_b = b; route = r }) in
      (lc.local_slot ≡ a → Holds t a b r) × (lc.local_slot ≡ b → Holds t b a r)
unfolding on_pair_route
on_pair_route-Holds lc a b r lo hi k = (
  λ e. ground (arith, ==_self a, ==_self b, ==_ne b a),
  λ e. ground (arith, ==_self a, ==_self b, ==_ne a b),
)

hear-Holds :
    (lc : LobbyClient) (now : ℕ) (src : LobbyEndpoint) (bytes : List ℕ) (a b r : ℕ)
    → a < b
    → b < arena_max_players
    → r ≤ route_relay
    → unpack bytes ≡ done (pair_msg a b r)
    → let t = (hear lc now (record { from = src; bytes = bytes })).0 in
      (lc.local_slot ≡ a → Holds t a b r) × (lc.local_slot ≡ b → Holds t b a r)
unfolding receive_msg
hear-Holds lc now src bytes a b r lo hi k e =
    let ea : u8 a ≡ a = omega arith in
    let eb : u8 b ≡ b = omega arith in
    rw (hear_done lc now (record { from = src; bytes = bytes }) (pair_msg a b r) e, ea, eb)
      (on_pair_route-Holds lc a b r lo hi k)

-- Both clients of the pair, whenever and from wherever each hears the datagram, hold the route r.
abbrev pub Agree : LobbyClient → LobbyClient → ℕ → Datagram → Type 0
Agree x y r d =
    (src : LobbyEndpoint) (t u : ℕ)
    → Holds (hear x t (record { from = src; bytes = d.bytes })).0 x.local_slot y.local_slot r
      × Holds (hear y u (record { from = src; bytes = d.bytes })).0 y.local_slot x.local_slot r

-- Whatever the server emits about a pair a < b of a session that is live, after a report on it,
-- tells both clients of the pair the same route, the one that the session has: each of them that
-- hears any of these datagrams has this route to the other and knows that the pair is decided.
pub arbitrate-Agree :
    (s : Session) (now : ℕ) (from : LobbyEndpoint) (x y : LobbyClient)
    → x.local_slot < y.local_slot
    → y.local_slot < arena_max_players
    → IsLive s
    → let (s', out) = arbitrate s now from x.local_slot y.local_slot in
      All (Agree x y (s'.route x.local_slot y.local_slot)) out
arbitrate-Agree s now from x y lo hi v =
    let a = x.local_slot in
    let b = y.local_slot in
    let (k, told) = arbitrate-Told s now from a b lo hi v in
    let r = (arbitrate s now from a b).0.route a b in
    All-map (λ d. unpack d.bytes ≡ done (pair_msg a b r)) (Agree x y r) (arbitrate s now from a b).1
      (λ d e src t u. (
        (hear-Holds x t src d.bytes a b r lo hi k e).0 refl,
        (hear-Holds y u src d.bytes a b r lo hi k e).1 refl,
      ))
      told
