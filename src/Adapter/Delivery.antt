-- ===== src/Adapter/Delivery.antt =====
-- From na_send on one machine to na_recv on another, directly and through the server.
use bmhero_arena.Common.{
  ℕ, zero, suc, ◌^◌, ◌≤◌, ◌<◌, ◌≡◌, refl, Bool, true, false, List, [], ◌∷◌, ==_self, length,
  take_all, arith,
}
use bmhero_arena.Lobby.Proto.{
  LobbyEndpoint, LobbyMsg, Relay, direct, relayed, relay, game, lobby_max_payload,
}
use bmhero_arena.Lobby.Proto.Wire.{done, >>=-eq-done}
use bmhero_arena.Lobby.Proto.Pack.{pack}
use bmhero_arena.Lobby.Proto.Unpack.{unpack}
use bmhero_arena.Lobby.Proto.RoundTrip.{unpack-pack}
use bmhero_arena.Arena.State.{arena_max_players}
use bmhero_arena.Rendezvous.{Datagram, Rendezvous}
use bmhero_arena.Rendezvous.Handlers.{handle}
use bmhero_arena.Rendezvous.Relay.{MayRelay, handle-MayRelay}
use bmhero_arena.Client.Poll.{Arrival, is_empty}
use bmhero_arena.Adapter.{Adapter, impaired_send, flush_due, flush}
use bmhero_arena.Adapter.Traffic.{
  wrapped, send_wrapped, na_send, NetResult, accept, sort_msg, take_in, recv_loop, na_recv,
}

-- x may send to y: both are in the same session, y's slot is one that x may name, and x's traffic is
-- not impaired.
pub record Linked (x y : Adapter) : Type 0 where
  pub sender : x.active ≡ true
  pub receiver : y.active ≡ true
  pub unimpaired : x.imp_on ≡ false
  pub same_session : x.session_id ≡ y.session_id
  pub session_fits : y.session_id < 2 ^ 16
  pub from_fits : x.local_slot < 256
  pub to_in_range : y.local_slot < arena_max_players

taken :
    (z : Adapter) (b : Bool) (d : Arrival) (m : LobbyMsg)
    → unpack d.bytes ≡ done m
    → take_in z b d ≡ sort_msg z b d m
unfolding take_in
taken z b d m e = rw (e, take_in) refl

unpack-nonempty : (bytes : List ℕ) (m : LobbyMsg) → unpack bytes ≡ done m → is_empty bytes ≡ false
unfolding unpack
unpack-nonempty [] m e = absurd (ground arith)
unpack-nonempty (b ∷ bs) m e = refl

-- The last datagram of the socket.
recv_one :
    (n : ℕ) (z z' : Adapter) (given : ℕ → Bool) (d : Arrival) (r : NetResult)
    → take_in z (given n) d ≡ (z', r ∷ [])
    → is_empty d.bytes ≡ false
    → (recv_loop (suc n) z given (d ∷ [])).1 ≡ r ∷ []
unfolding recv_loop
recv_one zero z z' given d r e f = rw (f, e) refl
recv_one (suc n) z z' given d r e f = rw (f, e) refl

module _ (x y : Adapter) (payload : List ℕ) (l : Linked x y)
    (fits : length payload ≤ lobby_max_payload) where
  abbrev message : Relay
  message = wrapped x y.local_slot payload

  game_packet :
      (bytes : List ℕ) × (pack (game message) ≡ done bytes) × (unpack bytes ≡ done (game message))
  game_packet = >>=-eq-done (pack (game message)) unpack (
      unpack-pack (game message)
        (
          omega (arith, l.same_session),
          omega (arith, l.from_fits),
          omega (arith, l.to_in_range),
          fits,
          payload,
          refl,
          omega arith,
        )
        (payload, refl, refl))

  relay_packet :
      (bytes : List ℕ) × (pack (relay message) ≡ done bytes) × (unpack bytes ≡ done (relay message))
  relay_packet = >>=-eq-done (pack (relay message)) unpack (
      unpack-pack (relay message)
        (
          omega (arith, l.same_session),
          omega (arith, l.from_fits),
          omega (arith, l.to_in_range),
          fits,
          payload,
          refl,
          omega arith,
        )
        (payload, refl, refl))

  abbrev pub arrived : NetResult
  arrived = record { from_slot = x.local_slot; payload = payload }

  accepted :
      (z : Adapter)
      → z.session_id ≡ y.session_id
      → z.local_slot ≡ y.local_slot
      → accept z true message ≡ (z, arrived ∷ [])
  unfolding accept
  accepted z e f = ground (
    arith,
    take_all (length payload) payload refl,
    l.same_session,
    ==_self y.local_slot,
    ==_self y.session_id,
  )

  -- A packet that na_recv sorts as the message is what it returns.
  received :
      (from : LobbyEndpoint) (bytes : List ℕ) (m : LobbyMsg) (t : ℕ) (given : ℕ → Bool)
      → unpack bytes ≡ done m
      → ((z : Adapter) (d : Arrival) → sort_msg z true d m ≡ accept z true message)
      → given 63 ≡ true
      → (na_recv y t given (record { from = from; bytes = bytes } ∷ [])).results ≡ arrived ∷ []
  unfolding na_recv flush_due
  received from bytes m t given u s ok =
      let z : Adapter = record y { dq = (flush t y.dq).1 } in
      let d : Arrival = record { from = from; bytes = bytes } in
      let one : take_in z (given 63) d ≡ (z, arrived ∷ []) =
        rw (ok, taken z true d m u, s z d) (accepted z refl refl) in
      let all : (recv_loop 64 z given (d ∷ [])).1 ≡ arrived ∷ [] =
        recv_one 63 z z given d arrived one (unpack-nonempty bytes m u) in
      ground (arith, all, l.receiver)

  send_wrapped-one :
      (now : ℕ) (dest : LobbyEndpoint) (m : LobbyMsg) (bytes : List ℕ)
      → pack m ≡ done bytes
      → send_wrapped x now dest m ≡ (x, record { to = dest; bytes = bytes } ∷ [])
  unfolding send_wrapped impaired_send
  send_wrapped-one now dest m bytes e = ground (arith, e, l.unimpaired)

  -- What the rollback library of x sends to y's slot, over a direct route or through the server, is
  -- one datagram: to the address of the route, or to the server.
  na_send-direct :
      (now : ℕ) (rest bytes : List ℕ)
      → (x.route y.local_slot).kind ≡ direct
      → pack (game message) ≡ done bytes
      → na_send x now (y.local_slot ∷ rest) payload
        ≡ (x, record { to = (x.route y.local_slot).ep; bytes = bytes } ∷ [])
  unfolding na_send
  na_send-direct now rest bytes k e =
      let sent = send_wrapped-one now (x.route y.local_slot).ep (game message) bytes e in
      ground (arith, sent, k, l.sender, l.to_in_range, fits)

  na_send-relayed :
      (now : ℕ) (rest bytes : List ℕ)
      → (x.route y.local_slot).kind ≡ relayed
      → pack (relay message) ≡ done bytes
      → na_send x now (y.local_slot ∷ rest) payload
        ≡ (x, record { to = x.relay; bytes = bytes } ∷ [])
  unfolding na_send
  na_send-relayed now rest bytes k e =
      let sent = send_wrapped-one now x.relay (relay message) bytes e in
      ground (arith, sent, k, l.sender, l.to_in_range, fits)

  -- Two adapters are up, in one session whose id fits sixteen bits, with the receiver's slot below
  -- four and the sender's below 256; the sender's traffic is not impaired, the payload has at most
  -- 1024 bytes, and the allocations that na_recv makes for its first result succeed. Then, over a
  -- direct route, na_send for the receiver's slot sends one datagram, to the address of the route;
  -- and na_recv of the receiver, finding just this datagram in its socket, from whatever source,
  -- returns one result: the payload as it was sent, from the sender's slot.
  pub na_recv-na_send :
      (now t : ℕ) (given : ℕ → Bool) (from : LobbyEndpoint)
      → (x.route y.local_slot).kind ≡ direct
      → given 63 ≡ true
      → (d : Datagram) × (na_send x now (y.local_slot ∷ []) payload ≡ (x, d ∷ []))
        × (d.to ≡ (x.route y.local_slot).ep)
        × ((na_recv y t given (record { from = from; bytes = d.bytes } ∷ [])).results
            ≡ record { from_slot = x.local_slot; payload = payload } ∷ [])
  unfolding sort_msg
  na_recv-na_send now t given from k ok =
      let (bytes, e, u) = game_packet in
      (
        record { to = (x.route y.local_slot).ep; bytes = bytes },
        na_send-direct now [] bytes k e,
        refl,
        received from bytes (game message) t given u (λ z d. refl) ok,
      )

  -- Two adapters are up, in one session whose id fits sixteen bits, with the receiver's slot below
  -- four and the sender's below 256; the sender's traffic is not impaired, the payload has at most
  -- 1024 bytes, and the allocations that na_recv makes for its first result succeed. The server
  -- finds the session, in which both seats are taken, and hears from the address of the sender's
  -- seat. Then, over a relayed route, na_send for the receiver's slot sends one datagram, to the
  -- relay; the server, hearing it, sends it on to the address of the receiver's seat; and na_recv of
  -- the receiver, finding just what the server sent in its socket, returns one result: the payload
  -- as it was sent, from the sender's slot.
  pub na_recv-handle :
      (now t : ℕ) (given : ℕ → Bool) (from src : LobbyEndpoint) (rv : Rendezvous) (i u : ℕ)
      → (x.route y.local_slot).kind ≡ relayed
      → given 63 ≡ true
      → MayRelay rv src (wrapped x y.local_slot payload) i
      → (d : Datagram) × (na_send x now (y.local_slot ∷ []) payload ≡ (x, d ∷ []))
        × (d.to ≡ x.relay)
        × (e : Datagram) × ((handle rv u src d.bytes).1 ≡ e ∷ [])
        × (e.to ≡ ((rv.sessions i).peers y.local_slot).public_ep)
        × ((na_recv y t given (record { from = from; bytes = e.bytes } ∷ [])).results
            ≡ record { from_slot = x.local_slot; payload = payload } ∷ [])
  unfolding sort_msg
  na_recv-handle now t given from src rv i u k ok may =
      let (bytes, e, r) = relay_packet in
      (
        record { to = x.relay; bytes = bytes },
        na_send-relayed now [] bytes k e,
        refl,
        record { to = ((rv.sessions i).peers y.local_slot).public_ep; bytes = bytes },
        handle-MayRelay rv u src message bytes i r may,
        refl,
        received from bytes (relay message) t given r (λ z d. refl) ok,
      )
