-- ===== src/Client/Punching.antt =====
-- The hole between two clients: the PUNCH that one sends, the answer of the other, and what the
-- first makes of it.
use bmhero_arena.Common.{ℕ, ◌^◌, ◌<◌, ◌≡◌, ◌≢◌, refl, true, false, List, [], ◌∷◌, arith}
use bmhero_arena.Lobby.Proto.{LobbyEndpoint, LobbyMsg, Punch, punch, punch_ack}
use bmhero_arena.Lobby.Proto.Wire.{done, >>=-eq-done}
use bmhero_arena.Lobby.Proto.Pack.{pack}
use bmhero_arena.Lobby.Proto.Unpack.{unpack}
use bmhero_arena.Lobby.Proto.Bounds.{IsWire}
use bmhero_arena.Lobby.Proto.RoundTrip.{IsWhole, unpack-pack}
use bmhero_arena.Rendezvous.{Datagram}
use bmhero_arena.Arena.State.{arena_max_players}
use bmhero_arena.Client.{LobbyClient, set_peer}
use bmhero_arena.Client.Sends.{send_msg, send_punch_to, send_punch_report}
use bmhero_arena.Client.Receive.{receive_msg, on_punch, on_punch_ack}
use bmhero_arena.Client.Poll.{Arrival, hear}

-- A message whose fields fit is sent in one datagram, which is read back as the message.
pub send_msg-unpack :
    (to : LobbyEndpoint) (m : LobbyMsg)
    → IsWire m
    → IsWhole m
    → (bytes : List ℕ) × (send_msg to m ≡ record { to = to; bytes = bytes } ∷ [])
      × (unpack bytes ≡ done m)
unfolding send_msg
send_msg-unpack to m w h =
    let (bytes, p, u) = >>=-eq-done (pack m) unpack (unpack-pack m w h) in
    let one : send_msg to m ≡ record { to = to; bytes = bytes } ∷ [] = ground (arith, p) in
    (bytes, one, u)

pub hear_done :
    (lc : LobbyClient) (now : ℕ) (d : Arrival) (m : LobbyMsg)
    → unpack d.bytes ≡ done m
    → hear lc now d ≡ receive_msg lc now d.from m
unfolding hear
hear_done lc now d m e = rw (e, hear) refl

-- Client a knows of b, in the slot that b has in the same session, and waits for its answer.
pub record Probes (a b : LobbyClient) : Type 0 where
  pub same_session : a.session_id ≡ b.session_id
  pub has_session : 0 < b.session_id
  pub session_fits : b.session_id < 2 ^ 16
  pub slot_fits : a.local_slot < 256
  pub in_range : b.local_slot < arena_max_players
  pub other : b.local_slot ≢ a.local_slot
  pub present : (a.peer b.local_slot).present ≡ true
  pub has_nonce : 0 < (a.peer b.local_slot).nonce
  pub nonce_fits : (a.peer b.local_slot).nonce < 2 ^ 32
  pub waits : (a.peer b.local_slot).acked ≡ false

abbrev pub opened : LobbyClient → ℕ → LobbyEndpoint → ℕ → LobbyClient
opened a s from now =
    set_peer a s
      (record (a.peer s) { acked = true; chosen = from; reported = true; last_report_ms = now })

on_punch-answers :
    (a b : LobbyClient) (from : LobbyEndpoint)
    → Probes a b
    → on_punch b from (record {
      session_id = a.session_id;
      from_slot = a.local_slot;
      nonce = (a.peer b.local_slot).nonce;
    })
      ≡ (
        b,
        send_msg from (
            punch_ack (record {
              session_id = b.session_id;
              from_slot = b.local_slot;
              nonce = (a.peer b.local_slot).nonce;
            })),
      )
unfolding on_punch
on_punch-answers a b from p = ground arith

on_punch_ack-opens :
    (a b : LobbyClient) (now : ℕ) (from : LobbyEndpoint)
    → Probes a b
    → on_punch_ack a now from (record {
      session_id = b.session_id;
      from_slot = b.local_slot;
      nonce = (a.peer b.local_slot).nonce;
    })
      ≡ (opened a b.local_slot from now, send_punch_report a b.local_slot true)
unfolding on_punch_ack
on_punch_ack-opens a b now from p = ground arith

-- Where a probes b, the PUNCH that a sends is one datagram; b, hearing it from a source, answers to
-- that source with one datagram and is unchanged; and a, hearing the answer from a source, has the
-- hole open to this source and reports it to the server.
pub punch_opens :
    (a b : LobbyClient) (to from_a from_b : LobbyEndpoint) (now later : ℕ)
    → Probes a b
    → let s = b.local_slot in
      (x : Datagram) × (send_punch_to a s to ≡ x ∷ [])
      × (x.to ≡ to)
      × (y : Datagram) × (hear b now (record { from = from_a; bytes = x.bytes }) ≡ (b, y ∷ []))
      × (y.to ≡ from_a)
      × (hear a later (record { from = from_b; bytes = y.bytes })
          ≡ (opened a s from_b later, send_punch_report a s true))
unfolding send_punch_to receive_msg
punch_opens a b to from_a from_b now later p =
    let n = (a.peer b.local_slot).nonce in
    let m : Punch = record { session_id = a.session_id; from_slot = a.local_slot; nonce = n } in
    let r : Punch = record { session_id = b.session_id; from_slot = b.local_slot; nonce = n } in
    let (xs, sx, ux) = send_msg-unpack to (punch m) (omega (arith, p.same_session)) tt in
    let (ys, sy, uy) = send_msg-unpack from_a (punch_ack r) (omega arith) tt in
    (
      record { to = to; bytes = xs },
      sx,
      refl,
      record { to = from_a; bytes = ys },
      rw
          (
            hear_done b now (record { from = from_a; bytes = xs }) (punch m) ux,
            on_punch-answers a b from_a p,
            sy,
          )
          refl,
      refl,
      rw (hear_done a later (record { from = from_b; bytes = ys }) (punch_ack r) uy)
          (on_punch_ack-opens a b later from_b p),
    )
