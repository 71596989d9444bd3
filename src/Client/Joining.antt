-- ===== src/Client/Joining.antt =====
-- The code that a host shows, and the client that joins by it.
use bmhero_arena.Common.{ℕ, ◌^◌, ◌<◌, ◌≡◌, refl, true, some, [], ◌∷◌, arith}
use bmhero_arena.Lobby.Proto.{LobbyEndpoint, IsEndpoint, join_req, host_resp}
use bmhero_arena.Lobby.Proto.Wire.{done}
use bmhero_arena.Lobby.Proto.Unpack.{unpack}
use bmhero_arena.Lobby.Code.{encode}
use bmhero_arena.Lobby.Code.RoundTrip.{decode-encode}
use bmhero_arena.Rendezvous.{Datagram}
use bmhero_arena.Client.{LobbyClient, at_stage, registering, joining, waiting_peers}
use bmhero_arena.Client.Sends.{send_join_req}
use bmhero_arena.Client.Receive.{receive_msg, on_host_resp}
use bmhero_arena.Client.Begin.{Machine, join_begin, client_init}
use bmhero_arena.Client.Punching.{send_msg-unpack}

-- A host that is REGISTERING and hears its HOST_RESP waits for its peers, and shows a code by which
-- another client begins: that one is JOINING the session of the response at the host's server, and
-- sends this server one datagram, the JOIN_REQ of the session.
pub join_begin-receive_msg :
    (host : LobbyClient) (from : LobbyEndpoint) (id : ℕ) (machine : Machine) (t now : ℕ)
    → at_stage host.stage registering ≡ true
    → 0 < id
    → id < 2 ^ 16
    → IsEndpoint host.server
    → machine.net_version < 2 ^ 32
    → IsEndpoint machine.local_ep
    → let waiting = (receive_msg host t from (host_resp id)).0 in
      (at_stage waiting.stage waiting_peers ≡ true)
      × (waiting.session_id ≡ id)
      × (lc : LobbyClient) × (x : Datagram) × (join_begin machine waiting.code now
          ≡ some (lc, x ∷ []))
      × (at_stage lc.stage joining ≡ true)
      × (lc.server ≡ host.server)
      × (lc.session_id ≡ id)
      × (x.to ≡ host.server)
      × (unpack x.bytes
          ≡ done (
              join_req (record {
                session_id = id;
                net_version = machine.net_version;
                private_ep = machine.local_ep;
              })))
unfolding receive_msg on_host_resp join_begin client_init send_join_req
join_begin-receive_msg host from id machine t now reg pos fits ep version local =
    let req = join_req (record {
      session_id = id;
      net_version = machine.net_version;
      private_ep = machine.local_ep;
    }) in
    let (bytes, sent, read) = send_msg-unpack host.server req (fits, version, local) tt in
    let code : (on_host_resp host id).code ≡ encode host.server id = ground arith in
    let lc : LobbyClient = record (client_init machine.port now) {
      server = host.server;
      session_id = id;
      net_ver = machine.net_version;
      private_ep = machine.local_ep;
      stage = joining;
      last_send_ms = now;
    } in
    (
      ground arith,
      ground arith,
      lc,
      record { to = host.server; bytes = bytes },
      rw (code, decode-encode host.server id ep fits, sent, join_begin) refl,
      refl,
      refl,
      refl,
      refl,
      read,
    )
