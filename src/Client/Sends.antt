-- ===== src/Client/Sends.antt =====
-- The messages that src/netplay/lobby_client.c sends.
use bmhero_arena.Common.{ℕ, Bool, List, [], ◌∷◌, ltb, if◌then◌else◌}
use bmhero_arena.Lobby.Proto.{
  LobbyEndpoint, LobbyMsg, host_req, join_req, punch, punch_report, start, start_ack, keepalive,
}
use bmhero_arena.Lobby.Proto.Wire.{done, refused, fault}
use bmhero_arena.Lobby.Proto.Pack.{pack}
use bmhero_arena.Rendezvous.{Datagram}
use bmhero_arena.Client.{LobbyClient}

-- send_msg: a message that lobby_pack refuses is not sent.
unfoldable pub send_msg : LobbyEndpoint → LobbyMsg → List Datagram
send_msg to m = elim (pack m) [
  | done bytes ↦ record { to = to; bytes = bytes } ∷ []
  | refused ↦ []
  | fault ↦ []
]

unfoldable pub send_host_req : LobbyClient → List Datagram
send_host_req lc = send_msg lc.server (
    host_req (record {
      net_version = lc.net_ver;
      num_players = lc.num_players;
      private_ep = lc.private_ep;
    }))

unfoldable pub send_join_req : LobbyClient → List Datagram
send_join_req lc = send_msg lc.server (
    join_req
      (record { session_id = lc.session_id; net_version = lc.net_ver; private_ep = lc.private_ep }))

unfoldable pub send_punch_to : LobbyClient → ℕ → LobbyEndpoint → List Datagram
send_punch_to lc slot to = send_msg to (
    punch (record {
      session_id = lc.session_id;
      from_slot = lc.local_slot;
      nonce = (lc.peer slot).nonce;
    }))

unfoldable pub send_punch_report : LobbyClient → ℕ → Bool → List Datagram
send_punch_report lc other ok = send_msg lc.server (
    punch_report (record {
      session_id = lc.session_id;
      slot_a = if ltb lc.local_slot other then lc.local_slot else other;
      slot_b = if ltb lc.local_slot other then other else lc.local_slot;
      ok = if ok then 1 else 0;
    }))

unfoldable pub send_start_ack : LobbyClient → List Datagram
send_start_ack lc =
    send_msg lc.server (start_ack (record { session_id = lc.session_id; slot = lc.local_slot }))

unfoldable pub send_start : LobbyClient → List Datagram
send_start lc = send_msg lc.server (
    start (record {
      seed = lc.seed;
      arena_id = lc.arena_id;
      num_players = lc.num_players;
      input_delay = lc.input_delay;
    }))

unfoldable pub send_keepalive : LobbyClient → List Datagram
send_keepalive lc =
    send_msg lc.server (keepalive (record { session_id = lc.session_id; slot = lc.local_slot }))
