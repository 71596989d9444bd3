-- ===== src/Client/Tests.antt =====
-- Runs of the client of src/netplay/lobby_client.c.
use bmhero_arena.Common.{
  ℕ, ◌<◌, ◌≤◌, ◌≡◌, refl, false, true, some, List, [], ◌∷◌, arith, All, all_below,
}
use bmhero_arena.Lobby.Proto.{LobbyEndpoint, HostReq, join_req, host_resp}
use bmhero_arena.Lobby.Proto.Wire.{done}
use bmhero_arena.Lobby.Proto.Unpack.{
  unpack, unpack_host_resp, unpack_peer_intro, unpack_pair_route, unpack_start,
}
use bmhero_arena.Rendezvous.{Datagram, Session}
use bmhero_arena.Rendezvous.Handlers.{hosted, reported, arbitrate}
use bmhero_arena.Rendezvous.Invariant.{IsLive}
use bmhero_arena.Rendezvous.Sessions.{hosted-IsLive, reported-IsLive}
use bmhero_arena.Client.{
  all_peers_present, all_pairs_decided, local_routes_decided, enter_punching, LobbyClient,
  registering, ready, failed, at_stage, stage_rank, stage_name, set_peer, waiting_peers, joining,
}
use bmhero_arena.Client.Sends.{send_host_req, send_punch_to, send_punch_report}
use bmhero_arena.Client.Receive.{receive_msg, on_host_resp, on_peer_intro, on_pair_route, on_start}
use bmhero_arena.Client.Poll.{
  Arrival, hear, drain, drain_max, poll, poll_duties, waiting_duty, punch_slots, punch_slot,
  host_duty, settle_routes, keepalive_duty,
}
use bmhero_arena.Client.Begin.{Machine, host_begin, client_init, join_begin}
use bmhero_arena.Client.Stages.{Moves, poll-Moves}
use bmhero_arena.Client.Deadline.{polls, polls_deadline}
use bmhero_arena.Client.Invariant.{IsClient, Begun, hosts, polls-IsClient}
use bmhero_arena.Client.Ready.{IsReady, polls-IsReady}
use bmhero_arena.Client.Punching.{Probes, opened, punch_opens}
use bmhero_arena.Client.Routes.{Agree, arbitrate-Agree}
use bmhero_arena.Client.Joining.{join_begin-receive_msg}

abbrev server_ep : LobbyEndpoint
server_ep = record { ip = 0x0A000001; port = 40064 }

abbrev home_ep : LobbyEndpoint
home_ep = record { ip = 0xC0A80002; port = 5000 }

abbrev machine : Machine
machine = record { port = 5000; local_ep = home_ep; net_version = 9 }

-- A host for two players, as lobby_host_begin leaves it.
abbrev host : LobbyClient
host = record (client_init 5000 100) {
  is_host = true;
  server = server_ep;
  num_players = 2;
  seed = 5;
  arena_id = 0;
  input_delay = 2;
  net_ver = 9;
  private_ep = home_ep;
  stage = registering;
  last_send_ms = 100;
}

host-Begun : Begun host
unfolding host_begin client_init
host-Begun = hosts machine server_ep 2 5 0 2 100 (send_host_req host) refl

abbrev header : ℕ → List ℕ → List ℕ
header t body = 0x56 ∷ 0x52 ∷ 0x33 ∷ 0x41 ∷ 1 ∷ t ∷ body

abbrev from_server : List ℕ → Arrival
from_server bytes = record { from = server_ep; bytes = bytes }

-- HOST_RESP of session 7, and PEER_INTRO of slot 1.
abbrev first_inbox : List Arrival
first_inbox =
    from_server (header 2 (7 ∷ 0 ∷ []))
    ∷ from_server (header 6 (1 ∷ 9 ∷ 0 ∷ 0 ∷ 10 ∷ 136 ∷ 19 ∷ 9 ∷ 0 ∷ 0 ∷ 10 ∷ 136 ∷ 19 ∷ []))
    ∷ []

-- PAIR_ROUTE of slots 0 and 1 through the relay, and the echo of the START.
abbrev second_inbox : List Arrival
second_inbox =
    from_server (header 10 (0 ∷ 1 ∷ 1 ∷ []))
    ∷ from_server (header 13 (5 ∷ 0 ∷ 0 ∷ 0 ∷ 0 ∷ 2 ∷ 2 ∷ []))
    ∷ []

abbrev to_ready : List (ℕ × List Arrival)
to_ready = (200, first_inbox) ∷ (300, second_inbox) ∷ []

host_ready : at_stage (polls host to_ready).stage ready ≡ true
unfolding poll drain hear unpack unpack_host_resp unpack_peer_intro unpack_pair_route unpack_start
    receive_msg on_host_resp on_peer_intro on_pair_route on_start poll_duties waiting_duty
    enter_punching punch_slots punch_slot all_peers_present host_duty settle_routes keepalive_duty
    client_init all_pairs_decided local_routes_decided all_below
host_ready = refl

poll-Moves_example : Moves host.stage (poll host 200 first_inbox).0.stage
poll-Moves_example = poll-Moves host 200 first_inbox

-- One poll, in which nothing has come.
abbrev waiting : List (ℕ × List Arrival)
waiting = (100, []) ∷ []

polls_deadline_example :
    (6 ≤ stage_rank (poll (polls host waiting) 40000 []).0.stage)
    × (stage_rank (polls host waiting).stage < 6
        → (at_stage (poll (polls host waiting) 40000 []).0.stage failed ≡ true)
          × (at_stage (drain drain_max 40000 (polls host waiting) []).0.stage failed ≡ false
              → (poll (polls host waiting) 40000 []).0.fail_stage
                ≡ stage_name (drain drain_max 40000 (polls host waiting) []).0.stage))
unfolding client_init
polls_deadline_example = polls_deadline host waiting 40000 [] (omega arith) (omega arith)

polls-IsClient_example : IsClient (polls host to_ready)
polls-IsClient_example = polls-IsClient host to_ready host-Begun

polls-IsReady_example : IsReady (polls host to_ready)
polls-IsReady_example = polls-IsReady host to_ready host-Begun host_ready

-- Two clients of session 7, at slots 0 and 1.
abbrev near : LobbyClient
near = record (set_peer host 1 (record (host.peer 1) { present = true; nonce = 77 })) {
  session_id = 7;
}

abbrev far : LobbyClient
far = record (client_init 5001 100) { session_id = 7; local_slot = 1; num_players = 2 }

near-Probes : Probes near far
unfolding client_init
near-Probes = record {
  same_session = refl;
  has_session = omega arith;
  session_fits = omega arith;
  slot_fits = omega arith;
  in_range = omega arith;
  other = omega arith;
  present = refl;
  has_nonce = omega arith;
  nonce_fits = omega arith;
  waits = refl;
}

punch_opens_example :
    (x : Datagram) × (send_punch_to near 1 home_ep ≡ x ∷ [])
    × (x.to ≡ home_ep)
    × (y : Datagram) × (hear far 110 (record { from = server_ep; bytes = x.bytes }) ≡ (far, y ∷ []))
    × (y.to ≡ server_ep)
    × (hear near 120 (record { from = home_ep; bytes = y.bytes })
        ≡ (opened near 1 home_ep 120, send_punch_report near 1 true))
punch_opens_example = punch_opens near far home_ep server_ep home_ep 110 120 near-Probes

abbrev request : HostReq
request = record { net_version = 9; num_players = 2; private_ep = home_ep }

abbrev hosted_session : Session
hosted_session = hosted 7 0 home_ep request

-- The session of the two on the server, with a report of each.
abbrev reported_session : Session
reported_session = reported (reported hosted_session 0 1 20 true) 1 0 25 true

reported_session-IsLive : IsLive reported_session
reported_session-IsLive =
    reported-IsLive (reported hosted_session 0 1 20 true)
      (reported-IsLive hosted_session
        (hosted-IsLive 7 0 home_ep request (omega arith) (omega arith)) 0 1 20 true)
      1 0 25 true

arbitrate-Agree_example :
    let (s', out) = arbitrate reported_session 130 server_ep 0 1 in
    All (Agree near far (s'.route 0 1)) out
unfolding client_init
arbitrate-Agree_example =
    arbitrate-Agree reported_session 130 server_ep near far (omega arith) (omega arith)
      reported_session-IsLive

join_begin-receive_msg_example :
    let waiting = (receive_msg host 200 server_ep (host_resp 7)).0 in
    (at_stage waiting.stage waiting_peers ≡ true)
    × (waiting.session_id ≡ 7)
    × (lc : LobbyClient) × (x : Datagram) × (join_begin machine waiting.code 300
        ≡ some (lc, x ∷ []))
    × (at_stage lc.stage joining ≡ true)
    × (lc.server ≡ server_ep)
    × (lc.session_id ≡ 7)
    × (x.to ≡ server_ep)
    × (unpack x.bytes
        ≡ done (join_req (record { session_id = 7; net_version = 9; private_ep = home_ep })))
unfolding client_init
join_begin-receive_msg_example =
    join_begin-receive_msg host server_ep 7 machine 200 300 refl (omega arith) (omega arith)
      (omega arith) (omega arith) (omega arith)
