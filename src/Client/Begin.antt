-- ===== src/Client/Begin.antt =====
-- How a client of src/netplay/lobby_client.c begins: client_init, lobby_host_begin, lobby_join_begin;
-- lobby_set_forced_relay and lobby_result.
use bmhero_arena.Common.{
  ℕ, ◌*◌, true, false, ◌||◌, Option, none, some, List, [], ltb, ◌==◌, if◌then◌else◌, u32, ◌<<<◌,
  bit_xor,
}
use bmhero_arena.Lobby.Proto.{LobbyEndpoint, unrouted}
use bmhero_arena.Lobby.Code.{decode}
use bmhero_arena.Rendezvous.{no_ep}
use bmhero_arena.Arena.State.{arena_max_players}
use bmhero_arena.Client.{
  idle, registering, joining, ready, at_stage, LobbyResult, ClientPeer, LobbyClient, Sent,
}
use bmhero_arena.Client.Sends.{send_host_req, send_join_req}

abbrev pub new_peer : ClientPeer
new_peer = record {
  present = false;
  acked = false;
  reported = false;
  public_ep = no_ep;
  private_ep = no_ep;
  chosen = no_ep;
  nonce = 0;
  punch_begin_ms = 0;
  last_punch_ms = 0;
  last_report_ms = 0;
  route = none;
  punch_alt = false;
}

abbrev pub no_result : LobbyResult
no_result = record {
  local_slot = 0;
  num_players = 0;
  arena_id = 0;
  input_delay = 0;
  session_id = 0;
  seed = 0;
  route = λ i. record { kind = unrouted; ep = no_ep };
  server = no_ep;
}

-- client_init's draw of the random state, from the clock and the port that is bound.
unfoldable pub seed_rng : ℕ → ℕ → ℕ
seed_rng now port =
    let r = bit_xor (bit_xor (u32 (now * 2654435761)) (u32 (port <<< 13))) 0x9E3779B9 in
    if r == 0 then 1 else r

-- client_init, at the port that udp_bound_port gives.
unfoldable pub client_init : ℕ → ℕ → LobbyClient
client_init port now = record {
  stage = idle;
  is_host = false;
  forced_relay = false;
  server = no_ep;
  private_ep = no_ep;
  session_id = 0;
  local_slot = 0;
  num_players = 0;
  net_ver = 0;
  seed = 0;
  arena_id = 0;
  input_delay = 0;
  begin_ms = now;
  last_send_ms = 0;
  rng = seed_rng now port;
  retries = 0;
  last_keepalive_ms = 0;
  last_start_ms = 0;
  start_seen = false;
  host_start_sent = false;
  route_known = λ a b. false;
  peer = λ i. new_peer;
  result = no_result;
  code = [];
  fail_stage = [];
}

-- What the machine gives to a client that begins: the bound port, the private endpoint that
-- udp_local_endpoint_for leaves, and the version of the game.
pub record Machine : Type 0 where
  pub port : ℕ
  pub local_ep : LobbyEndpoint
  pub net_version : ℕ

-- lobby_host_begin: `none` is -1.
unfoldable pub host_begin : Machine → LobbyEndpoint → ℕ → ℕ → ℕ → ℕ → ℕ → Option Sent
host_begin machine server num_players seed arena_id input_delay now =
    if ltb num_players 2 || ltb arena_max_players num_players
    then none
    else (let lc = record (client_init machine.port now) {
      is_host = true;
      server = server;
      num_players = num_players;
      seed = seed;
      arena_id = arena_id;
      input_delay = input_delay;
      net_ver = machine.net_version;
      private_ep = machine.local_ep;
      stage = registering;
      last_send_ms = now;
    } in
        some (lc, send_host_req lc))

-- lobby_join_begin: `none` is -1.
unfoldable pub join_begin : Machine → List ℕ → ℕ → Option Sent
join_begin machine text now = elim (decode text) [
  | none ↦ none
  | some (server, sid) ↦
      let lc = record (client_init machine.port now) {
        server = server;
        session_id = sid;
        net_ver = machine.net_version;
        private_ep = machine.local_ep;
        stage = joining;
        last_send_ms = now;
      } in
      some (lc, send_join_req lc)
]

abbrev pub set_forced_relay : LobbyClient → LobbyClient
set_forced_relay lc = record lc { forced_relay = true }

-- lobby_result: `none` is NULL.
unfoldable pub result_of : LobbyClient → Option LobbyResult
result_of lc = if at_stage lc.stage ready then some lc.result else none
