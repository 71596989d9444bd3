-- ===== src/Client.antt =====
-- The client half of the lobby: src/netplay/lobby_client.h, and the helpers of lobby_client.c.
-- A function that sends through the socket returns the datagrams that it would send, in order; the
-- socket pointer is left out of the state. int8_t routes are optional, with `none` for -1, and
-- uint8_t flags are Booleans.
pub mod Receive
pub mod Poll
pub mod Rules
pub mod Stages
pub mod Deadline
pub mod Invariant
pub mod Ready
pub mod Punching
pub mod Routes
pub mod Joining
pub mod Tests
pub mod Begin
pub mod Sends
use Prim.Native.Char.{code}
use Prim.Native.String.{String}
use bmhero_arena.Common.{
  ℕ, ◌+◌, ◌*◌, Bool, true, false, not, ◌&&◌, ◌||◌, Option, none, some, List, [], ◌∷◌, ◌++◌, ltb,
  leb, ◌==◌, if◌then◌else◌, length, Array, update, all_below, sub_u32, u32, u8, ◌<<<◌, bit_xor,
  xorshift32,
}
use bmhero_arena.Lobby.Proto.{
  LobbyEndpoint, LobbyMsg, NetRoute, unrouted, direct, relayed, host_req, join_req, punch,
  punch_ack, punch_report, start, start_ack, keepalive, route_direct, rej_bad_session, rej_full,
  rej_version_mismatch, rej_expired,
}
use bmhero_arena.Lobby.Proto.Wire.{Outcome, done, refused, fault}
use bmhero_arena.Lobby.Proto.Pack.{pack}
use bmhero_arena.Rendezvous.{Datagram, no_ep}
use bmhero_arena.Arena.State.{arena_max_players}

abbrev pub lobby_retry_ms : ℕ
lobby_retry_ms = 500

abbrev pub lobby_retry_max : ℕ
lobby_retry_max = 10

abbrev pub lobby_punch_period_ms : ℕ
lobby_punch_period_ms = 250

abbrev pub lobby_punch_budget_ms : ℕ
lobby_punch_budget_ms = 3000

abbrev pub lobby_timeout_ms : ℕ
lobby_timeout_ms = 30000

abbrev pub lobby_keepalive_ms : ℕ
lobby_keepalive_ms = 10000

pub data Stage : Type 0 where
  idle registering joining waiting_peers punching awaiting_start ready failed : Stage

-- The number of a stage in the enum, by which the code compares stages.
abbrev pub stage_rank : Stage → ℕ
stage_rank idle = 0
stage_rank registering = 1
stage_rank joining = 2
stage_rank waiting_peers = 3
stage_rank punching = 4
stage_rank awaiting_start = 5
stage_rank ready = 6
stage_rank failed = 7

abbrev pub at_stage : Stage → Stage → Bool
at_stage s t = stage_rank s == stage_rank t

-- Between two stages of the enum, both included.
abbrev pub in_stages : Stage → Stage → Stage → Bool
in_stages lo hi s = leb (stage_rank lo) (stage_rank s) && leb (stage_rank s) (stage_rank hi)

-- LobbyResult
pub record LobbyResult : Type 0 where
  pub local_slot : ℕ
  pub num_players : ℕ
  pub arena_id : ℕ
  pub input_delay : ℕ
  pub session_id : ℕ
  pub seed : ℕ
  pub route : Array NetRoute
  pub server : LobbyEndpoint

pub record ClientPeer : Type 0 where
  pub present : Bool
  pub acked : Bool
  pub reported : Bool
  pub public_ep : LobbyEndpoint
  pub private_ep : LobbyEndpoint
  pub chosen : LobbyEndpoint
  pub nonce : ℕ
  pub punch_begin_ms : ℕ
  pub last_punch_ms : ℕ
  pub last_report_ms : ℕ
  pub route : Option ℕ
  pub punch_alt : Bool

pub record LobbyClient : Type 0 where
  pub stage : Stage
  pub is_host : Bool
  pub forced_relay : Bool
  pub server : LobbyEndpoint
  pub private_ep : LobbyEndpoint
  pub session_id : ℕ
  pub local_slot : ℕ
  pub num_players : ℕ
  pub net_ver : ℕ
  pub seed : ℕ
  pub arena_id : ℕ
  pub input_delay : ℕ
  pub begin_ms : ℕ
  pub last_send_ms : ℕ
  pub rng : ℕ
  pub retries : ℕ
  pub last_keepalive_ms : ℕ
  pub last_start_ms : ℕ
  pub start_seen : Bool
  pub host_start_sent : Bool
  pub route_known : Array (Array Bool)
  pub peer : Array ClientPeer
  pub result : LobbyResult
  pub code : List ℕ
  pub fail_stage : List ℕ

-- The client, and what it has sent.
abbrev pub Sent : Type 0
Sent = LobbyClient × List Datagram

-- lc->peer[i] = p
abbrev pub set_peer : LobbyClient → ℕ → ClientPeer → LobbyClient
set_peer lc i p = record lc { peer = update lc.peer i p }

-- next_rng: the number, and the state.
abbrev pub next_rng : ℕ → ℕ
next_rng r = xorshift32 (if r == 0 then 1 else r)

-- The bytes of an ASCII text.
abbrev pub codes : String → List ℕ
codes String.[] = []
codes (String.◌∷◌ c s) = code c ∷ codes s

abbrev pub stage_name : Stage → List ℕ
stage_name registering = codes "REGISTERING"
stage_name joining = codes "JOINING"
stage_name waiting_peers = codes "WAITING_PEERS"
stage_name punching = codes "PUNCHING"
stage_name awaiting_start = codes "AWAITING_START"
stage_name ready = codes "READY"
stage_name failed = codes "FAILED"
stage_name idle = codes "IDLE"

abbrev pub fail_stage_size : ℕ
fail_stage_size = 24

-- A loop of set_fail_text, with what fail_stage holds so far.
unfoldable pub append_text : List ℕ → List ℕ → List ℕ
append_text out [] = out
append_text out (c ∷ cs) =
    if ltb (length out + 1) fail_stage_size then append_text (out ++ (c ∷ [])) cs else out

unfoldable pub set_fail_text : LobbyClient → List ℕ → List ℕ → LobbyClient
unfolding append_text
set_fail_text lc a b = record lc { fail_stage = append_text (append_text [] a) b }

unfoldable pub fail_here : LobbyClient → LobbyClient
unfolding set_fail_text
fail_here lc = record (set_fail_text lc (stage_name lc.stage) []) { stage = failed }

abbrev pub is_decided : Option ℕ → Bool
is_decided none = false
is_decided (some r) = true

unfoldable pub all_peers_present : LobbyClient → Bool
all_peers_present lc =
    not (lc.num_players == 0) && all_below lc.num_players (λ i. (lc.peer i).present)

unfoldable pub local_routes_decided : LobbyClient → Bool
local_routes_decided lc =
    not (lc.num_players == 0)
    && all_below lc.num_players (λ i. i == lc.local_slot || is_decided (lc.peer i).route)

-- The inner loop starts behind a.
unfoldable pub all_pairs_decided : LobbyClient → Bool
all_pairs_decided lc =
    not (ltb lc.num_players 2)
    && all_below lc.num_players λ a. all_below lc.num_players λ b. leb b a || lc.route_known a b

abbrev pub is_direct : Option ℕ → Bool
is_direct none = false
is_direct (some r) = r == route_direct

unfoldable pub fill_result : LobbyClient → LobbyClient
fill_result lc = record lc {
  result = record {
    local_slot = lc.local_slot;
    num_players = lc.num_players;
    arena_id = lc.arena_id;
    input_delay = lc.input_delay;
    session_id = lc.session_id;
    seed = lc.seed;
    server = lc.server;
    route = λ i.
        if leb arena_max_players i || i == lc.local_slot || leb lc.num_players i
        then record { kind = unrouted; ep = no_ep }
        else if is_direct (lc.peer i).route
        then record { kind = direct; ep = (lc.peer i).chosen }
        else record { kind = relayed; ep = no_ep };
  };
}

-- The clocks of every other player's hole start.
unfoldable pub enter_punching : LobbyClient → ℕ → LobbyClient
enter_punching lc now = record lc {
  stage = punching;
  peer = λ i.
      if ltb i lc.num_players && not (i == lc.local_slot)
      then record (lc.peer i) {
        punch_begin_ms = now;
        last_punch_ms = sub_u32 now lobby_punch_period_ms;
        last_report_ms = now;
      }
      else lc.peer i;
}

abbrev pub reject_name : ℕ → List ℕ
reject_name reason =
    if reason == rej_bad_session
    then codes "BAD_SESSION"
    else if reason == rej_full
    then codes "FULL"
    else if reason == rej_version_mismatch
    then codes "VERSION"
    else if reason == rej_expired
    then codes "EXPIRED"
    else codes "UNKNOWN"
