-- ===== src/Rendezvous.antt =====
-- The rendezvous server of src/lobby/rendezvous.h and .c: state, and the helpers that read it.
-- `emit` is a callback that only sends, so a handler returns the datagrams that it would emit, in
-- order. Times are uint32_t milliseconds. uint8_t flags are Booleans.
pub mod Handlers
pub mod Invariant
pub mod Sessions
pub mod Moves
pub mod Preserve
pub mod History
pub mod Tick
pub mod Expiry
pub mod Relay
pub mod Rate
pub mod Retry
pub mod Sending
pub mod Answers
pub mod Handshake
pub mod Tests
pub mod Ownership
use bmhero_arena.Common.{
  ℕ, zero, suc, ◌+◌, ◌*◌, ◌/◌, ◌%◌, ◌-◌, Bool, true, false, not, ◌&&◌, ◌||◌, Option, none, some,
  List, [], ◌∷◌, ◌++◌, ltb, leb, ◌==◌, if◌then◌else◌, Array, update, first_index, sub_u32, u32, u8,
}
use bmhero_arena.Lobby.Proto.{LobbyEndpoint, LobbyMsg, untyped, reject, peer_intro}
use bmhero_arena.Lobby.Proto.Wire.{Outcome, done, refused, fault}
use bmhero_arena.Lobby.Proto.Pack.{pack}

abbrev pub rv_max_sessions : ℕ
rv_max_sessions = 64

abbrev pub rv_max_players : ℕ
rv_max_players = 4

abbrev pub rv_rate_buckets : ℕ
rv_rate_buckets = 256

abbrev pub rv_rate_per_sec : ℕ
rv_rate_per_sec = 20

abbrev pub rv_rate_burst : ℕ
rv_rate_burst = 40

abbrev pub rv_lobby_expiry_ms : ℕ
rv_lobby_expiry_ms = 10 * 60 * 1000

abbrev pub rv_started_expiry_ms : ℕ
rv_started_expiry_ms = 30 * 1000

abbrev pub rv_relay_expiry_ms : ℕ
rv_relay_expiry_ms = 60 * 1000

abbrev pub rv_start_refan_ms : ℕ
rv_start_refan_ms = 500

-- RV_FREE, RV_LOBBY, RV_STARTING, RV_RUNNING
pub data Phase : Type 0 where
  free lobby starting running : Phase

pub record Peer : Type 0 where
  pub used : Bool
  pub start_acked : Bool
  pub public_ep : LobbyEndpoint
  pub private_ep : LobbyEndpoint
  pub last_seen_ms : ℕ

-- `punch a b` is a's verdict on the hole to b: `none` is -1, unseen.
pub record Session : Type 0 where
  pub id : ℕ
  pub phase : Phase
  pub num_players : ℕ
  pub joined : ℕ
  pub net_version : ℕ
  pub punch : Array (Array (Option Bool))
  pub route_sent : Array (Array Bool)
  pub route : Array (Array ℕ)
  pub peers : Array Peer
  pub start : LobbyMsg
  pub have_start : Bool
  pub last_activity_ms : ℕ
  pub started_ms : ℕ
  pub last_refan_ms : ℕ
  pub last_relay_ms : ℕ

pub record RateBucket : Type 0 where
  pub tokens_milli : ℕ
  pub last_ms : ℕ

pub record Rendezvous : Type 0 where
  pub sessions : Array Session
  pub rate : Array RateBucket
  pub rng : ℕ
  pub relay_forwards : ℕ

pub record Datagram : Type 0 where
  pub to : LobbyEndpoint
  pub bytes : List ℕ

abbrev pub Reply : Type 0
Reply = Rendezvous × List Datagram

-- ep_eq
abbrev pub ep_eq : LobbyEndpoint → LobbyEndpoint → Bool
ep_eq a b = a.ip == b.ip && a.port == b.port

abbrev pub is_free : Phase → Bool
is_free Phase.free = true
is_free _ = false

abbrev pub is_lobby : Phase → Bool
is_lobby Phase.lobby = true
is_lobby _ = false

abbrev pub is_starting : Phase → Bool
is_starting Phase.starting = true
is_starting _ = false

abbrev pub is_running : Phase → Bool
is_running Phase.running = true
is_running _ = false

-- The zeroed structs.
abbrev pub no_ep : LobbyEndpoint
no_ep = record { ip = 0; port = 0 }

abbrev pub no_peer : Peer
no_peer = record {
  used = false;
  start_acked = false;
  public_ep = no_ep;
  private_ep = no_ep;
  last_seen_ms = 0;
}

-- session_clear
abbrev pub cleared : Session
cleared = record {
  id = 0;
  phase = Phase.free;
  num_players = 0;
  joined = 0;
  net_version = 0;
  punch = λ a b. none;
  route_sent = λ a b. false;
  route = λ a b. 0;
  peers = λ i. no_peer;
  start = untyped 0;
  have_start = false;
  last_activity_ms = 0;
  started_ms = 0;
  last_refan_ms = 0;
  last_relay_ms = 0;
}

-- emit_msg: `if (n) emit(...)`. A message that lobby_pack refuses is not sent.
unfoldable pub emit_msg : LobbyEndpoint → LobbyMsg → List Datagram
emit_msg to m = elim (pack m) [
  | done bytes ↦ record { to = to; bytes = bytes } ∷ []
  | refused ↦ []
  | fault ↦ []
]

unfoldable pub emit_reject : LobbyEndpoint → ℕ → List Datagram
emit_reject to reason = emit_msg to (reject reason)

-- find_session: an index for the pointer, `none` for NULL.
unfoldable pub find_session : Array Session → ℕ → Option ℕ
find_session ss id =
    if id == 0
    then none
    else first_index rv_max_sessions (λ i. not (is_free (ss i).phase) && (ss i).id == id)

-- peer_of: the slot that owns this source address; `none` is -1.
unfoldable pub peer_of : Session → LobbyEndpoint → Option ℕ
peer_of s from =
    first_index rv_max_players (λ i. (s.peers i).used && ep_eq (s.peers i).public_ep from)

-- rate_take on one bucket: whether a token was taken, and the bucket.
unfoldable pub take_token : RateBucket → ℕ → RateBucket × Bool
take_token b now =
    let cap = rv_rate_burst * 1000 in
    let dt = sub_u32 now b.last_ms in
    let refilled =
      if ltb (cap / rv_rate_per_sec) dt
      then cap
      else (let t = u32 (b.tokens_milli + dt * rv_rate_per_sec) in if ltb cap t then cap else t) in
    if ltb refilled 1000
    then (record { tokens_milli = refilled; last_ms = now }, false)
    else (record { tokens_milli = refilled - 1000; last_ms = now }, true)

unfoldable pub rate_take : Rendezvous → ℕ → ℕ → Rendezvous × Bool
rate_take rv now ip =
    let k = ip % rv_rate_buckets in
    let (b, granted) = take_token (rv.rate k) now in
    (record rv { rate = update rv.rate k b }, granted)

-- for (i = 0; i < RV_MAX_PLAYERS; i++), collecting what each round emits.
abbrev pub for_players : (ℕ → List Datagram) → List Datagram
for_players f = f 0 ++ f 1 ++ f 2 ++ f 3

abbrev pub intro_of : Session → ℕ → LobbyMsg
intro_of s i =
    peer_intro (record {
      slot = u8 i;
      public_ep = (s.peers i).public_ep;
      private_ep = (s.peers i).private_ep;
    })

-- fan_peer_intro: the newcomer to each incumbent, and each incumbent to the newcomer.
unfoldable pub fan_peer_intro : Session → ℕ → List Datagram
fan_peer_intro s newcomer = for_players λ i.
    if i == newcomer || not (s.peers i).used
    then []
    else emit_msg (s.peers i).public_ep (intro_of s newcomer)
      ++ emit_msg (s.peers newcomer).public_ep (intro_of s i)

-- resend_intros_to: every other member, to one peer only.
unfoldable pub resend_intros_to : Session → ℕ → List Datagram
resend_intros_to s who = for_players λ i.
    if i == who || not (s.peers i).used then [] else emit_msg (s.peers who).public_ep (intro_of s i)

unfoldable pub fan_start : Session → Bool → List Datagram
fan_start s only_unacked =
    if s.have_start
    then for_players (λ i.
      if not (s.peers i).used
      then []
      else if only_unacked && (s.peers i).start_acked
      then []
      else emit_msg (s.peers i).public_ep s.start)
    else []

-- rv_active_sessions: the sessions from index i on that are not free, `left` of them to look at.
unfoldable pub count_active : ℕ → ℕ → Array Session → ℕ
count_active zero i ss = 0
count_active (suc left) i ss =
    (if is_free (ss i).phase then 0 else 1) + count_active left (i + 1) ss

unfoldable pub active_sessions : Rendezvous → ℕ
unfolding count_active
active_sessions rv = count_active rv_max_sessions 0 rv.sessions
