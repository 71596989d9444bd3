-- ===== src/Client/Poll.antt =====
-- lobby_poll and lobby_post_poll of src/netplay/lobby_client.c. The pointers are not null.
use bmhero_arena.Common.{
  ℕ, zero, suc, ◌+◌, Bool, true, false, not, ◌&&◌, ◌||◌, List, [], ◌∷◌, ◌++◌, ltb, leb, ◌==◌,
  if◌then◌else◌, sub_u32, u8,
}
use bmhero_arena.Lobby.Proto.{LobbyEndpoint, LobbyMsg, punch, punch_ack, start}
use bmhero_arena.Lobby.Proto.Wire.{done, refused, fault}
use bmhero_arena.Lobby.Proto.Unpack.{unpack}
use bmhero_arena.Rendezvous.{Datagram}
use bmhero_arena.Client.{
  lobby_retry_ms, lobby_retry_max, lobby_punch_period_ms, lobby_punch_budget_ms, lobby_timeout_ms,
  lobby_keepalive_ms, Stage, idle, registering, joining, waiting_peers, punching, awaiting_start,
  ready, failed, stage_rank, at_stage, in_stages, ClientPeer, LobbyClient, Sent, set_peer,
  fail_here, all_peers_present, local_routes_decided, all_pairs_decided, fill_result,
  enter_punching, is_decided,
}
use bmhero_arena.Client.Sends.{
  send_msg, send_host_req, send_join_req, send_punch_to, send_punch_report, send_start_ack,
  send_start, send_keepalive,
}
use bmhero_arena.Client.Receive.{receive_msg}

-- What udp_recv gives: a datagram and its source. One without bytes stands for its 0 or -1.
pub record Arrival : Type 0 where
  pub from : LobbyEndpoint
  pub bytes : List ℕ

-- A datagram that lobby_unpack refuses is skipped.
unfoldable pub hear : LobbyClient → ℕ → Arrival → Sent
hear lc now d = elim (unpack d.bytes) [
  | done m ↦ receive_msg lc now d.from m
  | refused ↦ (lc, [])
  | fault ↦ (lc, [])
]

abbrev pub is_empty : List ℕ → Bool
is_empty [] = true
is_empty (b ∷ bs) = false

-- The loop that drains the socket, with the rounds that are left; what stays in the socket is the
-- last part of the result. It stops at once on a failure.
unfoldable pub drain :
    ℕ → ℕ → LobbyClient → List Arrival → LobbyClient × List Datagram × List Arrival
drain zero now lc inbox = (lc, [], inbox)
drain (suc n) now lc [] = (lc, [], [])
drain (suc n) now lc (d ∷ inbox) =
    let (lc', out) = hear lc now d in
    let (lc'', more, rest) = drain n now lc' inbox in
    if is_empty d.bytes
    then (lc, [], inbox)
    else if at_stage lc'.stage failed
    then (lc', out, inbox)
    else (lc'', out ++ more, rest)

-- The REGISTERING and JOINING cases: the request again, ten times at most.
unfoldable pub retry_duty : LobbyClient → ℕ → Sent
retry_duty lc now =
    if leb lobby_retry_ms (sub_u32 now lc.last_send_ms)
    then (let t = record lc { last_send_ms = now; retries = u8 (lc.retries + 1) } in
        if ltb lobby_retry_max t.retries
        then (fail_here t, [])
        else if at_stage t.stage registering
        then (t, send_host_req t)
        else (t, send_join_req t))
    else (lc, [])

unfoldable pub waiting_duty : LobbyClient → ℕ → Sent
waiting_duty lc now =
    if all_peers_present lc
    then (enter_punching lc now, [])
    else if leb lobby_retry_ms (sub_u32 now lc.last_send_ms)
    then (let t = record lc { last_send_ms = now } in
        (t, if t.is_host then send_host_req t else send_join_req t))
    else (lc, [])

-- The endpoint that is probed next: the private and the public one in turn, the other if the port
-- of this one is 0.
abbrev pub probe : ClientPeer → LobbyEndpoint
probe p =
    let dest = if p.punch_alt then p.public_ep else p.private_ep in
    if dest.port == 0 then (if p.punch_alt then p.private_ep else p.public_ep) else dest

-- A report that is sent and noted.
abbrev pub report : LobbyClient → ℕ → ℕ → Bool → Sent
report lc i now ok = (
  set_peer lc i (record (lc.peer i) { reported = true; last_report_ms = now }),
  send_punch_report lc i ok,
)

-- The body of the PUNCHING loop.
unfoldable pub punch_slot : LobbyClient → ℕ → ℕ → Sent
punch_slot lc now i =
    let p = lc.peer i in
    if i == lc.local_slot
    then (lc, [])
    else if is_decided p.route
    then (lc, [])
    else if p.reported
    then (if leb lobby_retry_ms (sub_u32 now p.last_report_ms)
        then report lc i now p.acked
        else (lc, []))
    else if lc.forced_relay
    then report lc i now false
    else if ltb lobby_punch_budget_ms (sub_u32 now p.punch_begin_ms)
    then report lc i now false
    else if leb lobby_punch_period_ms (sub_u32 now p.last_punch_ms)
    then (let q = record p { punch_alt = not p.punch_alt } in
        if (probe p).port == 0
        then (set_peer lc i q, [])
        else (set_peer lc i (record q { last_punch_ms = now }), send_punch_to lc i (probe p)))
    else (lc, [])

-- for (int i = i0; i < i0 + n; i++)
unfoldable pub punch_slots : ℕ → ℕ → LobbyClient → ℕ → Sent
punch_slots zero i lc now = (lc, [])
punch_slots (suc n) i lc now =
    let (lc', out) = punch_slot lc now i in
    let (lc'', more) = punch_slots n (i + 1) lc' now in (lc'', out ++ more)

abbrev pub duty_at : Stage → LobbyClient → ℕ → Sent
duty_at registering lc now = retry_duty lc now
duty_at joining lc now = retry_duty lc now
duty_at waiting_peers lc now = waiting_duty lc now
duty_at punching lc now = punch_slots lc.num_players 0 lc now
duty_at _ lc now = (lc, [])

-- The host's START, once every pair has a route.
unfoldable pub host_duty : LobbyClient → ℕ → Sent
host_duty lc now =
    if lc.is_host
      && not (lc.session_id == 0)
      && not lc.start_seen
      && leb (stage_rank waiting_peers) (stage_rank lc.stage)
      && all_pairs_decided lc
    then (if not lc.host_start_sent || leb lobby_retry_ms (sub_u32 now lc.last_start_ms)
        then (let t = record lc { host_start_sent = true; last_start_ms = now } in
            (t, send_start t))
        else (lc, []))
    else (lc, [])

-- The local routes are in: READY with the START, AWAITING_START without.
unfoldable pub settle_routes : LobbyClient → LobbyClient
unfolding fill_result
settle_routes lc =
    if (at_stage lc.stage punching || at_stage lc.stage awaiting_start) && local_routes_decided lc
    then (if lc.start_seen
        then record (fill_result lc) { stage = ready }
        else record lc { stage = awaiting_start })
    else lc

unfoldable pub keepalive_duty : LobbyClient → ℕ → Sent
keepalive_duty lc now =
    if not (lc.session_id == 0) && in_stages waiting_peers awaiting_start lc.stage
    then (if lc.last_keepalive_ms == 0
        then (record lc { last_keepalive_ms = now }, [])
        else if leb lobby_keepalive_ms (sub_u32 now lc.last_keepalive_ms)
        then (let t = record lc { last_keepalive_ms = now } in (t, send_keepalive t))
        else (lc, []))
    else (lc, [])

-- lobby_poll from the deadline on.
unfoldable pub poll_duties : LobbyClient → ℕ → Sent
poll_duties lc now =
    if ltb lobby_timeout_ms (sub_u32 now lc.begin_ms)
    then (fail_here lc, [])
    else (let (a, out1) = duty_at lc.stage lc now in
        if at_stage a.stage failed
        then (a, out1)
        else (let (b, out2) = host_duty a now in
            let (c, out3) = keepalive_duty (settle_routes b) now in (c, out1 ++ out2 ++ out3)))

abbrev pub is_over : Stage → Bool
is_over s = at_stage s ready || at_stage s failed || at_stage s idle

abbrev pub drain_max : ℕ
drain_max = 128

-- lobby_poll: the client, what it sends, and what it leaves in the socket. The stage that the code
-- returns is that of the client.
unfoldable pub poll : LobbyClient → ℕ → List Arrival → LobbyClient × List Datagram × List Arrival
poll lc now inbox =
    if is_over lc.stage
    then (lc, [], inbox)
    else (let (a, out, rest) = drain drain_max now lc inbox in
        if at_stage a.stage failed
        then (a, out, rest)
        else (let (b, more) = poll_duties a now in (b, out ++ more, rest)))

-- What lobby_post_poll sends for a message that was left in the adapter's ring.
unfoldable pub late_answer : LobbyClient → LobbyEndpoint → LobbyMsg → List Datagram
late_answer lc from (start m) = send_start_ack lc
late_answer lc from (punch m) =
    if m.session_id == lc.session_id
    then send_msg from (
        punch_ack
          (record { session_id = lc.session_id; from_slot = lc.local_slot; nonce = m.nonce }))
    else []
late_answer lc from m = []

-- The loop of lobby_post_poll over the packets that the adapter's ring gives.
unfoldable pub answer_all : LobbyClient → List Arrival → List Datagram
answer_all lc [] = []
answer_all lc (d ∷ packets) =
    elim (unpack d.bytes) [ done m ↦ late_answer lc d.from m | refused ↦ [] | fault ↦ [] ]
    ++ answer_all lc packets

unfoldable pub post_poll : LobbyClient → List Arrival → List Datagram
post_poll lc packets = if at_stage lc.stage ready then answer_all lc packets else []
