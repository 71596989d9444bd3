-- ===== src/Client/Receive.antt =====
-- handle_msg of src/netplay/lobby_client.c, one function for each case of its switch.
use bmhero_arena.Common.{
  ℕ, Bool, true, not, ◌&&◌, ◌||◌, none, some, [], ltb, leb, ◌==◌, if◌then◌else◌, Array, update,
  sub_u32,
}
use bmhero_arena.Lobby.Proto.{
  LobbyEndpoint, JoinResp, PeerIntro, Punch, PairRoute, Start, LobbyMsg, host_resp, join_resp,
  reject, peer_intro, punch, punch_ack, pair_route, start, route_relay,
}
use bmhero_arena.Lobby.Code.{encode}
use bmhero_arena.Arena.State.{arena_max_players}
use bmhero_arena.Client.{
  lobby_punch_period_ms, registering, joining, waiting_peers, awaiting_start, failed, at_stage,
  in_stages, LobbyClient, Sent, set_peer, next_rng, codes, set_fail_text, reject_name,
}
use bmhero_arena.Client.Sends.{send_msg, send_punch_report, send_start_ack}

unfoldable pub on_host_resp : LobbyClient → ℕ → LobbyClient
on_host_resp lc id =
    if not (at_stage lc.stage registering) || id == 0
    then lc
    else record (set_peer lc 0 (record (lc.peer 0) { present = true })) {
      session_id = id;
      code = encode lc.server id;
      local_slot = 0;
      retries = 0;
      stage = waiting_peers;
    }

unfoldable pub on_join_resp : LobbyClient → JoinResp → LobbyClient
on_join_resp lc m =
    if not (at_stage lc.stage joining)
    then lc
    else if leb arena_max_players m.slot
    then lc
    else if ltb m.num_players 2 || ltb arena_max_players m.num_players
    then lc
    else record (set_peer lc m.slot (record (lc.peer m.slot) { present = true })) {
      local_slot = m.slot;
      num_players = m.num_players;
      retries = 0;
      stage = waiting_peers;
    }

unfoldable pub on_reject : LobbyClient → ℕ → LobbyClient
unfolding set_fail_text
on_reject lc reason =
    if not (at_stage lc.stage joining) && not (at_stage lc.stage registering)
    then lc
    else record (set_fail_text lc (codes "REJECTED:") (reject_name reason)) { stage = failed }

-- A peer that is already present gets the endpoints only.
unfoldable pub on_peer_intro : LobbyClient → ℕ → PeerIntro → LobbyClient
on_peer_intro lc now m =
    if not (in_stages registering awaiting_start lc.stage)
    then lc
    else if leb arena_max_players m.slot || m.slot == lc.local_slot
    then lc
    else (let p = record (lc.peer m.slot) { public_ep = m.public_ep; private_ep = m.private_ep } in
        if p.present
        then set_peer lc m.slot p
        else record (set_peer lc m.slot (record p {
          present = true;
          route = none;
          nonce = next_rng lc.rng;
          punch_begin_ms = now;
          last_punch_ms = sub_u32 now lobby_punch_period_ms;
        })) { rng = next_rng lc.rng })

-- The answer goes to the source of the punch.
unfoldable pub on_punch : LobbyClient → LobbyEndpoint → Punch → Sent
on_punch lc from m =
    if not (m.session_id == lc.session_id) || lc.session_id == 0 then (lc, []) else (
      lc,
      send_msg from (
          punch_ack
            (record { session_id = lc.session_id; from_slot = lc.local_slot; nonce = m.nonce })),
    )

unfoldable pub on_punch_ack : LobbyClient → ℕ → LobbyEndpoint → Punch → Sent
on_punch_ack lc now from m =
    let s = m.from_slot in
    if not (m.session_id == lc.session_id) || lc.session_id == 0
    then (lc, [])
    else if leb arena_max_players s || s == lc.local_slot
    then (lc, [])
    else if not (lc.peer s).present || (lc.peer s).nonce == 0
    then (lc, [])
    else if not (m.nonce == (lc.peer s).nonce)
    then (lc, [])
    else if (lc.peer s).acked
    then (lc, [])
    else (
      set_peer lc s (record (lc.peer s) {
        acked = true;
        chosen = from;
        reported = true;
        last_report_ms = now;
      }),
      send_punch_report lc s true,
    )

-- m[a][b] = m[b][a] = 1
abbrev pub mark_pair : Array (Array Bool) → ℕ → ℕ → Array (Array Bool)
mark_pair m a b = let n = update m b (update (m b) a true) in update n a (update (n a) b true)

unfoldable pub on_pair_route : LobbyClient → PairRoute → LobbyClient
on_pair_route lc m =
    let a = m.slot_a in
    let b = m.slot_b in
    if leb arena_max_players a || leb arena_max_players b || a == b
    then lc
    else if ltb route_relay m.route
    then lc
    else (let known = record lc { route_known = mark_pair lc.route_known a b } in
        let first =
          if a == lc.local_slot
          then set_peer known b (record (known.peer b) { route = some m.route })
          else known in
        if b == lc.local_slot
        then set_peer first a (record (first.peer a) { route = some m.route })
        else first)

-- The server echoes the host's own START.
abbrev pub same_start : LobbyClient → Start → Bool
same_start lc m =
    m.seed == lc.seed
    && m.arena_id == lc.arena_id
    && m.num_players == lc.num_players
    && m.input_delay == lc.input_delay

unfoldable pub on_start : LobbyClient → Start → Sent
unfolding set_fail_text
on_start lc m =
    if not (in_stages waiting_peers awaiting_start lc.stage)
    then (lc, [])
    else if lc.is_host
    then (if not (same_start lc m)
        then (record (set_fail_text lc (codes "START_ECHO") []) { stage = failed }, [])
        else (record lc { start_seen = true }, send_start_ack lc))
    else if ltb m.num_players 2 || ltb arena_max_players m.num_players
    then (lc, [])
    else (
      record lc {
        seed = m.seed;
        arena_id = m.arena_id;
        num_players = m.num_players;
        input_delay = m.input_delay;
        start_seen = true;
      },
      send_start_ack lc,
    )

-- handle_msg
unfoldable pub receive_msg : LobbyClient → ℕ → LobbyEndpoint → LobbyMsg → Sent
receive_msg lc now from (host_resp id) = (on_host_resp lc id, [])
receive_msg lc now from (join_resp m) = (on_join_resp lc m, [])
receive_msg lc now from (reject r) = (on_reject lc r, [])
receive_msg lc now from (peer_intro m) = (on_peer_intro lc now m, [])
receive_msg lc now from (punch m) = on_punch lc from m
receive_msg lc now from (punch_ack m) = on_punch_ack lc now from m
receive_msg lc now from (pair_route m) = (on_pair_route lc m, [])
receive_msg lc now from (start m) = on_start lc m
receive_msg lc now from m = (lc, [])
