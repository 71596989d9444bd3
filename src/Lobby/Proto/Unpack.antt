-- ===== src/Lobby/Proto/Unpack.antt =====
-- lobby_unpack of src/lobby/lobby_proto.c. `buf` holds exactly the `len` bytes that were received.
use bmhero_arena.Common.{ℕ, ◌+◌, ◌-◌, not, ◌||◌, some, List, ltb, ◌==◌, if◌then◌else◌, length, drop}
use bmhero_arena.Lobby.Proto.{
  lobby_magic, lobby_proto_ver, lobby_hdr_size, lobby_max_payload, lobby_req_pad_size, HostReq,
  JoinReq, JoinResp, PeerIntro, Punch, PunchReport, PairRoute, Relay, Start, StartAck, LobbyMsg,
  host_req, host_resp, join_req, join_resp, reject, peer_intro, punch, punch_ack, punch_report,
  pair_route, relay, game, start, start_ack, keepalive,
}
use bmhero_arena.Lobby.Proto.Wire.{Outcome, done, refused, fault, ◌>>=◌, rd8, rd16, rd32, rd_ep}

-- One case of the switch each. Offsets are from the start of the packet: b + k is 6 + k.
unfoldable pub unpack_host_req : List ℕ → Outcome HostReq
unpack_host_req buf = if ltb (length buf) lobby_req_pad_size then refused else do
  v ← rd32 buf 6
  n ← rd8 buf 10
  e ← rd_ep buf 11
  done (record { net_version = v; num_players = n; private_ep = e })

unfoldable pub unpack_host_resp : List ℕ → Outcome ℕ
unpack_host_resp buf = if ltb (length buf - lobby_hdr_size) 2 then refused else rd16 buf 6

unfoldable pub unpack_join_req : List ℕ → Outcome JoinReq
unpack_join_req buf = if ltb (length buf) lobby_req_pad_size then refused else do
  s ← rd16 buf 6
  v ← rd32 buf 8
  e ← rd_ep buf 12
  done (record { session_id = s; net_version = v; private_ep = e })

unfoldable pub unpack_join_resp : List ℕ → Outcome JoinResp
unpack_join_resp buf =
    if ltb (length buf - lobby_hdr_size) 2
    then refused
    else do s ← rd8 buf 6; n ← rd8 buf 7; done (record { slot = s; num_players = n })

unfoldable pub unpack_reject : List ℕ → Outcome ℕ
unpack_reject buf = if ltb (length buf - lobby_hdr_size) 1 then refused else rd8 buf 6

unfoldable pub unpack_peer_intro : List ℕ → Outcome PeerIntro
unpack_peer_intro buf = if ltb (length buf - lobby_hdr_size) 13 then refused else do
  s ← rd8 buf 6
  e ← rd_ep buf 7
  f ← rd_ep buf 13
  done (record { slot = s; public_ep = e; private_ep = f })

unfoldable pub unpack_punch : List ℕ → Outcome Punch
unpack_punch buf = if ltb (length buf - lobby_hdr_size) 7 then refused else do
  s ← rd16 buf 6
  f ← rd8 buf 8
  n ← rd32 buf 9
  done (record { session_id = s; from_slot = f; nonce = n })

unfoldable pub unpack_punch_report : List ℕ → Outcome PunchReport
unpack_punch_report buf = if ltb (length buf - lobby_hdr_size) 5 then refused else do
  s ← rd16 buf 6
  a ← rd8 buf 8
  b ← rd8 buf 9
  k ← rd8 buf 10
  done (record { session_id = s; slot_a = a; slot_b = b; ok = k })

unfoldable pub unpack_pair_route : List ℕ → Outcome PairRoute
unpack_pair_route buf = if ltb (length buf - lobby_hdr_size) 3 then refused else do
  a ← rd8 buf 6
  b ← rd8 buf 7
  r ← rd8 buf 8
  done (record { slot_a = a; slot_b = b; route = r })

-- The payload pointer is b + 6.
unfoldable pub unpack_relay : List ℕ → Outcome Relay
unpack_relay buf =
    let body = length buf - lobby_hdr_size in
    if ltb body 6 then refused else do
      pl ← rd16 buf 10
      if ltb lobby_max_payload pl || ltb body (6 + pl) then refused else do
        s ← rd16 buf 6
        f ← rd8 buf 8
        t ← rd8 buf 9
        done (record {
          session_id = s;
          from_slot = f;
          to_slot = t;
          payload_len = pl;
          payload = some (drop 12 buf);
        })

unfoldable pub unpack_start : List ℕ → Outcome Start
unpack_start buf = if ltb (length buf - lobby_hdr_size) 7 then refused else do
  s ← rd32 buf 6
  a ← rd8 buf 10
  n ← rd8 buf 11
  d ← rd8 buf 12
  done (record { seed = s; arena_id = a; num_players = n; input_delay = d })

unfoldable pub unpack_start_ack : List ℕ → Outcome StartAck
unpack_start_ack buf =
    if ltb (length buf - lobby_hdr_size) 3
    then refused
    else do s ← rd16 buf 6; t ← rd8 buf 8; done (record { session_id = s; slot = t })

abbrev pub map_done {ℓ κ} : {A : Type ℓ} {B : Type κ} → (A → B) → Outcome A → Outcome B
map_done f (done a) = done (f a)
map_done f refused = refused
map_done f fault = fault

-- The switch over the type byte.
unfoldable pub unpack_body : ℕ → List ℕ → Outcome LobbyMsg
unpack_body t buf =
    if t == 1
    then map_done host_req (unpack_host_req buf)
    else if t == 2
    then map_done host_resp (unpack_host_resp buf)
    else if t == 3
    then map_done join_req (unpack_join_req buf)
    else if t == 4
    then map_done join_resp (unpack_join_resp buf)
    else if t == 5
    then map_done reject (unpack_reject buf)
    else if t == 6
    then map_done peer_intro (unpack_peer_intro buf)
    else if t == 7
    then map_done punch (unpack_punch buf)
    else if t == 8
    then map_done punch_ack (unpack_punch buf)
    else if t == 9
    then map_done punch_report (unpack_punch_report buf)
    else if t == 10
    then map_done pair_route (unpack_pair_route buf)
    else if t == 11
    then map_done relay (unpack_relay buf)
    else if t == 12
    then map_done game (unpack_relay buf)
    else if t == 13
    then map_done start (unpack_start buf)
    else if t == 14
    then map_done start_ack (unpack_start_ack buf)
    else if t == 15
    then map_done keepalive (unpack_start_ack buf)
    else refused

unfoldable pub unpack : List ℕ → Outcome LobbyMsg
unfolding unpack_body
unpack buf = if ltb (length buf) lobby_hdr_size then refused else do
  magic ← rd32 buf 0
  ver ← rd8 buf 4
  t ← rd8 buf 5
  if not (magic == lobby_magic) || not (ver == lobby_proto_ver) then refused else unpack_body t buf
