-- ===== src/Lobby/Proto/Pack.antt =====
-- lobby_pack of src/lobby/lobby_proto.c. The result is out[0..n), n being what the C function
-- returns.
use bmhero_arena.Common.{
  ℕ, ◌+◌, ◌-◌, Option, none, some, List, [], ◌∷◌, ◌++◌, ltb, ◌==◌, if◌then◌else◌, length, take,
  replicate, u8,
}
use bmhero_arena.Lobby.Proto.{
  lobby_magic, lobby_proto_ver, lobby_hdr_size, lobby_max_payload, lobby_req_pad_size, Relay,
  LobbyMsg, host_req, host_resp, join_req, join_resp, reject, peer_intro, punch, punch_ack,
  punch_report, pair_route, relay, game, start, start_ack, keepalive, untyped, msg_type,
}
use bmhero_arena.Lobby.Proto.Wire.{Outcome, done, refused, fault, ◌>>=◌, wr16, wr32, wr_ep}

-- memcpy of the payload: reads `payload_len` bytes from the pointer.
unfoldable pub copy_payload : ℕ → Option (List ℕ) → Outcome (List ℕ)
copy_payload n none = if n == 0 then done [] else refused
copy_payload n (some p) = if ltb (length p) n then fault else done (take n p)

-- The body of a RELAY or GAME.
unfoldable pub pack_relay : Relay → Outcome (List ℕ)
unfolding copy_payload
pack_relay m = if ltb lobby_max_payload m.payload_len then refused else do
  p ← copy_payload m.payload_len m.payload
  done (wr16 m.session_id ++ (u8 m.from_slot ∷ u8 m.to_slot ∷ wr16 m.payload_len ++ p))

-- The switch over the message type: the bytes after the header.
unfoldable pub pack_body : LobbyMsg → Outcome (List ℕ)
unfolding pack_relay
pack_body (host_req m) = done (
    wr32 m.net_version
    ++ (u8 m.num_players ∷ wr_ep m.private_ep)
    ++ replicate (lobby_req_pad_size - (lobby_hdr_size + 11)) 0)
pack_body (host_resp session_id) = done (wr16 session_id)
pack_body (join_req m) = done (
    wr16 m.session_id
    ++ wr32 m.net_version
    ++ wr_ep m.private_ep
    ++ replicate (lobby_req_pad_size - (lobby_hdr_size + 12)) 0)
pack_body (join_resp m) = done (u8 m.slot ∷ u8 m.num_players ∷ [])
pack_body (reject reason) = done (u8 reason ∷ [])
pack_body (peer_intro m) = done (u8 m.slot ∷ wr_ep m.public_ep ++ wr_ep m.private_ep)
pack_body (punch m) = done (wr16 m.session_id ++ (u8 m.from_slot ∷ wr32 m.nonce))
pack_body (punch_ack m) = done (wr16 m.session_id ++ (u8 m.from_slot ∷ wr32 m.nonce))
pack_body (punch_report m) = done (wr16 m.session_id ++ (u8 m.slot_a ∷ u8 m.slot_b ∷ u8 m.ok ∷ []))
pack_body (pair_route m) = done (u8 m.slot_a ∷ u8 m.slot_b ∷ u8 m.route ∷ [])
pack_body (relay m) = pack_relay m
pack_body (game m) = pack_relay m
pack_body (start m) =
    done (wr32 m.seed ++ (u8 m.arena_id ∷ u8 m.num_players ∷ u8 m.input_delay ∷ []))
pack_body (start_ack m) = done (wr16 m.session_id ++ (u8 m.slot ∷ []))
pack_body (keepalive m) = done (wr16 m.session_id ++ (u8 m.slot ∷ []))
pack_body (untyped t) = refused

unfoldable pub pack : LobbyMsg → Outcome (List ℕ)
unfolding pack_body msg_type
pack m = do body ← pack_body m; done (wr32 lobby_magic ++ (lobby_proto_ver ∷ msg_type m ∷ body))
