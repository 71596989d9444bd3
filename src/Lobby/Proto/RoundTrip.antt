-- ===== src/Lobby/Proto/RoundTrip.antt =====
-- Encode then decode, and the sizes of packets.
use bmhero_arena.Common.{
  ℕ, ◌+◌, ◌≤◌, ◌≡◌, Option, none, some, List, ◌∷◌, ltb, length, take_all, length-take, u8, ◌++◌,
  arith, Bool-cases, inl, inr,
}
use bmhero_arena.Lobby.Proto.{
  lobby_max_payload, lobby_max_packet, Relay, LobbyMsg, host_req, host_resp, join_req, join_resp,
  reject, peer_intro, punch, punch_ack, punch_report, pair_route, relay, game, start, start_ack,
  keepalive, untyped,
}
use bmhero_arena.Lobby.Proto.Wire.{Outcome, done, ◌>>=◌, wr16, >>=-eq-done}
use bmhero_arena.Lobby.Proto.Pack.{copy_payload, pack_relay, pack_body, pack}
use bmhero_arena.Lobby.Proto.Unpack.{
  unpack_host_req, unpack_host_resp, unpack_join_req, unpack_join_resp, unpack_reject,
  unpack_peer_intro, unpack_punch, unpack_punch_report, unpack_pair_route, unpack_relay,
  unpack_start, unpack_start_ack, unpack,
}
use bmhero_arena.Lobby.Proto.Bounds.{IsWire}

-- A RELAY or GAME whose payload pointer has just its payload behind it.
abbrev pub IsWhole : LobbyMsg → Type 0
IsWhole (relay m) = (p : List ℕ) × (m.payload ≡ some p) × (length p ≡ m.payload_len)
IsWhole (game m) = (p : List ℕ) × (m.payload ≡ some p) × (length p ≡ m.payload_len)
IsWhole _ = Unit

abbrev relay_body : Relay → List ℕ → Outcome (List ℕ)
relay_body m p =
    done (wr16 m.session_id ++ (u8 m.from_slot ∷ u8 m.to_slot ∷ wr16 m.payload_len ++ p))

-- lobby_unpack inverts lobby_pack on the messages of the fifteen types whose fields fit their C
-- types; a RELAY or GAME has a payload of exactly payload_len bytes, at most LOBBY_MAX_PAYLOAD.
pub unpack-pack : (m : LobbyMsg) → IsWire m → IsWhole m → (pack m >>= unpack) ≡ done m
unfolding pack unpack unpack_host_req unpack_host_resp unpack_join_req unpack_join_resp
    unpack_reject unpack_peer_intro unpack_punch unpack_punch_report unpack_pair_route unpack_relay
    unpack_start unpack_start_ack
unpack-pack (relay m) h (p, e, l) = ground (arith, take_all m.payload_len p)
unpack-pack (game m) h (p, e, l) = ground (arith, take_all m.payload_len p)
unpack-pack (untyped t) h w = elim h [ ]
unpack-pack m h w = ground arith

-- The size on the wire of each message.
abbrev pub wire_size : LobbyMsg → ℕ
wire_size (host_req m) = 32
wire_size (host_resp s) = 8
wire_size (join_req m) = 32
wire_size (join_resp m) = 8
wire_size (reject r) = 7
wire_size (peer_intro m) = 19
wire_size (punch m) = 13
wire_size (punch_ack m) = 13
wire_size (punch_report m) = 11
wire_size (pair_route m) = 9
wire_size (relay m) = 12 + m.payload_len
wire_size (game m) = 12 + m.payload_len
wire_size (start m) = 13
wire_size (start_ack m) = 9
wire_size (keepalive m) = 9
wire_size (untyped t) = 0

copy_payload-length :
    (n : ℕ) (p : Option (List ℕ)) (bs : List ℕ) → copy_payload n p ≡ done bs → length bs ≡ n
unfolding copy_payload
copy_payload-length n none bs e = ground arith
copy_payload-length n (some p) bs e = ground (arith, length-take n p)

pack_relay-length :
    (m : Relay) (bs : List ℕ)
    → pack_relay m ≡ done bs
    → (length bs ≡ 6 + m.payload_len) × (m.payload_len ≤ lobby_max_payload)
unfolding pack_relay
pack_relay-length m bs e = elim (Bool-cases (ltb lobby_max_payload m.payload_len)) [
  | inl long ↦ absurd (ground arith)
  | inr fits ↦
      let e' : (copy_payload m.payload_len m.payload >>= relay_body m) ≡ done bs = rw fits at e in
      let (p, f, g) = >>=-eq-done (copy_payload m.payload_len m.payload) (relay_body m) e' in
      ground (arith, copy_payload-length m.payload_len m.payload p f)
]

pack-done :
    (m : LobbyMsg) (body : List ℕ)
    → pack m ≡ done body
    → (b : List ℕ) × (pack_body m ≡ done b) × (length body ≡ 6 + length b)
unfolding pack
pack-done m body e = let (b, f, g) = >>=-eq-done (pack_body m) _ e in (b, f, ground arith)

-- What lobby_pack returns, for any message, has the size of the message's type, and fits the
-- caller's buffer of LOBBY_MAX_PACKET bytes.
pub length-pack :
    (m : LobbyMsg) (bs : List ℕ)
    → pack m ≡ done bs
    → (length bs ≡ wire_size m) × (wire_size m ≤ lobby_max_packet)
unfolding pack_body
length-pack (relay m) bs e =
    let (b, f, l) = pack-done (relay m) bs e in ground (arith, pack_relay-length m b f)
length-pack (game m) bs e =
    let (b, f, l) = pack-done (game m) bs e in ground (arith, pack_relay-length m b f)
length-pack m bs e = let (b, f, l) = pack-done m bs e in ground arith
