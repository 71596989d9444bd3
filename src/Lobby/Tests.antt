-- ===== src/Lobby/Tests.antt =====
-- Runs of the codec of src/lobby/lobby_proto.c.
use bmhero_arena.Common.{ℕ, ◌≡◌, refl, some, List, [], ◌∷◌, arith}
use bmhero_arena.Lobby.Proto.{LobbyEndpoint, LobbyMsg, keepalive, relay}
use bmhero_arena.Lobby.Proto.Wire.{done, refused, ◌>>=◌}
use bmhero_arena.Lobby.Proto.Pack.{pack, pack_body}
use bmhero_arena.Lobby.Proto.Unpack.{unpack, unpack_start_ack}
use bmhero_arena.Lobby.Proto.Bounds.{IsWire, Reads, unpack-Reads}
use bmhero_arena.Lobby.Proto.RoundTrip.{unpack-pack}
use bmhero_arena.Lobby.Code.{encode, decode}
use bmhero_arena.Lobby.Code.RoundTrip.{decode-encode}

abbrev beat : LobbyMsg
beat = keepalive (record { session_id = 7; slot = 2 })

-- "VR3A", version 1, type 15, session 7, slot 2.
abbrev beat_bytes : List ℕ
beat_bytes = 0x56 ∷ 0x52 ∷ 0x33 ∷ 0x41 ∷ 1 ∷ 15 ∷ 7 ∷ 0 ∷ 2 ∷ []

abbrev forwarded : LobbyMsg
forwarded = relay (record {
  session_id = 7;
  from_slot = 0;
  to_slot = 1;
  payload_len = 2;
  payload = some (8 ∷ 9 ∷ []);
})

abbrev server : LobbyEndpoint
server = record { ip = 0xC0A80001; port = 40064 }

pack-beat : pack beat ≡ done beat_bytes
unfolding pack pack_body
pack-beat = refl

unpack-beat : unpack beat_bytes ≡ done beat
unfolding unpack unpack_start_ack
unpack-beat = refl

-- One byte short.
unpack_short : unpack (0x56 ∷ 0x52 ∷ 0x33 ∷ 0x41 ∷ 1 ∷ 15 ∷ 7 ∷ 0 ∷ []) ≡ refused
unfolding unpack unpack_start_ack
unpack_short = refl

unpack-Reads_example : Reads IsWire (unpack beat_bytes)
unpack-Reads_example = unpack-Reads beat_bytes (
  omega arith,
  (
    omega arith,
    (
      omega arith,
      (omega arith, (omega arith, (omega arith, (omega arith, (omega arith, (omega arith, tt)))))),
    ),
  ),
)

unpack-pack_example : (pack forwarded >>= unpack) ≡ done forwarded
unpack-pack_example =
    unpack-pack forwarded
      (omega arith, omega arith, omega arith, omega arith, 8 ∷ 9 ∷ [], refl, omega arith)
      (8 ∷ 9 ∷ [], refl, refl)

decode-encode_example : decode (encode server 513) ≡ some (server, 513)
decode-encode_example = decode-encode server 513 (omega arith, omega arith) (omega arith)
