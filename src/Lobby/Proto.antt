-- ===== src/Lobby/Proto.antt =====
-- src/lobby/lobby_proto.h: the message types of the lobby wire protocol.
-- `LobbyMsg` is a type byte and a union; the union members become records, and each message
-- type becomes a constructor that carries the member which the codec uses for it.
pub mod Wire
pub mod Pack
pub mod Unpack
pub mod Bounds
pub mod RoundTrip
use bmhero_arena.Common.{ℕ, ◌^◌, ◌<◌, Option, List}

-- LobbyEndpoint, in host byte order.
pub record LobbyEndpoint : Type 0 where
  pub ip : ℕ
  pub port : ℕ

abbrev pub lobby_magic : ℕ
lobby_magic = 0x41335256

abbrev pub lobby_proto_ver : ℕ
lobby_proto_ver = 1

abbrev pub lobby_hdr_size : ℕ
lobby_hdr_size = 6

abbrev pub lobby_max_packet : ℕ
lobby_max_packet = 1200

abbrev pub lobby_max_payload : ℕ
lobby_max_payload = 1024

abbrev pub lobby_req_pad_size : ℕ
lobby_req_pad_size = 32

-- NET_ROUTE_NONE, NET_ROUTE_DIRECT, NET_ROUTE_RELAY
pub data NetRouteKind : Type 0 where
  unrouted direct relayed : NetRouteKind

-- `ep` is unused where the kind is not `direct`.
pub record NetRoute : Type 0 where
  pub kind : NetRouteKind
  pub ep : LobbyEndpoint

-- The union members, in the order of the header.
pub record HostReq : Type 0 where
  pub net_version : ℕ
  pub num_players : ℕ
  pub private_ep : LobbyEndpoint

pub record JoinReq : Type 0 where
  pub session_id : ℕ
  pub net_version : ℕ
  pub private_ep : LobbyEndpoint

pub record JoinResp : Type 0 where
  pub slot : ℕ
  pub num_players : ℕ

pub record PeerIntro : Type 0 where
  pub slot : ℕ
  pub public_ep : LobbyEndpoint
  pub private_ep : LobbyEndpoint

pub record Punch : Type 0 where
  pub session_id : ℕ
  pub from_slot : ℕ
  pub nonce : ℕ

pub record PunchReport : Type 0 where
  pub session_id : ℕ
  pub slot_a : ℕ
  pub slot_b : ℕ
  pub ok : ℕ

pub record PairRoute : Type 0 where
  pub slot_a : ℕ
  pub slot_b : ℕ
  pub route : ℕ

-- `payload` is a pointer: `none` is NULL, and `some` has the bytes from the pointer on.
pub record Relay : Type 0 where
  pub session_id : ℕ
  pub from_slot : ℕ
  pub to_slot : ℕ
  pub payload_len : ℕ
  pub payload : Option (List ℕ)

pub record Start : Type 0 where
  pub seed : ℕ
  pub arena_id : ℕ
  pub num_players : ℕ
  pub input_delay : ℕ

pub record StartAck : Type 0 where
  pub session_id : ℕ
  pub slot : ℕ

-- LobbyMsg. `untyped t` is a message whose type byte is no LobbyMsgType; a zeroed message is
-- `untyped 0`.
pub data LobbyMsg : Type 0 where
  host_req : HostReq → LobbyMsg
  host_resp : ℕ → LobbyMsg
  join_req : JoinReq → LobbyMsg
  join_resp : JoinResp → LobbyMsg
  reject : ℕ → LobbyMsg
  peer_intro : PeerIntro → LobbyMsg
  punch : Punch → LobbyMsg
  punch_ack : Punch → LobbyMsg
  punch_report : PunchReport → LobbyMsg
  pair_route : PairRoute → LobbyMsg
  relay : Relay → LobbyMsg
  game : Relay → LobbyMsg
  start : Start → LobbyMsg
  start_ack : StartAck → LobbyMsg
  keepalive : StartAck → LobbyMsg
  untyped : ℕ → LobbyMsg

-- LobbyRejectReason
abbrev pub rej_bad_session : ℕ
rej_bad_session = 1

abbrev pub rej_full : ℕ
rej_full = 2

abbrev pub rej_version_mismatch : ℕ
rej_version_mismatch = 3

abbrev pub rej_expired : ℕ
rej_expired = 4

-- LobbyRoute
abbrev pub route_direct : ℕ
route_direct = 0

abbrev pub route_relay : ℕ
route_relay = 1

-- The type byte of the enum LobbyMsgType.
pub msg_type : LobbyMsg → ℕ
msg_type (host_req m) = 1
msg_type (host_resp m) = 2
msg_type (join_req m) = 3
msg_type (join_resp m) = 4
msg_type (reject m) = 5
msg_type (peer_intro m) = 6
msg_type (punch m) = 7
msg_type (punch_ack m) = 8
msg_type (punch_report m) = 9
msg_type (pair_route m) = 10
msg_type (relay m) = 11
msg_type (game m) = 12
msg_type (start m) = 13
msg_type (start_ack m) = 14
msg_type (keepalive m) = 15
msg_type (untyped t) = t

-- What the C types of the fields admit.
abbrev pub IsEndpoint : LobbyEndpoint → Type 0
IsEndpoint e = (e.ip < 2 ^ 32) × (e.port < 2 ^ 16)
