-- ===== src/Rendezvous/Tests.antt =====
-- Runs of the rendezvous server of src/lobby/rendezvous.c.
use bmhero_arena.Common.{◌*◌, ◌+◌, ◌≤◌}
use bmhero_arena.Rendezvous.{RateBucket}
use bmhero_arena.Common.{
  ℕ, ◌<◌, ◌≡◌, length, ◌↔◌, ◌⊎◌, refl, false, true, none, some, List, [], ◌∷◌, arith, Option-cases,
  inl, inr,
}
use bmhero_arena.Lobby.Proto.{LobbyEndpoint, HostReq, Relay, Start, host_req, relay}
use bmhero_arena.Lobby.Proto.Wire.{done}
use bmhero_arena.Lobby.Proto.Unpack.{unpack, unpack_host_req, unpack_relay}
use bmhero_arena.Rendezvous.{starting, Session, Rendezvous, is_free, is_running, find_session}
use bmhero_arena.Rendezvous.Handlers.{put, hosted, started, acked, init, do_host_req, handle, tick}
use bmhero_arena.Rendezvous.Invariant.{IsLive, IsValid, find_session-some}
use bmhero_arena.Rendezvous.Sessions.{hosted-IsLive, started-IsLive}
use bmhero_arena.Rendezvous.Moves.{Owns, opens}
use bmhero_arena.Rendezvous.Preserve.{Change-IsValid}
use bmhero_arena.Rendezvous.Tick.{init-IsValid, packet, ticks, run, run-init-IsValid}
use bmhero_arena.Rendezvous.Expiry.{IsExpired, tick_frees}
use bmhero_arena.Rendezvous.History.{Evolves, handle-Evolves}
use bmhero_arena.Rendezvous.Ownership.{handle-Owns}
use bmhero_arena.Rendezvous.Relay.{Relayed, handle-Relayed}
use bmhero_arena.Rendezvous.Rate.{granted, total, granted_bound}
use bmhero_arena.Rendezvous.Answers.{Smaller, handle-Smaller}
use bmhero_arena.Rendezvous.Retry.{Twice, do_host_req-Twice}
use bmhero_arena.Rendezvous.Handshake.{OthersAcked, acked_complete}

abbrev host_ep : LobbyEndpoint
host_ep = record { ip = 0x0A000001; port = 5000 }

abbrev host_request : HostReq
host_request = record { net_version = 9; num_players = 2; private_ep = host_ep }

-- Session 7 of the host, alone, at slot 0 of a fresh server.
abbrev hosted_session : Session
hosted_session = hosted 7 0 host_ep host_request

abbrev one_session : Rendezvous
one_session = put (init 0 1) 0 hosted_session

-- A keepalive of the host, and a packet that it relays to itself.
abbrev beat_bytes : List ℕ
beat_bytes = 0x56 ∷ 0x52 ∷ 0x33 ∷ 0x41 ∷ 1 ∷ 15 ∷ 7 ∷ 0 ∷ 0 ∷ []

abbrev relay_bytes : List ℕ
relay_bytes = 0x56 ∷ 0x52 ∷ 0x33 ∷ 0x41 ∷ 1 ∷ 11 ∷ 7 ∷ 0 ∷ 0 ∷ 0 ∷ 0 ∷ 0 ∷ []

abbrev relay_packet : Relay
relay_packet = record {
  session_id = 7;
  from_slot = 0;
  to_slot = 0;
  payload_len = 0;
  payload = some [];
}

abbrev start_message : Start
start_message = record { seed = 5; arena_id = 0; num_players = 2; input_delay = 2 }

unpack_relayed : unpack relay_bytes ≡ done (relay relay_packet)
unfolding unpack unpack_relay
unpack_relayed = refl

fresh_has_none : find_session (init 0 1).sessions 7 ≡ none
unfolding init
fresh_has_none = elim (Option-cases (find_session (init 0 1).sessions 7)) [
  | inl e ↦ e
  | inr (i, e) ↦ let (h, f, g, nz) = find_session-some (init 0 1).sessions 7 i e in absurd (cc)
]

fresh_is_free : is_free ((init 0 1).sessions 0).phase ≡ true
unfolding init
fresh_is_free = refl

one_session-IsValid : IsValid one_session
one_session-IsValid = Change-IsValid host_ep (init 0 1) one_session (init-IsValid 0 1) (
    opens 0 7 0 host_request (omega arith) fresh_is_free (omega arith) (omega arith) fresh_has_none
      refl refl)

one_session_live : is_free (one_session.sessions 0).phase ≡ false
unfolding hosted
one_session_live = refl

hosted_session-IsLive : IsLive hosted_session
hosted_session-IsLive = hosted-IsLive 7 0 host_ep host_request (omega arith) (omega arith)

abbrev started_session : Session
started_session = started hosted_session 10 start_message

started_is_starting : started_session.phase ≡ starting
unfolding started hosted
started_is_starting = refl

started_has_host : 0 < started_session.joined
unfolding started hosted
started_has_host = omega arith

run-init-IsValid_example :
    IsValid (run (init 0 1) (packet 1 host_ep beat_bytes ∷ ticks 600002 ∷ []))
run-init-IsValid_example = run-init-IsValid 0 1 (packet 1 host_ep beat_bytes ∷ ticks 600002 ∷ [])

handle-Evolves_example :
    Evolves (one_session.sessions 0) ((handle one_session 5 host_ep beat_bytes).0.sessions 0)
handle-Evolves_example =
    handle-Evolves one_session 5 host_ep beat_bytes 0 one_session-IsValid (omega arith)
      one_session_live

handle-Owns_example :
    ((handle one_session 5 host_ep beat_bytes).0.sessions 0 ≡ one_session.sessions 0)
    ⊎ ((p : ℕ) × Owns ((handle one_session 5 host_ep beat_bytes).0.sessions 0) host_ep p)
handle-Owns_example =
    handle-Owns one_session 5 host_ep beat_bytes 0 one_session-IsValid (omega arith)
      one_session_live

handle-Relayed_example :
    Relayed one_session host_ep relay_packet relay_bytes (handle one_session 5 host_ep relay_bytes)
handle-Relayed_example =
    handle-Relayed one_session 5 host_ep relay_packet relay_bytes unpack_relayed

tick_frees_example :
    (is_free ((tick one_session 600001).0.sessions 0).phase ≡ true)
    ↔ IsExpired 600001 (one_session.sessions 0)
tick_frees_example = tick_frees one_session 600001 0 (omega arith) one_session_live

acked_complete_example :
    (is_running (acked started_session 0 20).phase ≡ true) ↔ OthersAcked started_session 0
acked_complete_example =
    acked_complete started_session 0 20
      (started-IsLive hosted_session hosted_session-IsLive 10 start_message) started_is_starting
      started_has_host

abbrev busy : RateBucket
busy = record { tokens_milli = 1500; last_ms = 4294967290 }

-- Two packets at once, and one ten milliseconds later, over the wrap of the clock.
granted_bound_example : 1000 * granted busy (0 ∷ 0 ∷ 10 ∷ []) ≤ 1500 + 20 * total (0 ∷ 0 ∷ 10 ∷ [])
granted_bound_example =
    granted_bound busy (0 ∷ 0 ∷ 10 ∷ []) (omega arith) (omega arith)
      (omega arith, (omega arith, (omega arith, tt)))

do_host_req-Twice_example :
    Twice host_ep 30
      (do_host_req (init 0 1) 20 host_ep host_request)
      (do_host_req (do_host_req (init 0 1) 20 host_ep host_request).0 30 host_ep host_request)
do_host_req-Twice_example = do_host_req-Twice (init 0 1) 20 30 host_ep host_request host_request

-- The request of the host, padded.
abbrev request_bytes : List ℕ
request_bytes =
    0x56 ∷ 0x52 ∷ 0x33 ∷ 0x41 ∷ 1 ∷ 1 ∷ 9 ∷ 0 ∷ 0 ∷ 0 ∷ 2 ∷ 1 ∷ 0 ∷ 0 ∷ 10 ∷ 136 ∷ 19 ∷ 0 ∷ 0 ∷ 0
    ∷ 0 ∷ 0 ∷ 0 ∷ 0 ∷ 0 ∷ 0 ∷ 0 ∷ 0 ∷ 0 ∷ 0 ∷ 0 ∷ 0 ∷ []

unpack_requested : unpack request_bytes ≡ done (host_req host_request)
unfolding unpack unpack_host_req
unpack_requested = refl

handle-Smaller_example :
    (32 ≤ length request_bytes)
    × Smaller request_bytes (handle (init 0 1) 5 host_ep request_bytes).1
handle-Smaller_example =
    handle-Smaller (init 0 1) 5 host_ep request_bytes (host_req host_request) unpack_requested refl
