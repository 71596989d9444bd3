-- ===== src/Lib.antt =====
-- Verification of bmhero-arena: the lobby wire protocol, the rendezvous server and its client, the
-- battle simulation, the session that runs it under rollback, and the adapter between sockets and
-- rollback library.
--
-- The program's parts, and how they interact. Two to four players meet in a lobby: a client asks
-- the rendezvous server (src/lobby/rendezvous.c) for a session, reads a lobby code to friends, and
-- joins; the server introduces the members to each other, arbitrates from their punch reports
-- whether a pair plays directly or through it, fans out the start, forwards relayed packets, and
-- frees sessions that are past their deadline. Client and server speak the wire protocol of
-- src/lobby/lobby_proto.c. The match itself is the deterministic simulation of src/arena, which
-- every peer runs on the same inputs under a rollback library. The client (src/netplay/
-- lobby_client.c) registers or joins, learns its peers, punches a hole to each, takes the server's
-- verdicts on the routes, and hands the match its parameters and routes. During the match the sync
-- session (src/netplay/sync_session.c) owns the state: the rollback library tells it when to save,
-- load and run a tick, and it records inputs and hashes, which it can write to a bundle that
-- tools/replay_bundle.c replays. The library's packets go through the net adapter
-- (src/netplay/net_adapter.c), which sends them by each peer's route, wraps what goes through the
-- server, and sorts what arrives into match packets and lobby packets.
--
-- Which file models which part:
--   Common             Boolean tests, lists, C arrays as functions of the index, unsigned words,
--                      and signed integers with C's shifts, divisions and casts
--   Lobby.Proto        src/lobby/lobby_proto.h: the messages; in Wire the byte readers and
--                      writers, in Pack lobby_pack, in Unpack lobby_unpack
--   Lobby.Code         lobby_code_encode, lobby_code_decode, crc8, b32val
--   Rendezvous         src/lobby/rendezvous.h and the helpers of rendezvous.c: find_session,
--                      peer_of, rate_take, fan_peer_intro, resend_intros_to, fan_start
--   Rendezvous.Handlers  rv_init, rv_handle; in Entry do_host_req and do_join_req, in Match
--                      do_punch_report, do_start, do_start_ack, do_keepalive and do_relay, in
--                      Sweep rv_tick
--   Rendezvous.Moves   what a packet may do to the table, as relations
--   Rendezvous.Invariant, Sessions, Preserve, Tick  the server's invariant and its preservation
--   Rendezvous.History, Ownership, Relay, Expiry, Handshake, Rate, Retry, Answers  what stays
--                      settled, who may change a session, what is forwarded, what expires, when a
--                      start is complete, how many packets pass, what a repeated HOST_REQ gets,
--                      how long the answers are
--   Client             src/netplay/lobby_client.h and the helpers of lobby_client.c; in Sends
--                      what it sends, in Begin lobby_host_begin and lobby_join_begin, in Receive
--                      handle_msg, in Poll lobby_poll and lobby_post_poll
--   Client.Stages, Deadline, Invariant, Ready  the stages of a client, the thirty seconds, its
--                      bounds, what it hands to the match; Rules has the induction over the socket
--   Client.Punching, Routes, Joining  two clients; a client and the server; a host and its guest
--   Arena.Math, Sintab src/arena/arena_math.h and arena_sintab.h: Q20.12 arithmetic
--   Arena.State, Input src/arena/arena_state.h: players, bombs, blasts, the input word
--   Arena.Geom, Tuning src/arena/arena_geom.h and arena_tuning.h: maps and constants
--   Arena.Collide      pushout_aabb and collide_static of src/arena/arena_sim.c
--   Arena.Bombs        round_reset, arena_init, find_free_bomb, find_free_blast, detonate,
--                      throw_bomb
--   Arena.Player, Hands  player_tick: movement; grab, hold, throw, spread, set
--   Arena.BombTick, Blasts, Tick  arena_tick: the bombs by their state, the blasts, the stages
--   Arena.Account      the accounts of bombs and hands, stage by stage
--   Arena.Life         health and death, stage by stage
--   Arena.Frame, Course  what the stages leave alone, and the course of a match
--   Arena.Root, Walls, Hurt, Stick  isqrt64, the walls, the uses of a player's timer, input words
--   Arena.Calm, Untouched, Wakes  a countdown in which nobody touches a bomb, and the slots that no
--                      player has
--   Arena.Hash         arena_hash and arena_rand of src/arena/arena_state.h; in Detect what a hash
--                      cannot miss
--   Arena.Script       src/arena/arena_script.h, and arena_net_version of lobby_proto.c
--   Adapter            src/netplay/net_adapter.h and the state, impairment and lobby ring of
--                      net_adapter.c; in Traffic na_send and na_recv
--   Adapter.Ring, Delay, Delivery, Receiving  the ring as a queue, the datagrams that wait, a
--                      packet's way to the other peer, what a frame may receive
--   Sync               src/netplay/sync_session.h and sync_session.c; in Frames sync_frame, in
--                      Bundle sync_dump_bundle and tools/replay_bundle.c
--   Sync.Timeline, Runs, Replayed  a session under a rollback library that keeps to its contract
--   Sync.Consistent, Reading, RoundTrip  what the recorded inputs decide; the bundle's file
--   Sync.Advance, Search, Localised, Verdict  the test hook, and the tick and the culprit that the
--                      replay tool reports
--   Tests              in Lobby, Rendezvous, Client, Arena, Adapter and Sync: runs at fixed inputs
--
-- How the code is read. A handler takes the state and returns the new one with the datagrams that
-- it emits, in order; `emit` itself only sends. A pointer into an array is an index, NULL and -1
-- are `none`. Unsigned fields are numbers, and their casts and wrap-around are written out; flags
-- are Booleans. A q32 is an integer: the casts to int32_t are written out, and sums, whose
-- overflow C leaves undefined, are not wrapped. Padding bytes are zero, and arena_hash reads the
-- bytes of a state in the little-endian order of the targets. What is not under src/ is an argument:
-- the clock, what a socket holds, whether an allocation succeeds, the events of the rollback library.
--
-- Bounds and fuel. Loops over the fixed arrays run to the arrays' bounds. pick_id has the 4096
-- tries of the source. isqrt64 has 32 rounds for each of its loops: the bit starts at 4^31 and is
-- divided by four in each, so both loops end within them. A session records
-- the 36000 ticks of BUNDLE_MAX_TICKS, and the replay runs as many as were recorded.
--
-- Not modelled: sockets and executables, which are system calls; the viewer, which draws; the tools
-- but replay_bundle.c, whose printing is left out.
pub mod Common
pub mod Lobby
pub mod Rendezvous
pub mod Arena
pub mod Client
pub mod Adapter
pub mod Sync
