-- ===== src/Rendezvous/Handlers/Entry.antt =====
-- do_host_req and do_join_req of src/lobby/rendezvous.c. A `return` becomes the result of its
-- branch; a pointer to a session becomes its index.
use bmhero_arena.Common.{
  ℕ, zero, suc, ◌+◌, Bool, true, false, not, ◌&&◌, Option, none, some, ◌++◌, ltb, leb, ◌==◌,
  if◌then◌else◌, Array, update, first_index, u16, u8, xorshift32,
}
use bmhero_arena.Lobby.Proto.{
  LobbyEndpoint, HostReq, JoinReq, host_resp, join_resp, rej_bad_session, rej_full,
  rej_version_mismatch, rej_expired,
}
use bmhero_arena.Rendezvous.{
  rv_max_sessions, rv_max_players, lobby, Session, Rendezvous, Reply, ep_eq, is_free, is_lobby,
  no_peer, cleared, emit_msg, emit_reject, find_session, peer_of, fan_peer_intro, resend_intros_to,
}

-- What is written through the pointer to session i.
abbrev pub put : Rendezvous → ℕ → Session → Rendezvous
put rv i s = record rv { sessions = update rv.sessions i s }

-- s->last_activity_ms = now; s->peers[p].last_seen_ms = now;
abbrev pub seen : Session → ℕ → ℕ → Session
seen s p now = record s {
  last_activity_ms = now;
  peers = update s.peers p (record (s.peers p) { last_seen_ms = now });
}

-- The test of the retry loop of do_host_req, and of the search of do_start.
abbrev pub hosts_lobby : Array Session → LobbyEndpoint → ℕ → Bool
hosts_lobby ss from i =
    is_lobby (ss i).phase && ((ss i).peers 0).used && ep_eq ((ss i).peers 0).public_ep from

abbrev pub hosts : Array Session → LobbyEndpoint → ℕ → Bool
hosts ss from i =
    not (is_free (ss i).phase) && ((ss i).peers 0).used && ep_eq ((ss i).peers 0).public_ep from

-- The loop that draws an id, with the tries that are left; `none` leaves id at 0.
unfoldable pub pick_id : ℕ → ℕ → Array Session → Option ℕ × ℕ
pick_id zero rng ss = (none, rng)
pick_id (suc tries) rng ss =
    let rng' = xorshift32 rng in
    let cand = u16 rng' in
    let again = pick_id tries rng' ss in
    if cand == 0
    then again
    else elim (find_session ss cand) [ none ↦ (some cand, rng') | some i ↦ again ]

abbrev pub clamp_players : ℕ → ℕ
clamp_players np = if ltb np 2 then 2 else if ltb rv_max_players np then rv_max_players else np

-- The session that do_host_req fills in.
unfoldable pub hosted : ℕ → ℕ → LobbyEndpoint → HostReq → Session
hosted id now from m = record cleared {
  id = id;
  phase = lobby;
  num_players = clamp_players m.num_players;
  net_version = m.net_version;
  peers =
      update (λ i. no_peer) 0
        (record {
          used = true;
          start_acked = false;
          public_ep = from;
          private_ep = m.private_ep;
          last_seen_ms = now;
        });
  joined = 1;
  last_activity_ms = now;
}

unfoldable pub host_retry : Rendezvous → ℕ → LobbyEndpoint → ℕ → Reply
host_retry rv now from i =
    let c = seen (rv.sessions i) 0 now in
    (put rv i c, emit_msg from (host_resp c.id) ++ resend_intros_to c 0)

unfoldable pub open_session : Rendezvous → ℕ → LobbyEndpoint → HostReq → ℕ → Reply
open_session rv now from m i =
    let (id, rng) = pick_id 4096 rv.rng rv.sessions in
    let rv' = record rv { rng = rng } in
    elim id [
      | none ↦ (rv', emit_reject from rej_full)
      | some id ↦ (put rv' i (hosted id now from m), emit_msg from (host_resp id))
    ]

unfoldable pub do_host_req : Rendezvous → ℕ → LobbyEndpoint → HostReq → Reply
do_host_req rv now from m = elim (first_index rv_max_sessions (hosts_lobby rv.sessions from)) [
  | some i ↦ host_retry rv now from i
  | none ↦ elim (first_index rv_max_sessions (λ i. is_free (rv.sessions i).phase)) [
    | none ↦ (rv, emit_reject from rej_full)
    | some i ↦ open_session rv now from m i
  ]
]

-- The newcomer at a free slot.
unfoldable pub admitted : Session → ℕ → ℕ → LobbyEndpoint → JoinReq → Session
admitted s slot now from m = record s {
  peers = update s.peers slot (record (s.peers slot) {
    used = true;
    public_ep = from;
    private_ep = m.private_ep;
    last_seen_ms = now;
  });
  joined = u8 (s.joined + 1);
  last_activity_ms = now;
}

unfoldable pub join_retry : Rendezvous → ℕ → LobbyEndpoint → ℕ → ℕ → Reply
join_retry rv now from i existing =
    let s = seen (rv.sessions i) existing now in
    (
      put rv i s,
      emit_msg from (join_resp (record { slot = u8 existing; num_players = s.num_players }))
          ++ resend_intros_to s existing,
    )

unfoldable pub join_new : Rendezvous → ℕ → LobbyEndpoint → JoinReq → ℕ → Reply
join_new rv now from m i =
    let s = rv.sessions i in
    if not (m.net_version == s.net_version)
    then (rv, emit_reject from rej_version_mismatch)
    else if leb s.num_players s.joined
    then (rv, emit_reject from rej_full)
    else elim (first_index rv_max_players (λ k. not (s.peers k).used)) [
      | none ↦ (rv, emit_reject from rej_full)
      | some slot ↦
          let s' = admitted s slot now from m in
          (
            put rv i s',
            emit_msg from (join_resp (record { slot = u8 slot; num_players = s.num_players }))
                ++ fan_peer_intro s' slot,
          )
    ]

unfoldable pub do_join_req : Rendezvous → ℕ → LobbyEndpoint → JoinReq → Reply
do_join_req rv now from m = elim (find_session rv.sessions m.session_id) [
  | none ↦ (rv, emit_reject from rej_bad_session)
  | some i ↦
      if not (is_lobby (rv.sessions i).phase)
      then (rv, emit_reject from rej_expired)
      else elim (peer_of (rv.sessions i) from) [
        | some existing ↦ join_retry rv now from i existing
        | none ↦ join_new rv now from m i
      ]
]
