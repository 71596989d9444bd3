-- ===== src/Rendezvous/Handlers/Match.antt =====
-- do_punch_report, do_start, do_start_ack, do_keepalive and do_relay of src/lobby/rendezvous.c.
use bmhero_arena.Common.{
  ℕ, ◌+◌, Bool, true, false, not, ◌&&◌, ◌||◌, Option, none, some, List, [], ◌∷◌, ltb, leb, ◌==◌,
  if◌then◌else◌, Array, update, first_index, u32, u8,
}
use bmhero_arena.Lobby.Proto.{
  LobbyEndpoint, PunchReport, StartAck, Relay, Start, LobbyMsg, pair_route, start, route_direct,
  route_relay,
}
use bmhero_arena.Rendezvous.{
  rv_max_sessions, rv_max_players, starting, running, Session, Rendezvous, Datagram, Reply, ep_eq,
  is_lobby, is_starting, is_running, emit_msg, find_session, peer_of, for_players, fan_start,
}
use bmhero_arena.Rendezvous.Handlers.Entry.{put, seen, hosts}

-- m[a][b] = v
abbrev pub update₂ {ℓ} : {A : Type ℓ} → Array (Array A) → ℕ → ℕ → A → Array (Array A)
update₂ m a b v = update m a (update (m a) b v)

abbrev pub pair_msg : ℕ → ℕ → ℕ → LobbyMsg
pair_msg a b r = pair_route (record { slot_a = u8 a; slot_b = u8 b; route = r })

abbrev pub is_open : Option Bool → Bool
is_open (some true) = true
is_open _ = false

abbrev pub is_seen : Option Bool → Bool
is_seen none = false
is_seen (some v) = true

-- The reporter's verdict is stored.
unfoldable pub reported : Session → ℕ → ℕ → ℕ → Bool → Session
reported s rep oth now ok =
    let t = seen s rep now in record t { punch = update₂ t.punch rep oth (some ok) }

-- Both sides have reported: the route of the pair a < b is decided.
unfoldable pub decided : Session → ℕ → ℕ → ℕ → Session
decided s a b now =
    let r = if is_open (s.punch a b) && is_open (s.punch b a) then route_direct else route_relay in
    record s {
      route_sent = update₂ (update₂ s.route_sent b a true) a b true;
      route = update₂ (update₂ s.route b a r) a b r;
      last_relay_ms = if r == route_relay then now else s.last_relay_ms;
    }

-- What follows the store: nothing yet, a replay to the reporter, or the decision to everyone.
unfoldable pub arbitrate : Session → ℕ → LobbyEndpoint → ℕ → ℕ → Session × List Datagram
arbitrate s now from a b =
    if not (is_seen (s.punch a b)) || not (is_seen (s.punch b a))
    then (s, [])
    else if s.route_sent a b
    then (s, emit_msg from (pair_msg a b (s.route a b)))
    else (let s' = decided s a b now in
        (
          s',
          for_players λ i.
              if (s'.peers i).used
              then emit_msg (s'.peers i).public_ep (pair_msg a b (s'.route a b))
              else [],
        ))

unfoldable pub do_punch_report : Rendezvous → ℕ → LobbyEndpoint → PunchReport → Reply
do_punch_report rv now from m = elim (find_session rv.sessions m.session_id) [
  | none ↦ (rv, [])
  | some i ↦ elim (peer_of (rv.sessions i) from) [
    | none ↦ (rv, [])
    | some rep ↦
        let s = rv.sessions i in
        let sa = m.slot_a in
        let sb = m.slot_b in
        let oth = if rep == sa then sb else sa in
        if leb rv_max_players sa || leb rv_max_players sb || sa == sb
        then (rv, [])
        else if not (rep == sa) && not (rep == sb)
        then (rv, [])
        else if not (s.peers oth).used
        then (rv, [])
        else (let t = reported s rep oth now (not (m.ok == 0)) in
            let (t', out) =
              arbitrate t now from (if ltb sa sb then sa else sb) (if ltb sa sb then sb else sa) in
            (put rv i t', out))
  ]
]

-- The session after a START: the clocks restart on the first one.
unfoldable pub started : Session → ℕ → Start → Session
started s now m =
    let t = seen s 0 now in
    let u =
      if is_lobby s.phase
      then record t { phase = starting; started_ms = now; last_relay_ms = now }
      else t in
    record u { start = start m; have_start = true; last_refan_ms = now }

unfoldable pub do_start : Rendezvous → ℕ → LobbyEndpoint → Start → Reply
do_start rv now from m = elim (first_index rv_max_sessions (hosts rv.sessions from)) [
  | none ↦ (rv, [])
  | some i ↦
      if is_running (rv.sessions i).phase
      then (rv, [])
      else (let s = started (rv.sessions i) now m in
          (put rv i s, fan_start s (not (is_lobby (rv.sessions i).phase))))
]

-- Everyone who is in has acknowledged.
abbrev pub all_acked : Session → Bool
all_acked s =
    let quiet = λ (i : ℕ). not (s.peers i).used || (s.peers i).start_acked in
    quiet 0 && quiet 1 && quiet 2 && quiet 3

unfoldable pub acked : Session → ℕ → ℕ → Session
acked s p now =
    let t = seen s p now in
    if not (is_starting s.phase)
    then t
    else (let u = record t {
      peers = update t.peers p (record (t.peers p) { start_acked = true });
    } in
        if all_acked u then record u { phase = running } else u)

unfoldable pub do_start_ack : Rendezvous → ℕ → LobbyEndpoint → StartAck → Reply
do_start_ack rv now from m = elim (find_session rv.sessions m.session_id) [
  | none ↦ (rv, [])
  | some i ↦ elim (peer_of (rv.sessions i) from) [
    | none ↦ (rv, [])
    | some p ↦
        if not (m.slot == u8 p) then (rv, []) else (put rv i (acked (rv.sessions i) p now), [])
  ]
]

unfoldable pub do_keepalive : Rendezvous → ℕ → LobbyEndpoint → StartAck → Reply
do_keepalive rv now from m = elim (find_session rv.sessions m.session_id) [
  | none ↦ (rv, [])
  | some i ↦ elim (peer_of (rv.sessions i) from) [
    | none ↦ (rv, [])
    | some p ↦ (put rv i (seen (rv.sessions i) p now), [])
  ]
]

-- `buf` is forwarded as it came.
unfoldable pub do_relay : Rendezvous → ℕ → LobbyEndpoint → Relay → List ℕ → Reply
do_relay rv now from m buf = elim (find_session rv.sessions m.session_id) [
  | none ↦ (rv, [])
  | some i ↦
      let s = rv.sessions i in
      if leb rv_max_players m.from_slot || leb rv_max_players m.to_slot
      then (rv, [])
      else if not (s.peers m.from_slot).used || not (ep_eq (s.peers m.from_slot).public_ep from)
      then (rv, [])
      else if not (s.peers m.to_slot).used
      then (rv, [])
      else (let t = seen s m.from_slot now in
          (
            record rv {
              sessions = update rv.sessions i (record t { last_relay_ms = now });
              relay_forwards = u32 (rv.relay_forwards + 1);
            },
            record { to = (s.peers m.to_slot).public_ep; bytes = buf } ∷ [],
          ))
]
