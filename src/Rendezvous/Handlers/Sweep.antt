-- ===== src/Rendezvous/Handlers/Sweep.antt =====
-- rv_tick of src/lobby/rendezvous.c.
use bmhero_arena.Common.{
  ℕ, zero, suc, ◌+◌, Bool, true, not, ◌&&◌, ◌||◌, List, [], ◌++◌, ltb, leb, ◌==◌, if◌then◌else◌,
  sub_u32,
}
use bmhero_arena.Lobby.Proto.{route_relay}
use bmhero_arena.Rendezvous.{
  rv_max_sessions, rv_lobby_expiry_ms, rv_started_expiry_ms, rv_relay_expiry_ms, rv_start_refan_ms,
  Session, Rendezvous, Datagram, Reply, is_free, is_lobby, is_starting, cleared, fan_start,
}
use bmhero_arena.Rendezvous.Handlers.Entry.{put}

-- Whether some pair of a session is relayed.
abbrev pub any_player : (ℕ → Bool) → Bool
any_player p = p 0 || p 1 || p 2 || p 3

unfoldable pub has_relay : Session → Bool
has_relay s = any_player λ a. any_player λ b. s.route_sent a b && s.route a b == route_relay

-- The refan of rv_tick, for a session that has started.
unfoldable pub refan : ℕ → Session → Session × List Datagram
refan now s =
    if is_starting s.phase && leb rv_start_refan_ms (sub_u32 now s.last_refan_ms)
    then (record s { last_refan_ms = now }, fan_start s true)
    else (s, [])

-- The body of rv_tick's loop, for one session.
unfoldable pub tick_session : ℕ → Session → Session × List Datagram
tick_session now s =
    if is_free s.phase
    then (s, [])
    else if is_lobby s.phase
    then ((if ltb rv_lobby_expiry_ms (sub_u32 now s.last_activity_ms) then cleared else s), [])
    else (let (t, out) = refan now s in
        (
          (if not (has_relay t)
              then (if ltb rv_started_expiry_ms (sub_u32 now t.started_ms) then cleared else t)
              else if ltb rv_relay_expiry_ms (sub_u32 now t.last_relay_ms)
              then cleared
              else t),
          out,
        ))

-- rv_tick's loop from session i on, with `left` sessions to go.
unfoldable pub tick_from : ℕ → ℕ → ℕ → Rendezvous → Reply
tick_from zero i now rv = (rv, [])
tick_from (suc left) i now rv =
    let (s, out) = tick_session now (rv.sessions i) in
    let (rv', rest) = tick_from left (i + 1) now (put rv i s) in (rv', out ++ rest)

unfoldable pub tick : Rendezvous → ℕ → Reply
tick rv now = tick_from rv_max_sessions 0 now rv
