-- ===== src/Rendezvous/Moves.antt =====
-- The moves that a packet can make, as a relation on sessions and on the table, and the proof that
-- the handlers make no other.
use bmhero_arena.Common.{
  ℕ, zero, suc, ◌^◌, ◌<◌, ◌≡◌, ◌≢◌, refl, Bool, true, false, not, ◌&&◌, ◌||◌, none, some, List, ltb,
  leb, ◌==◌, if◌then◌else◌, Array, update, first_index, first_index-some, u8, arith, Bool-cases,
  Option-cases, inl, inr, xorshift32,
}
use bmhero_arena.Lobby.Proto.{
  LobbyEndpoint, HostReq, JoinReq, PunchReport, Start, StartAck, Relay, LobbyMsg, host_req,
  join_req, punch_report, relay, start, start_ack, keepalive,
}
use bmhero_arena.Rendezvous.{
  rv_max_sessions, rv_max_players, Session, Rendezvous, ep_eq, is_free, is_lobby, is_running,
  find_session, peer_of,
}
use bmhero_arena.Rendezvous.Handlers.{
  seen, hosts, hosts_lobby, hosted, admitted, reported, arbitrate, started, acked, pick_id,
  host_retry, open_session, do_host_req, join_retry, join_new, do_join_req, do_punch_report,
  do_start, do_start_ack, do_keepalive, do_relay, dispatch,
}
use bmhero_arena.Rendezvous.Invariant.{find_session-some, peer_of-some}

-- The address `from` holds seat p of the session.
abbrev pub Owns : Session → LobbyEndpoint → ℕ → Type 0
Owns s from p =
    (p < rv_max_players) × ((s.peers p).used ≡ true) × (ep_eq (s.peers p).public_ep from ≡ true)

-- What a packet from `from` may write to a session that is not free.
pub data Write (from : LobbyEndpoint) (s t : Session) : Type 0 where
  saw : (p now : ℕ) → Owns s from p → t ≡ seen s p now → Write from s t
  admits :
      (slot now : ℕ) (m : JoinReq)
      → is_lobby s.phase ≡ true
      → peer_of s from ≡ none
      → s.joined < s.num_players
      → first_index rv_max_players (λ k. not (s.peers k).used) ≡ some slot
      → t ≡ admitted s slot now from m
      → Write from s t
  reports :
      (rep oth now : ℕ) (seen_open : Bool) (a b : ℕ)
      → Owns s from rep
      → a ≢ b
      → t ≡ (arbitrate (reported s rep oth now seen_open) now from a b).0
      → Write from s t
  starts :
      (now : ℕ) (m : Start)
      → Owns s from 0
      → is_running s.phase ≡ false
      → t ≡ started s now m
      → Write from s t
  acks : (p now : ℕ) → Owns s from p → t ≡ acked s p now → Write from s t
  relays :
      (p now : ℕ)
      → Owns s from p
      → t ≡ record (seen s p now) { last_relay_ms = now }
      → Write from s t

-- What a packet may do to the table: nothing, write to one live session, or open a free one under
-- an id that no session has.
pub data Change (from : LobbyEndpoint) (rv rv' : Rendezvous) : Type 0 where
  keeps : rv'.sessions ≡ rv.sessions → rv'.rate ≡ rv.rate → Change from rv rv'
  writes :
      (i : ℕ) (t : Session)
      → i < rv_max_sessions
      → is_free (rv.sessions i).phase ≡ false
      → Write from (rv.sessions i) t
      → rv'.sessions ≡ update rv.sessions i t
      → rv'.rate ≡ rv.rate
      → Change from rv rv'
  opens :
      (i id now : ℕ) (m : HostReq)
      → i < rv_max_sessions
      → is_free (rv.sessions i).phase ≡ true
      → id ≢ 0
      → id < 2 ^ 16
      → find_session rv.sessions id ≡ none
      → rv'.sessions ≡ update rv.sessions i (hosted id now from m)
      → rv'.rate ≡ rv.rate
      → Change from rv rv'

-- The id that is drawn is fresh.
pick_id-fresh :
    (tries rng : ℕ) (ss : Array Session) (id : ℕ)
    → (pick_id tries rng ss).0 ≡ some id
    → (id ≢ 0) × (id < 2 ^ 16) × (find_session ss id ≡ none)
unfolding pick_id
pick_id-fresh zero rng ss id e = absurd (cc)
pick_id-fresh (suc tries) rng ss id e = ground (arith, pick_id-fresh tries (xorshift32 rng) ss id)

module _ (rv : Rendezvous) (now : ℕ) (from : LobbyEndpoint) where
  do_keepalive-Change : (m : StartAck) → Change from rv (do_keepalive rv now from m).0
  unfolding do_keepalive
  do_keepalive-Change m = elim (Option-cases (find_session rv.sessions m.session_id)) [
    | inl e ↦ rw (e, do_keepalive) (keeps refl refl)
    | inr (i, e) ↦
        let (h, f, g, _) = find_session-some rv.sessions m.session_id i e in
        elim (Option-cases (peer_of (rv.sessions i) from)) [
          | inl q ↦ rw (e, q, do_keepalive) (keeps refl refl)
          | inr (p, q) ↦
              rw (e, q, do_keepalive)
                (writes i _ h f (saw p now (peer_of-some (rv.sessions i) from p q) refl) refl refl)
        ]
  ]

  do_start_ack-Change : (m : StartAck) → Change from rv (do_start_ack rv now from m).0
  unfolding do_start_ack
  do_start_ack-Change m = elim (Option-cases (find_session rv.sessions m.session_id)) [
    | inl e ↦ rw (e, do_start_ack) (keeps refl refl)
    | inr (i, e) ↦
        let (h, f, g, _) = find_session-some rv.sessions m.session_id i e in
        elim (Option-cases (peer_of (rv.sessions i) from)) [
          | inl q ↦ rw (e, q, do_start_ack) (keeps refl refl)
          | inr (p, q) ↦
              let own_seat = peer_of-some (rv.sessions i) from p q in
              elim (Bool-cases (m.slot == u8 p)) [
                | inl own ↦
                    rw (e, q, own, do_start_ack)
                      (writes i _ h f (acks p now own_seat refl) refl refl)
                | inr other ↦ rw (e, q, other, do_start_ack) (keeps refl refl)
              ]
        ]
  ]

  do_start-Change : (m : Start) → Change from rv (do_start rv now from m).0
  unfolding do_start
  do_start-Change m = elim (Option-cases (first_index rv_max_sessions (hosts rv.sessions from))) [
    | inl e ↦ rw (e, do_start) (keeps refl refl)
    | inr (i, e) ↦
        let (h, t) = first_index-some rv_max_sessions (hosts rv.sessions from) i e in
        let f : is_free (rv.sessions i).phase ≡ false = ground arith in
        elim (Bool-cases (is_running (rv.sessions i).phase)) [
          | inl late ↦ rw (e, late, do_start) (keeps refl refl)
          | inr early ↦
              rw (e, early, do_start)
                (writes i _ h f (starts now m (ground arith) early refl) refl refl)
        ]
  ]

  do_relay-Change : (m : Relay) (buf : List ℕ) → Change from rv (do_relay rv now from m buf).0
  unfolding do_relay
  do_relay-Change m buf = elim (Option-cases (find_session rv.sessions m.session_id)) [
    | inl e ↦ rw (e, do_relay) (keeps refl refl)
    | inr (i, e) ↦
        let (h, f, g, _) = find_session-some rv.sessions m.session_id i e in
        let s = rv.sessions i in
        elim (Bool-cases (leb rv_max_players m.from_slot || leb rv_max_players m.to_slot)) [
          | inl bad ↦ rw (e, bad, do_relay) (keeps refl refl)
          | inr slots ↦
              elim (Bool-cases (
                not (s.peers m.from_slot).used
                || not (ep_eq (s.peers m.from_slot).public_ep from))) [
                  | inl forged ↦ rw (e, slots, forged, do_relay) (keeps refl refl)
                  | inr own ↦ elim (Bool-cases (not (s.peers m.to_slot).used)) [
                    | inl nobody ↦ rw (e, slots, own, nobody, do_relay) (keeps refl refl)
                    | inr member ↦
                        rw (e, slots, own, member, do_relay)
                          (writes i _ h f (relays m.from_slot now (ground arith) refl) refl refl)
                  ]
                ]
        ]
  ]

  open_session-Change :
      (m : HostReq) (i : ℕ)
      → i < rv_max_sessions
      → is_free (rv.sessions i).phase ≡ true
      → Change from rv (open_session rv now from m i).0
  unfolding open_session
  open_session-Change m i h f = elim (Option-cases (pick_id 4096 rv.rng rv.sessions).0) [
    | inl no_id ↦ rw (no_id, open_session) (keeps refl refl)
    | inr (id, e) ↦
        let (nz, fits, fresh) = pick_id-fresh 4096 rv.rng rv.sessions id e in
        rw (e, open_session) (opens i id now m h f nz fits fresh refl refl)
  ]

  do_host_req-Change : (m : HostReq) → Change from rv (do_host_req rv now from m).0
  unfolding do_host_req host_retry
  do_host_req-Change m =
      elim (Option-cases (first_index rv_max_sessions (hosts_lobby rv.sessions from))) [
        | inr (i, e) ↦
            let (h, t) = first_index-some rv_max_sessions (hosts_lobby rv.sessions from) i e in
            let f : is_free (rv.sessions i).phase ≡ false = ground arith in
            rw (e, do_host_req) (writes i _ h f (saw 0 now (ground arith) refl) refl refl)
        | inl e ↦
            elim (Option-cases (first_index rv_max_sessions (λ i. is_free (rv.sessions i).phase))) [
              | inl full ↦ rw (e, full, do_host_req) (keeps refl refl)
              | inr (i, room) ↦
                  let (h, f) =
                    first_index-some rv_max_sessions (λ i. is_free (rv.sessions i).phase) i room in
                  rw (e, room, do_host_req) (open_session-Change m i h f)
            ]
      ]

  join_new-Change :
      (m : JoinReq) (i : ℕ)
      → i < rv_max_sessions
      → is_free (rv.sessions i).phase ≡ false
      → is_lobby (rv.sessions i).phase ≡ true
      → peer_of (rv.sessions i) from ≡ none
      → Change from rv (join_new rv now from m i).0
  unfolding join_new
  join_new-Change m i h f waits stranger =
      let s = rv.sessions i in
      elim (Bool-cases (not (m.net_version == s.net_version))) [
        | inl other ↦ rw other (keeps refl refl)
        | inr same ↦ elim (Bool-cases (leb s.num_players s.joined)) [
          | inl over ↦ rw (same, over) (keeps refl refl)
          | inr room ↦
              elim (Option-cases (first_index rv_max_players (λ k. not (s.peers k).used))) [
                | inl e ↦ rw (same, room, e) (keeps refl refl)
                | inr (slot, e) ↦
                    rw (same, room, e)
                      (writes i _ h f (admits slot now m waits stranger (ground arith) e refl) refl
                        refl)
              ]
        ]
      ]

  do_join_req-Change : (m : JoinReq) → Change from rv (do_join_req rv now from m).0
  unfolding do_join_req join_retry
  do_join_req-Change m = elim (Option-cases (find_session rv.sessions m.session_id)) [
    | inl e ↦ rw (e, do_join_req) (keeps refl refl)
    | inr (i, e) ↦
        let (h, f, g, _) = find_session-some rv.sessions m.session_id i e in
        elim (Bool-cases (is_lobby (rv.sessions i).phase)) [
          | inr late ↦ rw (e, late, do_join_req) (keeps refl refl)
          | inl waits ↦ elim (Option-cases (peer_of (rv.sessions i) from)) [
            | inl q ↦ rw (e, waits, q, do_join_req) (join_new-Change m i h f waits q)
            | inr (p, q) ↦
                rw (e, waits, q, do_join_req)
                  (writes i _ h f (saw p now (peer_of-some (rv.sessions i) from p q) refl) refl
                    refl)
          ]
        ]
  ]

  do_punch_report-Change : (m : PunchReport) → Change from rv (do_punch_report rv now from m).0
  unfolding do_punch_report
  do_punch_report-Change m = elim (Option-cases (find_session rv.sessions m.session_id)) [
    | inl e ↦ rw (e, do_punch_report) (keeps refl refl)
    | inr (i, e) ↦
        let (h, f, g, _) = find_session-some rv.sessions m.session_id i e in
        elim (Option-cases (peer_of (rv.sessions i) from)) [
          | inl q ↦ rw (e, q, do_punch_report) (keeps refl refl)
          | inr (rep, q) ↦
              let own_seat = peer_of-some (rv.sessions i) from rep q in
              let s = rv.sessions i in
              let sa = m.slot_a in
              let sb = m.slot_b in
              let oth = if rep == sa then sb else sa in
              elim (Bool-cases (leb rv_max_players sa || leb rv_max_players sb || sa == sb)) [
                | inl bad ↦ rw (e, q, bad, do_punch_report) (keeps refl refl)
                | inr pair ↦ elim (Bool-cases (not (rep == sa) && not (rep == sb))) [
                  | inl third ↦ rw (e, q, pair, third, do_punch_report) (keeps refl refl)
                  | inr side ↦ elim (Bool-cases (not (s.peers oth).used)) [
                    | inl nobody ↦ rw (e, q, pair, side, nobody, do_punch_report) (keeps refl refl)
                    | inr member ↦
                        rw (e, q, pair, side, member, do_punch_report)
                          (writes i _ h f
                            (reports rep oth now (not (m.ok == 0)) (if ltb sa sb then sa else sb)
                              (if ltb sa sb then sb else sa) own_seat (ground arith) refl)
                            refl refl)
                  ]
                ]
              ]
        ]
  ]

  -- The handlers make no other moves.
  pub dispatch-Change :
      (m : LobbyMsg) (buf : List ℕ) → Change from rv (dispatch rv now from m buf).0
  unfolding dispatch
  dispatch-Change (host_req m) buf = do_host_req-Change m
  dispatch-Change (join_req m) buf = do_join_req-Change m
  dispatch-Change (punch_report m) buf = do_punch_report-Change m
  dispatch-Change (start m) buf = do_start-Change m
  dispatch-Change (start_ack m) buf = do_start_ack-Change m
  dispatch-Change (keepalive m) buf = do_keepalive-Change m
  dispatch-Change (relay m) buf = do_relay-Change m buf
  dispatch-Change _ buf = keeps refl refl
