-- ===== src/Client/Invariant.antt =====
-- The bounds that a client keeps from lobby_host_begin or lobby_join_begin on.
use bmhero_arena.Common.{
  ℕ, zero, suc, ◌+◌, ◌<◌, ◌≤◌, ◌≡◌, refl, Bool, true, false, List, [], ◌∷◌, ◌++◌, sub_u32, arith,
  not, ◌&&◌, ◌||◌, ◌==◌, Array, leb, u8, length, length-append, ltb, some, Option-cases, Bool-cases,
  inl, inr,
}
use bmhero_arena.Lobby.Proto.{
  LobbyEndpoint, LobbyMsg, PairRoute, route_relay, host_resp, join_resp, reject, peer_intro, punch,
  punch_ack, pair_route, start,
}
use bmhero_arena.Arena.State.{arena_max_players}
use bmhero_arena.Client.{
  lobby_retry_ms, lobby_retry_max, fail_stage_size, codes, reject_name, lobby_timeout_ms, Stage,
  registering, joining, waiting_peers, punching, failed, at_stage, stage_rank, stage_name,
  LobbyClient, ClientPeer, append_text, set_fail_text, fail_here, enter_punching,
}
use bmhero_arena.Client.Receive.{
  on_host_resp, on_join_resp, on_reject, on_peer_intro, on_punch, on_punch_ack, on_pair_route,
  on_start, receive_msg,
}
use bmhero_arena.Lobby.Code.{decode}
use bmhero_arena.Rendezvous.{Datagram}
use bmhero_arena.Client.Rules.{hear_rule, drain_rule}
use bmhero_arena.Client.Poll.{
  Arrival, drain, drain_max, is_over, retry_duty, waiting_duty, punch_slot, punch_slots, duty_at,
  host_duty, settle_routes, keepalive_duty, poll_duties, poll,
}
use bmhero_arena.Client.Begin.{Machine, host_begin, join_begin, client_init}
use bmhero_arena.Client.Deadline.{polls}

-- Every index that the code forms is below the four slots, the lobby of a client that has got in has
-- two to four players, and the host sits at slot 0.
pub record IsClient (lc : LobbyClient) : Type 0 where
  pub slot_in_range : lc.local_slot < arena_max_players
  pub players_in_range : lc.num_players ≤ arena_max_players
  pub host_slot : lc.is_host ≡ true → lc.local_slot ≡ 0
  pub host_players : lc.is_host ≡ true → 2 ≤ lc.num_players
  pub registers : stage_rank lc.stage ≡ 1 → lc.is_host ≡ true
  pub joins : stage_rank lc.stage ≡ 2 → lc.is_host ≡ false
  pub lobby_players : 3 ≤ stage_rank lc.stage → stage_rank lc.stage ≤ 6 → 2 ≤ lc.num_players
  pub host_session :
      lc.is_host ≡ true → 3 ≤ stage_rank lc.stage → stage_rank lc.stage ≤ 6 → 0 < lc.session_id
  pub retries_bound : stage_rank lc.stage < 7 → lc.retries ≤ lobby_retry_max
  pub text_fits : length lc.fail_stage < fail_stage_size

append_text-fits :
    (out cs : List ℕ) → length out < fail_stage_size → length (append_text out cs) < fail_stage_size
unfolding append_text
append_text-fits out [] h = h
append_text-fits out (c ∷ cs) h =
    ground (arith, length-append out (c ∷ []), append_text-fits (out ++ (c ∷ [])) cs)

texts_fit : (a b : List ℕ) → length (append_text (append_text [] a) b) < fail_stage_size
texts_fit a b = append_text-fits (append_text [] a) b (append_text-fits [] a (omega arith))

fail_text-IsClient :
    (lc : LobbyClient) (a b : List ℕ)
    → IsClient lc
    → IsClient (record (set_fail_text lc a b) { stage = failed })
unfolding set_fail_text
fail_text-IsClient lc a b v = ground (arith, texts_fit a b)

on_reject-IsClient : (lc : LobbyClient) (r : ℕ) → IsClient lc → IsClient (on_reject lc r)
unfolding on_reject
on_reject-IsClient lc r v =
    elim (Bool-cases (not (at_stage lc.stage joining) && not (at_stage lc.stage registering))) [
      | inl e ↦ rw (e, on_reject) v
      | inr e ↦ rw (e, on_reject) (fail_text-IsClient lc (codes "REJECTED:") (reject_name r) v)
    ]

-- The routes and the peers are not bounded.
frame-IsClient :
    (lc : LobbyClient) (k : Array (Array Bool)) (p : Array ClientPeer)
    → IsClient lc
    → IsClient (record lc { route_known = k; peer = p })
frame-IsClient lc k p v = ground arith

on_pair_route-IsClient :
    (lc : LobbyClient) (m : PairRoute) → IsClient lc → IsClient (on_pair_route lc m)
unfolding on_pair_route
on_pair_route-IsClient lc m v =
    let a = m.slot_a in
    let b = m.slot_b in
    elim (Bool-cases (leb arena_max_players a || leb arena_max_players b || a == b)) [
      | inl e ↦ rw (e, on_pair_route) v
      | inr e ↦ elim (Bool-cases (ltb route_relay m.route)) [
        | inl f ↦ rw (e, f, on_pair_route) v
        | inr f ↦ elim (Bool-cases (a == lc.local_slot)) [
          | inl g ↦ elim (Bool-cases (b == lc.local_slot)) [
            | inl h ↦ rw (e, f, g, h, on_pair_route) (frame-IsClient lc _ _ v)
            | inr h ↦ rw (e, f, g, h, on_pair_route) (frame-IsClient lc _ _ v)
          ]
          | inr g ↦ elim (Bool-cases (b == lc.local_slot)) [
            | inl h ↦ rw (e, f, g, h, on_pair_route) (frame-IsClient lc _ _ v)
            | inr h ↦ rw (e, f, g, h, on_pair_route) (frame-IsClient lc _ _ v)
          ]
        ]
      ]
    ]

receive_msg-IsClient :
    (lc : LobbyClient) (now : ℕ) (from : LobbyEndpoint) (m : LobbyMsg)
    → IsClient lc
    → IsClient (receive_msg lc now from m).0
unfolding receive_msg on_host_resp on_join_resp on_reject on_peer_intro on_punch on_punch_ack
    on_pair_route on_start set_fail_text
receive_msg-IsClient lc now from (host_resp id) v = ground arith
receive_msg-IsClient lc now from (join_resp m) v = ground arith
receive_msg-IsClient lc now from (reject r) v = on_reject-IsClient lc r v
receive_msg-IsClient lc now from (peer_intro m) v = ground arith
receive_msg-IsClient lc now from (punch m) v = ground arith
receive_msg-IsClient lc now from (punch_ack m) v = ground arith
receive_msg-IsClient lc now from (pair_route m) v = on_pair_route-IsClient lc m v
receive_msg-IsClient lc now from (start m) v = ground (arith, texts_fit (codes "START_ECHO") [])
receive_msg-IsClient lc now from m v = v

drain-IsClient :
    (n now : ℕ) (lc : LobbyClient) (inbox : List Arrival)
    → IsClient lc
    → IsClient (drain n now lc inbox).0
drain-IsClient n now lc inbox =
    drain_rule now (λ a b. IsClient a → IsClient b) (λ a v. v) (λ a b c f g v. g (f v))
      (λ a d v.
        hear_rule (λ r. IsClient r.0) a now d v (λ m. receive_msg-IsClient a now d.from m v))
      n lc inbox

fail_here-IsClient : (lc : LobbyClient) → IsClient lc → IsClient (fail_here lc)
unfolding fail_here
fail_here-IsClient lc v = ground (arith, texts_fit (stage_name lc.stage) [])

punch_slot-IsClient :
    (lc : LobbyClient) (now i : ℕ) → IsClient lc → IsClient (punch_slot lc now i).0
unfolding punch_slot
punch_slot-IsClient lc now i v = ground arith

punch_slots-IsClient :
    (n i : ℕ) (lc : LobbyClient) (now : ℕ) → IsClient lc → IsClient (punch_slots n i lc now).0
unfolding punch_slots
punch_slots-IsClient zero i lc now v = v
punch_slots-IsClient (suc n) i lc now v =
    punch_slots-IsClient n (i + 1) (punch_slot lc now i).0 now (punch_slot-IsClient lc now i v)

retries_over-IsClient :
    (lc : LobbyClient) (now k : ℕ)
    → IsClient lc
    → IsClient (fail_here (record lc { last_send_ms = now; retries = k }))
unfolding fail_here set_fail_text
retries_over-IsClient lc now k v = ground (arith, texts_fit (stage_name lc.stage) [])

retry_duty-IsClient : (lc : LobbyClient) (now : ℕ) → IsClient lc → IsClient (retry_duty lc now).0
unfolding retry_duty
retry_duty-IsClient lc now v =
    let k = u8 (lc.retries + 1) in
    elim (Bool-cases (leb lobby_retry_ms (sub_u32 now lc.last_send_ms))) [
      | inr e ↦ rw (e, retry_duty) v
      | inl e ↦ elim (Bool-cases (ltb lobby_retry_max k)) [
        | inl f ↦ rw (e, f, retry_duty) (retries_over-IsClient lc now k v)
        | inr f ↦ rw (e, f, retry_duty) (ground arith)
      ]
    ]

waiting_duty-IsClient :
    (lc : LobbyClient) (now : ℕ)
    → stage_rank lc.stage ≡ 3
    → IsClient lc
    → IsClient (waiting_duty lc now).0
unfolding waiting_duty enter_punching
waiting_duty-IsClient lc now e v = ground arith

duty_at-IsClient :
    (s : Stage) (lc : LobbyClient) (now : ℕ)
    → lc.stage ≡ s
    → IsClient lc
    → IsClient (duty_at s lc now).0
duty_at-IsClient registering lc now e v = retry_duty-IsClient lc now v
duty_at-IsClient joining lc now e v = retry_duty-IsClient lc now v
duty_at-IsClient waiting_peers lc now e v = waiting_duty-IsClient lc now (rw e refl) v
duty_at-IsClient punching lc now e v = punch_slots-IsClient lc.num_players 0 lc now v
duty_at-IsClient s lc now e v = v

host_duty-IsClient : (lc : LobbyClient) (now : ℕ) → IsClient lc → IsClient (host_duty lc now).0
unfolding host_duty
host_duty-IsClient lc now v = ground arith

settle_routes-IsClient : (lc : LobbyClient) → IsClient lc → IsClient (settle_routes lc)
unfolding settle_routes
settle_routes-IsClient lc v = ground arith

keepalive_duty-IsClient :
    (lc : LobbyClient) (now : ℕ) → IsClient lc → IsClient (keepalive_duty lc now).0
unfolding keepalive_duty
keepalive_duty-IsClient lc now v = ground arith

poll_duties-IsClient : (lc : LobbyClient) (now : ℕ) → IsClient lc → IsClient (poll_duties lc now).0
unfolding poll_duties
poll_duties-IsClient lc now v =
    let a = (duty_at lc.stage lc now).0 in
    let b = (host_duty a now).0 in
    let a_ok = duty_at-IsClient lc.stage lc now refl v in
    let c_ok =
      keepalive_duty-IsClient (settle_routes b) now
        (settle_routes-IsClient b (host_duty-IsClient a now a_ok)) in
    elim (Bool-cases (ltb lobby_timeout_ms (sub_u32 now lc.begin_ms))) [
      | inl late ↦ rw (late, poll_duties) (fail_here-IsClient lc v)
      | inr early ↦ elim (Bool-cases (at_stage a.stage failed)) [
        | inl e ↦ rw (early, e, poll_duties) a_ok
        | inr e ↦ rw (early, e, poll_duties) c_ok
      ]
    ]

pub poll-IsClient :
    (lc : LobbyClient) (now : ℕ) (inbox : List Arrival)
    → IsClient lc
    → IsClient (poll lc now inbox).0
unfolding poll
poll-IsClient lc now inbox v =
    let a = (drain drain_max now lc inbox).0 in
    let a_ok = drain-IsClient drain_max now lc inbox v in
    elim (Bool-cases (is_over lc.stage)) [
      | inl over ↦ rw (over, poll) v
      | inr live ↦ elim (Bool-cases (at_stage a.stage failed)) [
        | inl e ↦ rw (live, e, poll) a_ok
        | inr e ↦ rw (live, e, poll) (poll_duties-IsClient a now a_ok)
      ]
    ]

kept-IsClient :
    (lc : LobbyClient) (es : List (ℕ × List Arrival)) → IsClient lc → IsClient (polls lc es)
kept-IsClient lc [] v = v
kept-IsClient lc ((now, inbox) ∷ es) v =
    kept-IsClient (poll lc now inbox).0 es (poll-IsClient lc now inbox v)

-- A client that lobby_host_begin or lobby_join_begin has set up.
pub data Begun (lc : LobbyClient) : Type 0 where
  hosts :
      (machine : Machine) (server : LobbyEndpoint) (n seed arena_id input_delay now : ℕ)
      (out : List Datagram)
      → host_begin machine server n seed arena_id input_delay now ≡ some (lc, out)
      → Begun lc
  enters :
      (machine : Machine) (text : List ℕ) (now : ℕ) (out : List Datagram)
      → join_begin machine text now ≡ some (lc, out)
      → Begun lc

Begun-IsClient : (lc : LobbyClient) → Begun lc → IsClient lc
unfolding host_begin join_begin client_init
Begun-IsClient lc (hosts machine server n seed arena_id input_delay now out e) = ground arith
Begun-IsClient lc (enters machine text now out e) = elim (Option-cases (decode text)) [
  | inl f ↦ absurd (ground arith)
  | inr ((server, sid), f) ↦ ground arith
]

-- Whatever a client that lobby_host_begin or lobby_join_begin has set up hears, and whenever it is
-- polled, it keeps the bounds: its slot is below 4, a lobby that it is in has two to four players,
-- the host sits at slot 0 of a session with an id, at most ten retries are counted before it fails,
-- and the text of a failure fits its buffer.
pub polls-IsClient :
    (lc : LobbyClient) (es : List (ℕ × List Arrival)) → Begun lc → IsClient (polls lc es)
polls-IsClient lc es b = kept-IsClient lc es (Begun-IsClient lc b)
