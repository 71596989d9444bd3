-- ===== src/Client/Ready.antt =====
-- What the match is started from: the result of a client that is READY.
use bmhero_arena.Common.{
  ℕ, ◌<◌, ◌≤◌, ◌≡◌, refl, true, false, List, [], ◌∷◌, sub_u32, arith, ◌||◌, ◌==◌, ltb, Option-cases,
  Bool-cases, inl, inr,
}
use bmhero_arena.Arena.State.{arena_max_players}
use bmhero_arena.Client.{
  lobby_timeout_ms, Stage, registering, joining, waiting_peers, punching, ready, failed, at_stage,
  LobbyClient, ClientPeer, fail_here, fill_result, enter_punching,
}
use bmhero_arena.Lobby.Code.{decode}
use bmhero_arena.Client.Poll.{
  Arrival, drain, drain_max, is_over, retry_duty, waiting_duty, duty_at, host_duty, settle_routes,
  keepalive_duty, poll_duties, poll,
}
use bmhero_arena.Client.Begin.{host_begin, join_begin, client_init}
use bmhero_arena.Client.Deadline.{polls}
use bmhero_arena.Client.Invariant.{Begun, hosts, enters}
use bmhero_arena.Client.Stages.{
  IsUnready, drain-IsUnready, punch_slots-stage, host_duty-stage, fail_here-failed,
}
use bmhero_arena.Client.{is_direct, is_decided, local_routes_decided}
use bmhero_arena.Rendezvous.{no_ep}
use bmhero_arena.Lobby.Proto.{NetRoute, unrouted, direct, relayed}
use bmhero_arena.Common.{◌≢◌, ◌⊎◌, if◌then◌else◌, all_below_sound, ==_ne}

-- The route to player i, as its peer entry has it.
abbrev pub route_to : ClientPeer → NetRoute
route_to p =
    if is_direct p.route
    then record { kind = direct; ep = p.chosen }
    else record { kind = relayed; ep = no_ep }

-- The result is that of the session: the server has decided the route to every other player, the
-- result has these routes and no other, and the START has come.
pub record IsReady (lc : LobbyClient) : Type 0 where
  pub start_seen : lc.start_seen ≡ true
  pub local_slot : lc.result.local_slot ≡ lc.local_slot
  pub num_players : lc.result.num_players ≡ lc.num_players
  pub arena_id : lc.result.arena_id ≡ lc.arena_id
  pub input_delay : lc.result.input_delay ≡ lc.input_delay
  pub session_id : lc.result.session_id ≡ lc.session_id
  pub seed : lc.result.seed ≡ lc.seed
  pub server : lc.result.server ≡ lc.server
  pub decided :
      (i : ℕ) → i < lc.num_players → i ≢ lc.local_slot → is_decided (lc.peer i).route ≡ true
  pub routed :
      (i : ℕ)
      → i < lc.num_players
      → i < arena_max_players
      → i ≢ lc.local_slot
      → lc.result.route i ≡ route_to (lc.peer i)
  pub others :
      (i : ℕ) → (i ≡ lc.local_slot) ⊎ (lc.num_players ≤ i) → (lc.result.route i).kind ≡ unrouted

fill_result-decided :
    (lc : LobbyClient) (i : ℕ)
    → local_routes_decided lc ≡ true
    → i < lc.num_players
    → i ≢ lc.local_slot
    → is_decided (lc.peer i).route ≡ true
unfolding local_routes_decided
fill_result-decided lc i e h ne = ground (
  arith,
  all_below_sound lc.num_players (λ j. j == lc.local_slot || is_decided (lc.peer j).route) i,
  ==_ne i lc.local_slot ne,
)

fill_result-IsReady :
    (lc : LobbyClient)
    → local_routes_decided lc ≡ true
    → lc.start_seen ≡ true
    → IsReady (record (fill_result lc) { stage = ready })
unfolding fill_result
fill_result-IsReady lc e st = record {
  start_seen = st;
  local_slot = refl;
  num_players = refl;
  arena_id = refl;
  input_delay = refl;
  session_id = refl;
  seed = refl;
  server = refl;
  decided = λ i h ne. fill_result-decided lc i e h ne;
  routed = λ i h l ne. ground (arith, ==_ne i lc.local_slot ne);
  others = λ i h. ground arith;
}

settle_routes-ready :
    (lc : LobbyClient)
    → IsUnready lc
    → at_stage (settle_routes lc).stage ready ≡ true
    → (local_routes_decided lc ≡ true)
      × (lc.start_seen ≡ true)
      × (settle_routes lc ≡ record (fill_result lc) { stage = ready })
unfolding settle_routes
settle_routes-ready lc u r = ground arith

settle_routes-IsReady :
    (lc : LobbyClient)
    → IsUnready lc
    → at_stage (settle_routes lc).stage ready ≡ true
    → IsReady (settle_routes lc)
settle_routes-IsReady lc u r =
    let (d, s, e) = settle_routes-ready lc u r in rw e (fill_result-IsReady lc d s)

keepalive_duty-ready :
    (lc : LobbyClient) (now : ℕ)
    → at_stage (keepalive_duty lc now).0.stage ready ≡ true
    → (keepalive_duty lc now).0 ≡ lc
unfolding keepalive_duty
keepalive_duty-ready lc now e = ground arith

duty_at-IsUnready :
    (s : Stage) (lc : LobbyClient) (now : ℕ)
    → lc.stage ≡ s
    → IsUnready lc
    → IsUnready (duty_at s lc now).0
unfolding retry_duty waiting_duty enter_punching fail_here
duty_at-IsUnready registering lc now e u = ground arith
duty_at-IsUnready joining lc now e u = ground arith
duty_at-IsUnready waiting_peers lc now e u = ground arith
duty_at-IsUnready punching lc now e u = ground (arith, punch_slots-stage lc.num_players 0 lc now)
duty_at-IsUnready s lc now e u = u

poll_duties-IsReady :
    (lc : LobbyClient) (now : ℕ)
    → IsUnready lc
    → at_stage (poll_duties lc now).0.stage ready ≡ true
    → IsReady (poll_duties lc now).0
unfolding poll_duties
poll_duties-IsReady lc now u r =
    let a = (duty_at lc.stage lc now).0 in
    let b = (host_duty a now).0 in
    let c = settle_routes b in
    let a_unready = duty_at-IsUnready lc.stage lc now refl u in
    elim (Bool-cases (ltb lobby_timeout_ms (sub_u32 now lc.begin_ms))) [
      | inl late ↦ absurd (ground (arith, fail_here-failed lc))
      | inr early ↦ elim (Bool-cases (at_stage a.stage failed)) [
        | inl e ↦ absurd (ground arith)
        | inr e ↦
            let r' : at_stage (keepalive_duty c now).0.stage ready ≡ true = ground arith in
            let same = keepalive_duty-ready c now r' in
            let c_ready : at_stage c.stage ready ≡ true = rw (← same) r' in
            let b_unready : IsUnready b = ground (arith, host_duty-stage a now) in
            let end : IsReady (keepalive_duty c now).0 =
              rw same (settle_routes-IsReady b b_unready c_ready) in
            rw (early, e, poll_duties) end
      ]
    ]

poll-IsReady :
    (lc : LobbyClient) (now : ℕ) (inbox : List Arrival)
    → (at_stage lc.stage ready ≡ true → IsReady lc)
    → at_stage (poll lc now inbox).0.stage ready ≡ true
    → IsReady (poll lc now inbox).0
unfolding poll
poll-IsReady lc now inbox v r =
    let a = (drain drain_max now lc inbox).0 in
    elim (Bool-cases (is_over lc.stage)) [
      | inl over ↦ let r' : at_stage lc.stage ready ≡ true = ground arith in rw (over, poll) (v r')
      | inr live ↦ elim (Bool-cases (at_stage a.stage failed)) [
        | inl e ↦ absurd (ground arith)
        | inr e ↦
            let u : IsUnready a = drain-IsUnready drain_max now lc inbox (ground arith) in
            let r' : at_stage (poll_duties a now).0.stage ready ≡ true = ground arith in
            rw (live, e, poll) (poll_duties-IsReady a now u r')
      ]
    ]

kept-IsReady :
    (lc : LobbyClient) (es : List (ℕ × List Arrival))
    → (at_stage lc.stage ready ≡ true → IsReady lc)
    → at_stage (polls lc es).stage ready ≡ true
    → IsReady (polls lc es)
kept-IsReady lc [] v = v
kept-IsReady lc ((now, inbox) ∷ es) v =
    kept-IsReady (poll lc now inbox).0 es (poll-IsReady lc now inbox v)

Begun-IsUnready : (lc : LobbyClient) → Begun lc → at_stage lc.stage ready ≡ false
unfolding host_begin join_begin client_init
Begun-IsUnready lc (hosts machine server n seed arena_id input_delay now out e) = ground arith
Begun-IsUnready lc (enters machine text now out e) = elim (Option-cases (decode text)) [
  | inl f ↦ absurd (ground arith)
  | inr ((server, sid), f) ↦ ground arith
]

-- When a client that lobby_host_begin or lobby_join_begin has set up is READY, whatever it heard on
-- the way, it has seen the START, the route to each other player of the lobby is decided, and its
-- result has the parameters of the session and just these routes: direct to the address that it
-- chose, or through the relay, and none to itself or to a slot outside the lobby.
pub polls-IsReady :
    (lc : LobbyClient) (es : List (ℕ × List Arrival))
    → Begun lc
    → at_stage (polls lc es).stage ready ≡ true
    → IsReady (polls lc es)
polls-IsReady lc es b = kept-IsReady lc es (λ r. absurd (ground (arith, Begun-IsUnready lc b)))
