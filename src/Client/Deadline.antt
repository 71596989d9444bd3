-- ===== src/Client/Deadline.antt =====
-- What lobby_poll never changes, and the deadline that covers every stage.
use bmhero_arena.Common.{
  ℕ, zero, suc, ◌+◌, ◌<◌, ◌≤◌, ◌≡◌, refl, true, false, List, [], ◌∷◌, sub_u32, arith, Bool-cases,
  inl, inr,
}
use bmhero_arena.Lobby.Proto.{
  LobbyEndpoint, LobbyMsg, host_resp, join_resp, reject, peer_intro, punch, punch_ack, pair_route,
  start,
}
use bmhero_arena.Client.{
  lobby_timeout_ms, Stage, idle, registering, joining, waiting_peers, punching, awaiting_start,
  ready, failed, at_stage, stage_rank, stage_name, LobbyClient, append_text, set_fail_text,
  fail_here, enter_punching,
}
use bmhero_arena.Client.Receive.{
  on_host_resp, on_join_resp, on_reject, on_peer_intro, on_punch, on_punch_ack, on_pair_route,
  on_start, receive_msg,
}
use bmhero_arena.Client.Rules.{hear_rule, drain_rule}
use bmhero_arena.Client.Poll.{
  Arrival, drain, drain_max, is_over, retry_duty, waiting_duty, punch_slot, punch_slots, duty_at,
  host_duty, settle_routes, keepalive_duty, poll_duties, poll,
}
use bmhero_arena.Client.Stages.{poll-Moves}

-- What is settled when a client begins.
pub record Keeps (a b : LobbyClient) : Type 0 where
  pub begin_ms : b.begin_ms ≡ a.begin_ms
  pub is_host : b.is_host ≡ a.is_host
  pub server : b.server ≡ a.server
  pub net_ver : b.net_ver ≡ a.net_ver
  pub private_ep : b.private_ep ≡ a.private_ep
  pub forced_relay : b.forced_relay ≡ a.forced_relay

Keeps-refl : (a : LobbyClient) → Keeps a a
Keeps-refl a = ground arith

Keeps-trans : (a b c : LobbyClient) → Keeps a b → Keeps b c → Keeps a c
Keeps-trans a b c f g = ground arith

receive_msg-Keeps :
    (lc : LobbyClient) (now : ℕ) (from : LobbyEndpoint) (m : LobbyMsg)
    → Keeps lc (receive_msg lc now from m).0
unfolding receive_msg on_host_resp on_join_resp on_reject on_peer_intro on_punch on_punch_ack
    on_pair_route on_start set_fail_text
receive_msg-Keeps lc now from (host_resp id) = ground arith
receive_msg-Keeps lc now from (join_resp m) = ground arith
receive_msg-Keeps lc now from (reject r) = ground arith
receive_msg-Keeps lc now from (peer_intro m) = ground arith
receive_msg-Keeps lc now from (punch m) = ground arith
receive_msg-Keeps lc now from (punch_ack m) = ground arith
receive_msg-Keeps lc now from (pair_route m) = ground arith
receive_msg-Keeps lc now from (start m) = ground arith
receive_msg-Keeps lc now from m = Keeps-refl lc

drain-Keeps :
    (n now : ℕ) (lc : LobbyClient) (inbox : List Arrival) → Keeps lc (drain n now lc inbox).0
drain-Keeps n now lc inbox =
    drain_rule now Keeps Keeps-refl Keeps-trans
      (λ a d. hear_rule (λ r. Keeps a r.0) a now d (Keeps-refl a) (receive_msg-Keeps a now d.from))
      n lc inbox

fail_here-Keeps : (lc : LobbyClient) → Keeps lc (fail_here lc)
unfolding fail_here
fail_here-Keeps lc = ground arith

punch_slot-Keeps : (lc : LobbyClient) (now i : ℕ) → Keeps lc (punch_slot lc now i).0
unfolding punch_slot
punch_slot-Keeps lc now i = ground arith

punch_slots-Keeps : (n i : ℕ) (lc : LobbyClient) (now : ℕ) → Keeps lc (punch_slots n i lc now).0
unfolding punch_slots
punch_slots-Keeps zero i lc now = Keeps-refl lc
punch_slots-Keeps (suc n) i lc now =
    let a = (punch_slot lc now i).0 in
    Keeps-trans lc a _ (punch_slot-Keeps lc now i) (punch_slots-Keeps n (i + 1) a now)

duty_at-Keeps : (s : Stage) (lc : LobbyClient) (now : ℕ) → Keeps lc (duty_at s lc now).0
unfolding retry_duty waiting_duty enter_punching fail_here
duty_at-Keeps registering lc now = ground arith
duty_at-Keeps joining lc now = ground arith
duty_at-Keeps waiting_peers lc now = ground arith
duty_at-Keeps punching lc now = punch_slots-Keeps lc.num_players 0 lc now
duty_at-Keeps s lc now = Keeps-refl lc

host_duty-Keeps : (lc : LobbyClient) (now : ℕ) → Keeps lc (host_duty lc now).0
unfolding host_duty
host_duty-Keeps lc now = ground arith

settle_routes-Keeps : (lc : LobbyClient) → Keeps lc (settle_routes lc)
unfolding settle_routes
settle_routes-Keeps lc = ground arith

keepalive_duty-Keeps : (lc : LobbyClient) (now : ℕ) → Keeps lc (keepalive_duty lc now).0
unfolding keepalive_duty
keepalive_duty-Keeps lc now = ground arith

poll_duties-Keeps : (lc : LobbyClient) (now : ℕ) → Keeps lc (poll_duties lc now).0
unfolding poll_duties
poll_duties-Keeps lc now =
    let a = (duty_at lc.stage lc now).0 in
    let b = (host_duty a now).0 in
    ground (
      arith,
      fail_here-Keeps lc,
      duty_at-Keeps lc.stage lc now,
      host_duty-Keeps a now,
      settle_routes-Keeps b,
      keepalive_duty-Keeps (settle_routes b) now,
    )

pub poll-Keeps :
    (lc : LobbyClient) (now : ℕ) (inbox : List Arrival) → Keeps lc (poll lc now inbox).0
unfolding poll
poll-Keeps lc now inbox =
    let a = (drain drain_max now lc inbox).0 in
    ground (arith, drain-Keeps drain_max now lc inbox, poll_duties-Keeps a now)

-- The polls of a client, with the time of each and what the socket then holds. What a poll leaves
-- in the socket is part of what the next one finds.
abbrev pub polls : LobbyClient → List (ℕ × List Arrival) → LobbyClient
polls lc [] = lc
polls lc ((now, inbox) ∷ es) = polls (poll lc now inbox).0 es

pub polls-Keeps : (lc : LobbyClient) (es : List (ℕ × List Arrival)) → Keeps lc (polls lc es)
polls-Keeps lc [] = Keeps-refl lc
polls-Keeps lc ((now, inbox) ∷ es) =
    let a = (poll lc now inbox).0 in Keeps-trans lc a _ (poll-Keeps lc now inbox) (polls-Keeps a es)

polls_begun :
    (lc : LobbyClient) (es : List (ℕ × List Arrival))
    → 0 < stage_rank lc.stage
    → 0 < stage_rank (polls lc es).stage
polls_begun lc [] h = h
polls_begun lc ((now, inbox) ∷ es) h =
    polls_begun (poll lc now inbox).0 es (ground (arith, poll-Moves lc now inbox))

-- No name of a stage is cut off.
stage_name_fits : (s : Stage) → append_text (append_text [] (stage_name s)) [] ≡ stage_name s
unfolding append_text
stage_name_fits idle = refl
stage_name_fits registering = refl
stage_name_fits joining = refl
stage_name_fits waiting_peers = refl
stage_name_fits punching = refl
stage_name_fits awaiting_start = refl
stage_name_fits ready = refl
stage_name_fits failed = refl

poll_late :
    (lc : LobbyClient) (now : ℕ) (inbox : List Arrival)
    → is_over lc.stage ≡ false
    → lobby_timeout_ms < sub_u32 now lc.begin_ms
    → let a = (drain drain_max now lc inbox).0 in
      let b = (poll lc now inbox).0 in
      (at_stage b.stage failed ≡ true)
      × (at_stage a.stage failed ≡ false → b.fail_stage ≡ stage_name a.stage)
unfolding poll poll_duties fail_here
poll_late lc now inbox live late =
    let a = (drain drain_max now lc inbox).0 in
    ground (arith, drain-Keeps drain_max now lc inbox, stage_name_fits a.stage)

-- However a client that has begun was polled before, a poll more than thirty seconds after it began
-- finds it READY or FAILED or makes it FAILED; unless a message made it fail, the text then names
-- the stage it was in.
pub polls_deadline :
    (lc : LobbyClient) (es : List (ℕ × List Arrival)) (now : ℕ) (inbox : List Arrival)
    → 0 < stage_rank lc.stage
    → lobby_timeout_ms < sub_u32 now lc.begin_ms
    → let a = polls lc es in
      let b = (poll a now inbox).0 in
      let c = (drain drain_max now a inbox).0 in
      (6 ≤ stage_rank b.stage)
      × (stage_rank a.stage < 6
          → (at_stage b.stage failed ≡ true)
            × (at_stage c.stage failed ≡ false → b.fail_stage ≡ stage_name c.stage))
polls_deadline lc es now inbox begun late =
    let a = polls lc es in
    let past : lobby_timeout_ms < sub_u32 now a.begin_ms = rw (polls-Keeps lc es).begin_ms late in
    let b_ge = poll-Moves a now inbox in
    elim (Bool-cases (is_over a.stage)) [
      | inl over ↦ (
        ground (arith, b_ge, polls_begun lc es begun),
        λ h. absurd (ground (arith, polls_begun lc es begun)),
      )
      | inr live ↦ let r = poll_late a now inbox live past in (ground (arith, r), λ h. r)
    ]
