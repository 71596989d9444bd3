-- ===== src/Client/Stages.antt =====
-- The stages that a client of src/netplay/lobby_client.c goes through.
use bmhero_arena.Common.{ℕ, zero, suc, ◌+◌, ◌<◌, ◌≤◌, ◌≡◌, ◌≢◌, ◌∙◌, refl, true, List, arith}
use bmhero_arena.Lobby.Proto.{
  LobbyEndpoint, LobbyMsg, host_resp, join_resp, reject, peer_intro, punch, punch_ack, pair_route,
  start,
}
use bmhero_arena.Client.{
  Stage, registering, joining, waiting_peers, punching, failed, at_stage, stage_rank, LobbyClient,
  set_fail_text, fail_here, enter_punching,
}
use bmhero_arena.Client.Rules.{hear_rule, drain_rule}
use bmhero_arena.Client.Receive.{
  on_host_resp, on_join_resp, on_reject, on_peer_intro, on_punch, on_punch_ack, on_pair_route,
  on_start, receive_msg,
}
use bmhero_arena.Client.Poll.{
  Arrival, hear, drain, drain_max, retry_duty, waiting_duty, punch_slot, punch_slots, duty_at,
  host_duty, settle_routes, keepalive_duty, poll_duties, poll,
}

-- A client keeps its stage, or goes on to a later one from WAITING_PEERS on; READY and FAILED are
-- final.
pub record Moves (s t : Stage) : Type 0 where
  pub forward : stage_rank s ≤ stage_rank t
  pub lands : stage_rank s < stage_rank t → 3 ≤ stage_rank t
  pub final : 6 ≤ stage_rank s → stage_rank t ≡ stage_rank s

Moves-trans : (s t u : Stage) → Moves s t → Moves t u → Moves s u
Moves-trans s t u a b = ground arith

Moves-refl : (s : Stage) → Moves s s
Moves-refl s = ground arith

-- No case of handle_msg moves a client that is READY or FAILED.
receive_msg-Moves :
    (lc : LobbyClient) (now : ℕ) (from : LobbyEndpoint) (m : LobbyMsg)
    → Moves lc.stage (receive_msg lc now from m).0.stage
unfolding receive_msg on_host_resp on_join_resp on_reject on_peer_intro on_punch on_punch_ack
    on_pair_route on_start set_fail_text
receive_msg-Moves lc now from (host_resp id) = ground arith
receive_msg-Moves lc now from (join_resp m) = ground arith
receive_msg-Moves lc now from (reject r) = ground arith
receive_msg-Moves lc now from (peer_intro m) = ground arith
receive_msg-Moves lc now from (punch m) = ground arith
receive_msg-Moves lc now from (punch_ack m) = ground arith
receive_msg-Moves lc now from (pair_route m) = ground arith
receive_msg-Moves lc now from (start m) = ground arith
receive_msg-Moves lc now from m = ground arith

hear-Moves : (lc : LobbyClient) (now : ℕ) (d : Arrival) → Moves lc.stage (hear lc now d).0.stage
hear-Moves lc now d =
    hear_rule (λ r. Moves lc.stage r.0.stage) lc now d (Moves-refl lc.stage)
      (receive_msg-Moves lc now d.from)

drain-Moves :
    (n now : ℕ) (lc : LobbyClient) (inbox : List Arrival)
    → Moves lc.stage (drain n now lc inbox).0.stage
drain-Moves n now lc inbox =
    drain_rule now (λ a b. Moves a.stage b.stage) (λ a. Moves-refl a.stage)
      (λ a b c. Moves-trans a.stage b.stage c.stage) (λ a d. hear-Moves a now d) n lc inbox

-- No message makes a client READY.
abbrev pub IsUnready : LobbyClient → Type 0
IsUnready lc = stage_rank lc.stage ≢ 6

receive_msg-IsUnready :
    (lc : LobbyClient) (now : ℕ) (from : LobbyEndpoint) (m : LobbyMsg)
    → IsUnready lc
    → IsUnready (receive_msg lc now from m).0
unfolding receive_msg on_host_resp on_join_resp on_reject on_peer_intro on_punch on_punch_ack
    on_pair_route on_start set_fail_text
receive_msg-IsUnready lc now from (host_resp id) h = ground arith
receive_msg-IsUnready lc now from (join_resp m) h = ground arith
receive_msg-IsUnready lc now from (reject r) h = ground arith
receive_msg-IsUnready lc now from (peer_intro m) h = ground arith
receive_msg-IsUnready lc now from (punch m) h = ground arith
receive_msg-IsUnready lc now from (punch_ack m) h = ground arith
receive_msg-IsUnready lc now from (pair_route m) h = ground arith
receive_msg-IsUnready lc now from (start m) h = ground arith
receive_msg-IsUnready lc now from m h = ground arith

pub drain-IsUnready :
    (n now : ℕ) (lc : LobbyClient) (inbox : List Arrival)
    → IsUnready lc
    → IsUnready (drain n now lc inbox).0
drain-IsUnready n now lc inbox =
    drain_rule now (λ a b. IsUnready a → IsUnready b) (λ a h. h) (λ a b c f g h. g (f h))
      (λ a d h.
        hear_rule (λ r. IsUnready r.0) a now d h (λ m. receive_msg-IsUnready a now d.from m h))
      n lc inbox

pub fail_here-failed : (lc : LobbyClient) → at_stage (fail_here lc).stage failed ≡ true
unfolding fail_here
fail_here-failed lc = refl

fail_here-Moves : (lc : LobbyClient) → stage_rank lc.stage < 6 → Moves lc.stage (fail_here lc).stage
unfolding fail_here
fail_here-Moves lc h = ground arith

punch_slot-stage : (lc : LobbyClient) (now i : ℕ) → (punch_slot lc now i).0.stage ≡ lc.stage
unfolding punch_slot
punch_slot-stage lc now i = ground arith

pub punch_slots-stage :
    (n i : ℕ) (lc : LobbyClient) (now : ℕ) → (punch_slots n i lc now).0.stage ≡ lc.stage
unfolding punch_slots
punch_slots-stage zero i lc now = refl
punch_slots-stage (suc n) i lc now =
    punch_slots-stage n (i + 1) (punch_slot lc now i).0 now ∙ punch_slot-stage lc now i

duty_at-Moves :
    (s : Stage) (lc : LobbyClient) (now : ℕ) → lc.stage ≡ s → Moves s (duty_at s lc now).0.stage
unfolding retry_duty waiting_duty enter_punching fail_here
duty_at-Moves registering lc now e = ground arith
duty_at-Moves joining lc now e = ground arith
duty_at-Moves waiting_peers lc now e = ground arith
duty_at-Moves punching lc now e = ground (arith, punch_slots-stage lc.num_players 0 lc now)
duty_at-Moves s lc now e = rw e (Moves-refl s)

pub host_duty-stage : (lc : LobbyClient) (now : ℕ) → (host_duty lc now).0.stage ≡ lc.stage
unfolding host_duty
host_duty-stage lc now = ground arith

settle_routes-Moves : (lc : LobbyClient) → Moves lc.stage (settle_routes lc).stage
unfolding settle_routes
settle_routes-Moves lc = ground arith

keepalive_duty-stage : (lc : LobbyClient) (now : ℕ) → (keepalive_duty lc now).0.stage ≡ lc.stage
unfolding keepalive_duty
keepalive_duty-stage lc now = ground arith

poll_duties-Moves :
    (lc : LobbyClient) (now : ℕ)
    → stage_rank lc.stage < 6
    → Moves lc.stage (poll_duties lc now).0.stage
unfolding poll_duties
poll_duties-Moves lc now h =
    let a = (duty_at lc.stage lc now).0 in
    let b = (host_duty a now).0 in
    ground (
      arith,
      fail_here-Moves lc h,
      duty_at-Moves lc.stage lc now refl,
      host_duty-stage a now,
      settle_routes-Moves b,
      keepalive_duty-stage (settle_routes b) now,
    )

-- lobby_poll moves a client only forward: it keeps the stage or goes to a later one, never back to
-- IDLE, REGISTERING or JOINING, and READY and FAILED are final.
pub poll-Moves :
    (lc : LobbyClient) (now : ℕ) (inbox : List Arrival) → Moves lc.stage (poll lc now inbox).0.stage
unfolding poll
poll-Moves lc now inbox =
    let a = (drain drain_max now lc inbox).0 in
    ground (
      arith,
      drain-Moves drain_max now lc inbox,
      drain-IsUnready drain_max now lc inbox,
      poll_duties-Moves a now,
    )
