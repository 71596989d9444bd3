-- ===== src/Adapter.antt =====
-- The network adapter of src/netplay/net_adapter.h and .c: the one static state `g`, impairment,
-- the delay queue and the ring of lobby packets. A function that sends returns the datagrams that
-- it would hand to udp_send, in order. The delay queue is the list of its first dq_n entries; a
-- slot of the ring holds its bytes, whose number is lobbyq_len.
pub mod Traffic
pub mod Ring
pub mod Delay
pub mod Delivery
pub mod Receiving
pub mod Tests
use bmhero_arena.Common.{
  ℕ, ◌+◌, ◌-◌, ◌*◌, ◌%◌, ◌^◌, Bool, true, false, not, ◌&&◌, ◌||◌, Option, none, some, List, [], ◌∷◌,
  ◌++◌, ltb, leb, ◌==◌, if◌then◌else◌, length, Array, update, sub_u32, u32, xorshift32,
}
use bmhero_arena.Lobby.Proto.{LobbyEndpoint, NetRoute, NetRouteKind, unrouted}
use bmhero_arena.Arena.State.{arena_max_players}
use bmhero_arena.Rendezvous.{Datagram, no_ep}
use bmhero_arena.Client.Poll.{Arrival}

abbrev pub na_delay_queue : ℕ
na_delay_queue = 512

abbrev pub na_lobby_ring : ℕ
na_lobby_ring = 16

abbrev pub na_max_results : ℕ
na_max_results = 64

-- NetImpairment
pub record Impairment : Type 0 where
  pub seed : ℕ
  pub delay_ms : ℕ
  pub jitter_ms : ℕ
  pub loss_pct : ℕ
  pub reorder_pct : ℕ

pub record DelayedPkt : Type 0 where
  pub due_ms : ℕ
  pub to : LobbyEndpoint
  pub buf : List ℕ

-- lobbyq_from, lobbyq and lobbyq_len of an index are an Arrival.
pub record Adapter : Type 0 where
  pub active : Bool
  pub session_id : ℕ
  pub local_slot : ℕ
  pub route : Array NetRoute
  pub relay : LobbyEndpoint
  pub imp : Impairment
  pub imp_on : Bool
  pub imp_rng : ℕ
  pub dq : List DelayedPkt
  pub lobbyq : Array Arrival
  pub lobbyq_head : ℕ
  pub lobbyq_count : ℕ
  pub drop_count : ℕ
  pub loss_count : ℕ
  pub overflow_count : ℕ

-- The adapter, and what it has handed to the socket.
abbrev pub Out : Type 0
Out = Adapter × List Datagram

abbrev pub no_route : NetRoute
no_route = record { kind = unrouted; ep = no_ep }

-- memset(&g, 0, sizeof g), which is net_adapter_shutdown.
abbrev pub zeroed : Adapter
zeroed = record {
  active = false;
  session_id = 0;
  local_slot = 0;
  route = λ i. no_route;
  relay = no_ep;
  imp = record { seed = 0; delay_ms = 0; jitter_ms = 0; loss_pct = 0; reorder_pct = 0 };
  imp_on = false;
  imp_rng = 0;
  dq = [];
  lobbyq = λ i. record { from = no_ep; bytes = [] };
  lobbyq_head = 0;
  lobbyq_count = 0;
  drop_count = 0;
  loss_count = 0;
  overflow_count = 0;
}

-- na_rand: the number is the new state.
abbrev pub na_rand : ℕ → ℕ
na_rand r = xorshift32 (if r == 0 then 1 else r)

abbrev pub datagram : LobbyEndpoint → List ℕ → List Datagram
datagram to buf = record { to = to; bytes = buf } ∷ []

-- The delay of a packet, and the random state: the jitter draws a number only if there is one.
abbrev pub draw_delay : Impairment → ℕ → ℕ × ℕ
draw_delay imp r =
    if imp.jitter_ms == 0
    then (imp.delay_ms, r)
    else (let r' = na_rand r in
        let d = imp.delay_ms + r' % (2 * imp.jitter_ms + 1) in
        ((if ltb d imp.jitter_ms then 0 else d - imp.jitter_ms), r'))

-- The packet before the last one leaves a millisecond later.
unfoldable pub hold_back : List DelayedPkt → List DelayedPkt
hold_back [] = []
hold_back (p ∷ []) = p ∷ []
hold_back (p ∷ q ∷ []) = record p { due_ms = u32 (p.due_ms + 1) } ∷ q ∷ []
hold_back (p ∷ q ∷ r ∷ ps) = p ∷ hold_back (q ∷ r ∷ ps)

-- The end of impaired_send: the packet is parked.
unfoldable pub park : Adapter → ℕ → ℕ → Bool → LobbyEndpoint → List ℕ → Adapter
park g now d reorder to buf =
    let dq = g.dq ++ (record { due_ms = u32 (now + d); to = to; buf = buf } ∷ []) in
    record g { dq = if reorder then hold_back dq else dq }

-- impaired_send, at the time that udp_now_ms gives.
unfoldable pub impaired_send : Adapter → ℕ → LobbyEndpoint → List ℕ → Out
impaired_send g now to buf =
    if not g.imp_on
    then (g, datagram to buf)
    else (let r = na_rand g.imp_rng in
        if ltb (r % 100) g.imp.loss_pct
        then (record g { imp_rng = r; loss_count = u32 (g.loss_count + 1) }, [])
        else (let (d, r') = draw_delay g.imp r in
            let r'' = na_rand r' in
            let g' = record g { imp_rng = r'' } in
            if d == 0
            then (g', datagram to buf)
            else if leb na_delay_queue (length g.dq)
            then (record g' { overflow_count = u32 (g.overflow_count + 1) }, datagram to buf)
            else (park g' now d (ltb (r'' % 100) g.imp.reorder_pct) to buf, [])))

-- The signed difference of the clocks is not negative.
abbrev pub is_due : ℕ → DelayedPkt → Bool
is_due now p = ltb (sub_u32 now p.due_ms) (2 ^ 31)

-- The loop of flush_due: what leaves, and what stays.
unfoldable pub flush : ℕ → List DelayedPkt → List Datagram × List DelayedPkt
flush now [] = ([], [])
flush now (p ∷ ps) =
    let (sent, kept) = flush now ps in
    if is_due now p then (record { to = p.to; bytes = p.buf } ∷ sent, kept) else (sent, p ∷ kept)

unfoldable pub flush_due : Adapter → ℕ → Out
flush_due g now = let (sent, kept) = flush now g.dq in (record g { dq = kept }, sent)

-- lobby_ring_push: a full ring loses its oldest packet.
unfoldable pub lobby_ring_push : Adapter → Arrival → Adapter
lobby_ring_push g d =
    if ltb g.lobbyq_count na_lobby_ring
    then record g {
      lobbyq = update g.lobbyq ((g.lobbyq_head + g.lobbyq_count) % na_lobby_ring) d;
      lobbyq_count = g.lobbyq_count + 1;
    }
    else record g {
      lobbyq = update g.lobbyq g.lobbyq_head d;
      lobbyq_head = (g.lobbyq_head + 1) % na_lobby_ring;
    }

-- net_adapter_take_lobby_packet with a buffer of `cap` bytes: `none` is its 0.
unfoldable pub take_lobby_packet : Adapter → ℕ → Option Arrival × Adapter
take_lobby_packet g cap =
    if not g.active || g.lobbyq_count == 0
    then (none, g)
    else (let d = g.lobbyq g.lobbyq_head in
        if ltb cap (length d.bytes) then (none, g) else (
          some d,
          record g {
            lobbyq_head = (g.lobbyq_head + 1) % na_lobby_ring;
            lobbyq_count = g.lobbyq_count - 1;
          },
        ))

-- net_adapter_init: `none` is NULL, and leaves the state.
unfoldable pub adapter_init : Adapter → ℕ → ℕ → Option Adapter
adapter_init g session_id local_slot =
    if g.active || leb arena_max_players local_slot
    then none
    else some (record zeroed { active = true; session_id = session_id; local_slot = local_slot })

unfoldable pub set_route : Adapter → ℕ → NetRoute → Adapter
set_route g slot route =
    if not g.active || leb arena_max_players slot
    then g
    else record g { route = update g.route slot route }

unfoldable pub set_relay : Adapter → LobbyEndpoint → Adapter
set_relay g relay = if not g.active then g else record g { relay = relay }

-- net_adapter_impair: `none` is NULL.
unfoldable pub impair : Adapter → Option Impairment → Adapter
impair g imp = if not g.active then g else elim imp [
  | none ↦ record g { imp_on = false }
  | some i ↦ record g { imp = i; imp_on = true; imp_rng = if i.seed == 0 then 1 else i.seed }
]
