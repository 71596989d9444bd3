-- ===== src/Adapter/Tests.antt =====
-- Runs of the adapter of src/netplay/net_adapter.c.
use bmhero_arena.Common.{
  first_index, ℕ, ◌≤◌, ◌≡◌, refl, true, List, [], ◌∷◌, length, All, arith, xorshift32,
}
use bmhero_arena.Lobby.Proto.{LobbyEndpoint, NetRoute, direct, relayed}
use bmhero_arena.Rendezvous.{Datagram, Rendezvous, Session, find_session}
use bmhero_arena.Rendezvous.Handlers.{admitted, handle, hosted, init, put}
use bmhero_arena.Rendezvous.Relay.{MayRelay}
use bmhero_arena.Client.Poll.{Arrival}
use bmhero_arena.Adapter.{
  Adapter, zeroed, adapter_init, na_max_results, impaired_send, flush_due, flush, hold_back, park,
}
use bmhero_arena.Adapter.Ring.{IsRing, push, take_with, run_ring, run_queue, adapter_init-refines}
use bmhero_arena.Adapter.Delay.{SendOp, hand, pump, send_ops, Balanced, send_ops-Balanced}
use bmhero_arena.Adapter.Traffic.{na_send, na_recv, wrapped}
use bmhero_arena.Adapter.Delivery.{Linked, na_recv-na_send, na_recv-handle}
use bmhero_arena.Adapter.Receiving.{Short, na_recv-bounds}

abbrev near_ep : LobbyEndpoint
near_ep = record { ip = 0x0A000002; port = 5000 }

abbrev far_ep : LobbyEndpoint
far_ep = record { ip = 0x0A000003; port = 5000 }

abbrev server_ep : LobbyEndpoint
server_ep = record { ip = 0x0A000001; port = 40064 }

-- The adapter of a slot of session 7, that reaches everyone by one route.
abbrev of_slot : ℕ → NetRoute → Adapter
of_slot slot route = record zeroed {
  active = true;
  session_id = 7;
  local_slot = slot;
  route = λ i. route;
  relay = server_ep;
}

abbrev near : Adapter
near = of_slot 0 (record { kind = direct; ep = far_ep })

abbrev far : Adapter
far = of_slot 1 (record { kind = direct; ep = near_ep })

near-Linked : Linked near far
near-Linked = record {
  sender = refl;
  receiver = refl;
  unimpaired = refl;
  same_session = refl;
  session_fits = omega arith;
  from_fits = omega arith;
  to_in_range = omega arith;
}

na_recv-na_send_example :
    (d : Datagram) × (na_send near 10 (1 ∷ []) (5 ∷ 6 ∷ []) ≡ (near, d ∷ []))
    × (d.to ≡ far_ep)
    × ((na_recv far 20 (λ n. true) (record { from = near_ep; bytes = d.bytes } ∷ [])).results
        ≡ record { from_slot = 0; payload = 5 ∷ 6 ∷ [] } ∷ [])
na_recv-na_send_example =
    na_recv-na_send near far (5 ∷ 6 ∷ []) near-Linked (omega arith) 10 20 (λ n. true) near_ep refl
      refl

-- The host, at slot 0, sends to the guest, at slot 1, through the server.
abbrev behind : Adapter
behind = of_slot 0 (record { kind = relayed; ep = far_ep })

abbrev beyond : Adapter
beyond = of_slot 1 (record { kind = relayed; ep = near_ep })

abbrev lobby : Session
lobby =
    admitted
      (hosted 7 0 near_ep (record { net_version = 9; num_players = 2; private_ep = near_ep })) 1 5
      far_ep (record { session_id = 7; net_version = 9; private_ep = far_ep })

abbrev server : Rendezvous
server = put (init 0 1) 0 lobby

behind-Linked : Linked behind beyond
behind-Linked = record {
  sender = refl;
  receiver = refl;
  unimpaired = refl;
  same_session = refl;
  session_fits = omega arith;
  from_fits = omega arith;
  to_in_range = omega arith;
}

server-MayRelay : MayRelay server near_ep (wrapped behind 1 (5 ∷ 6 ∷ [])) 0
unfolding init hosted admitted find_session first_index
server-MayRelay = record {
  there = refl;
  from_in_range = omega arith;
  to_in_range = omega arith;
  from_used = refl;
  from_owned = refl;
  to_used = refl;
}

na_recv-handle_example :
    (d : Datagram) × (na_send behind 10 (1 ∷ []) (5 ∷ 6 ∷ []) ≡ (behind, d ∷ []))
    × (d.to ≡ server_ep)
    × (e : Datagram) × ((handle server 15 near_ep d.bytes).1 ≡ e ∷ [])
    × (e.to ≡ far_ep)
    × ((na_recv beyond 20 (λ n. true) (record { from = server_ep; bytes = e.bytes } ∷ [])).results
        ≡ record { from_slot = 0; payload = 5 ∷ 6 ∷ [] } ∷ [])
unfolding admitted
na_recv-handle_example =
    na_recv-handle behind beyond (5 ∷ 6 ∷ []) behind-Linked (omega arith) 10 20 (λ n. true)
      server_ep near_ep server 0 15 refl refl server-MayRelay

abbrev fresh : Adapter
fresh = record zeroed { active = true; session_id = 7; local_slot = 1 }

abbrev start_packet : Arrival
start_packet = record { from = server_ep; bytes = 1 ∷ 2 ∷ [] }

adapter_init-refines_example :
    run_ring (push start_packet ∷ take_with 1 ∷ take_with 1200 ∷ take_with 1200 ∷ []) fresh
    ≡ run_queue (push start_packet ∷ take_with 1 ∷ take_with 1200 ∷ take_with 1200 ∷ []) []
unfolding adapter_init
adapter_init-refines_example =
    adapter_init-refines zeroed 7 1 fresh
      (push start_packet ∷ take_with 1 ∷ take_with 1200 ∷ take_with 1200 ∷ []) refl

-- Every packet waits for fifty milliseconds.
abbrev slowed : Adapter
slowed = record near {
  imp_on = true;
  imp = record { seed = 1; delay_ms = 50; jitter_ms = 0; loss_pct = 0; reorder_pct = 0 };
  imp_rng = 1;
}

abbrev two_sent : List SendOp
two_sent = hand 10 far_ep (1 ∷ []) ∷ hand 20 far_ep (2 ∷ []) ∷ pump 65 ∷ []

-- The first one leaves.
one_leaves : length (send_ops two_sent slowed).1 ≡ 1
unfolding impaired_send flush_due flush hold_back park xorshift32
one_leaves = refl

send_ops-Balanced_example : Balanced (send_ops two_sent slowed) 2
send_ops-Balanced_example = send_ops-Balanced two_sent slowed (omega arith)

far-IsRing : IsRing far
far-IsRing = record { active = refl; head_in = omega arith; count_in = omega arith }

na_recv-bounds_example :
    let r = na_recv far 20 (λ n. true) (start_packet ∷ []) in
    (length r.results ≤ na_max_results) × All Short r.results × IsRing r.adapter
na_recv-bounds_example =
    na_recv-bounds far 20 (λ n. true) (start_packet ∷ []) far-IsRing
      ((omega arith, (omega arith, tt)), tt)
