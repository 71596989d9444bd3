-- ===== src/Adapter/Receiving.antt =====
-- The bounds of na_recv in src/netplay/net_adapter.c.
use bmhero_arena.Common.{
  ℕ, zero, suc, ◌≤◌, ◌<◌, Bool, not, ◌||◌, ◌==◌, List, [], ◌∷◌, length, length-append, length-take,
  All, All-append, arith, Bool-cases, inl, inr,
}
use bmhero_arena.Lobby.Proto.{LobbyMsg, Relay, relay, game, lobby_max_payload}
use bmhero_arena.Lobby.Proto.Wire.{done, refused, fault}
use bmhero_arena.Lobby.Proto.Unpack.{unpack}
use bmhero_arena.Lobby.Proto.Bounds.{IsByte, IsRelay, IsWire, Reads, unpack-Reads}
use bmhero_arena.Client.Poll.{Arrival, is_empty}
use bmhero_arena.Adapter.{na_max_results, Adapter, flush, flush_due}
use bmhero_arena.Adapter.Ring.{IsRing, push-IsRing}
use bmhero_arena.Adapter.Traffic.{
  NetResult, Taken, dropped, accept, sort_msg, take_in, recv_loop, na_recv,
}

abbrev pub Short : NetResult → Type 0
Short r = (length r.payload ≤ lobby_max_payload) × (r.from_slot < 256)

-- One result at most, which is short, and a ring that is still valid.
abbrev Sound : Taken → Type 0
Sound (g, rs) = IsRing g × (length rs ≤ 1) × All Short rs

dropped-IsRing : (g : Adapter) → IsRing g → IsRing (dropped g)
dropped-IsRing g v = ground arith

accept-Sound :
    (g : Adapter) (given : Bool) (m : Relay) → IsRing g → IsRelay m → Sound (accept g given m)
unfolding accept
accept-Sound g given m v (_, from_fits, _, short, p, e, whole) =
    elim (Bool-cases (not (m.session_id == g.session_id) || not (m.to_slot == g.local_slot))) [
      | inl other ↦ rw (other, accept) (dropped-IsRing g v, omega arith, tt)
      | inr ours ↦ elim (Bool-cases given) [
        | inr no_room ↦ rw (ours, no_room, accept) (dropped-IsRing g v, omega arith, tt)
        | inl room ↦
            rw (ours, room, e, accept)
              (v, omega arith, ((omega (arith, length-take m.payload_len p whole), from_fits), tt))
      ]
    ]

sort_msg-Sound :
    (g : Adapter) (given : Bool) (d : Arrival) (m : LobbyMsg)
    → IsRing g
    → IsWire m
    → Sound (sort_msg g given d m)
unfolding sort_msg
sort_msg-Sound g given d (game m) v w = accept-Sound g given m v w
sort_msg-Sound g given d (relay m) v w = accept-Sound g given m v w
sort_msg-Sound g given d m v w = (push-IsRing g d v, omega arith, tt)

take_in-Sound :
    (g : Adapter) (given : Bool) (d : Arrival)
    → IsRing g
    → All IsByte d.bytes
    → Sound (take_in g given d)
unfolding take_in
take_in-Sound g given d v b =
    elim (unpack d.bytes)
        as (λ o.
          Reads IsWire o
          → Sound (elim o [
            | done m ↦ sort_msg g given d m
            | refused ↦ (dropped g, [])
            | fault ↦ (dropped g, [])
          ])) [
            | done m ↦ λ w. sort_msg-Sound g given d m v w
            | refused ↦ λ w. (dropped-IsRing g v, omega arith, tt)
            | fault ↦ λ w. absurd w
          ]
      (unpack-Reads d.bytes b)

recv_loop-bounds :
    (n : ℕ) (g : Adapter) (given : ℕ → Bool) (inbox : List Arrival)
    → IsRing g
    → All (λ d. All IsByte d.bytes) inbox
    → let (g', rs, left) = recv_loop n g given inbox in
      IsRing g' × (length rs ≤ n) × All Short rs × (length left ≤ length inbox)
unfolding recv_loop
recv_loop-bounds zero g given inbox v b = (v, omega arith, tt, omega arith)
recv_loop-bounds (suc n) g given [] v b = (v, omega arith, tt, omega arith)
recv_loop-bounds (suc n) g given (d ∷ inbox) v (b, bs) =
    let (g', one) = take_in g (given n) d in
    let (v', l, s) = take_in-Sound g (given n) d v b in
    let (v'', k, t, i) = recv_loop-bounds n g' given inbox v' bs in
    elim (Bool-cases (is_empty d.bytes)) [
      | inl e ↦ rw (e, recv_loop) (v, omega arith, tt, omega arith)
      | inr e ↦
          rw (e, recv_loop)
            (
              v'',
              omega (arith, length-append one (recv_loop n g' given inbox).1),
              All-append Short one (recv_loop n g' given inbox).1 s t,
              omega arith,
            )
    ]

-- However many datagrams wait in the socket, and whatever bytes they have, na_recv returns at most
-- 64 results, the room of its array; each has at most 1024 bytes and a sender of one byte; and the
-- ring of lobby packets stays valid.
pub na_recv-bounds :
    (g : Adapter) (now : ℕ) (given : ℕ → Bool) (inbox : List Arrival)
    → IsRing g
    → All (λ d. All IsByte d.bytes) inbox
    → let r = na_recv g now given inbox in
      (length r.results ≤ na_max_results) × All Short r.results × IsRing r.adapter
unfolding na_recv flush_due
na_recv-bounds g now given inbox v b =
    let z : Adapter = record g { dq = (flush now g.dq).1 } in
    let zv : IsRing z = ground arith in
    let (v', l, s, i) = recv_loop-bounds na_max_results z given inbox zv b in
    ground (arith, l, s, v', v.active)
