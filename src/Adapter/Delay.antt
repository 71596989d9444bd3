-- ===== src/Adapter/Delay.antt =====
-- The impairment of src/netplay/net_adapter.c: what becomes of the datagrams that are handed to it.
use bmhero_arena.Common.{
  ℕ, suc, ◌+◌, ◌%◌, ◌^◌, ◌≤◌, ◌<◌, ◌≡◌, refl, Bool, List, [], ◌∷◌, ◌++◌, ltb, leb, ◌==◌, length,
  length-append, u32, arith, Bool-cases, inl, inr,
}
use bmhero_arena.Lobby.Proto.{LobbyEndpoint}
use bmhero_arena.Adapter.{
  na_delay_queue, DelayedPkt, Adapter, Out, hold_back, park, impaired_send, flush, flush_due,
  na_rand, draw_delay,
}

-- A datagram that is handed to the impairment at a time, or the pump of a frame.
pub data SendOp : Type 0 where
  hand : ℕ → LobbyEndpoint → List ℕ → SendOp
  pump : ℕ → SendOp

abbrev pub send_op : Adapter → SendOp → Out
send_op g (hand now to buf) = impaired_send g now to buf
send_op g (pump now) = flush_due g now

abbrev pub send_ops : List SendOp → Adapter → Out
send_ops [] g = (g, [])
send_ops (o ∷ ops) g =
    let (g', out) = send_op g o in let (g'', more) = send_ops ops g' in (g'', out ++ more)

abbrev pub handed : List SendOp → ℕ
handed [] = 0
handed (hand now to buf ∷ ops) = suc (handed ops)
handed (pump now ∷ ops) = handed ops

length-hold_back : (ps : List DelayedPkt) → length (hold_back ps) ≡ length ps
unfolding hold_back
length-hold_back [] = refl
length-hold_back (p ∷ []) = refl
length-hold_back (p ∷ q ∷ []) = refl
length-hold_back (p ∷ q ∷ r ∷ ps) = omega (arith, length-hold_back (q ∷ r ∷ ps))

length-flush :
    (now : ℕ) (ps : List DelayedPkt) → length (flush now ps).0 + length (flush now ps).1 ≡ length ps
unfolding flush
length-flush now [] = refl
length-flush now (p ∷ ps) = ground (arith, length-flush now ps)

length-park :
    (g : Adapter) (now d : ℕ) (r : Bool) (to : LobbyEndpoint) (buf : List ℕ)
    → (length (park g now d r to buf).dq ≡ length g.dq + 1)
      × ((park g now d r to buf).loss_count ≡ g.loss_count)
unfolding park
length-park g now d r to buf =
    let p : DelayedPkt = record { due_ms = u32 (now + d); to = to; buf = buf } in
    ground (arith, length-hold_back (g.dq ++ (p ∷ [])), length-append g.dq (p ∷ []))

-- What has left, what waits, and what is counted as lost.
abbrev pub Balanced : Out → ℕ → Type 0
Balanced (g, out) n =
    ((length out + length g.dq + g.loss_count) % 2 ^ 32 ≡ n % 2 ^ 32)
    × (length g.dq ≤ na_delay_queue)

impaired_send-Balanced :
    (g : Adapter) (now : ℕ) (to : LobbyEndpoint) (buf : List ℕ)
    → length g.dq ≤ na_delay_queue
    → Balanced (impaired_send g now to buf) (length g.dq + g.loss_count + 1)
unfolding impaired_send
impaired_send-Balanced g now to buf h =
    let r = na_rand g.imp_rng in
    let (d, r') = draw_delay g.imp r in
    let r'' = na_rand r' in
    elim (Bool-cases g.imp_on) [
      | inr off ↦ rw (off, impaired_send) (omega arith, h)
      | inl on ↦ elim (Bool-cases (ltb (r % 100) g.imp.loss_pct)) [
        | inl lost ↦ rw (on, lost, impaired_send) (omega arith, h)
        | inr kept ↦ elim (Bool-cases (d == 0)) [
          | inl z ↦ rw (on, kept, z, impaired_send) (omega arith, h)
          | inr nz ↦ elim (Bool-cases (leb na_delay_queue (length g.dq))) [
            | inl full ↦ rw (on, kept, nz, full, impaired_send) (omega arith, h)
            | inr room ↦
                let g' = record g { imp_rng = r'' } in
                let parked = length-park g' now d (ltb (r'' % 100) g.imp.reorder_pct) to buf in
                let space : length g.dq < na_delay_queue = ground arith in
                let p = park g' now d (ltb (r'' % 100) g.imp.reorder_pct) to buf in
                let waits : impaired_send g now to buf ≡ (p, []) = ground arith in
                rw (waits, parked.0, parked.1) (omega arith, omega arith)
          ]
        ]
      ]
    ]

flush_due-Balanced :
    (g : Adapter) (now : ℕ)
    → length g.dq ≤ na_delay_queue
    → Balanced (flush_due g now) (length g.dq + g.loss_count)
unfolding flush_due
flush_due-Balanced g now h = let l = length-flush now g.dq in (omega arith, omega arith)

-- Whatever is handed to the impairment and whenever the queue is pumped, no datagram goes missing
-- uncounted: modulo 2^32, those that have been sent, those that wait and those counted as lost are
-- those that waited, were lost and were handed in; and at most 512 wait.
pub send_ops-Balanced :
    (ops : List SendOp) (g : Adapter)
    → length g.dq ≤ na_delay_queue
    → Balanced (send_ops ops g) (length g.dq + g.loss_count + handed ops)
send_ops-Balanced [] g h = (omega arith, h)
send_ops-Balanced (hand now to buf ∷ ops) g h =
    let (g', out) = impaired_send g now to buf in
    let (e, h') = impaired_send-Balanced g now to buf h in
    let (f, h'') = send_ops-Balanced ops g' h' in
    (omega (arith, length-append out (send_ops ops g').1), h'')
send_ops-Balanced (pump now ∷ ops) g h =
    let (g', out) = flush_due g now in
    let (e, h') = flush_due-Balanced g now h in
    let (f, h'') = send_ops-Balanced ops g' h' in
    (omega (arith, length-append out (send_ops ops g').1), h'')
