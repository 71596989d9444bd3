-- ===== src/Adapter/Ring.antt =====
-- The ring of lobby packets in src/netplay/net_adapter.c, as a bounded queue that forgets its oldest
-- packet.
use bmhero_arena.Common.{
  ℕ, zero, suc, ◌+◌, ◌-◌, ◌%◌, ◌≤◌, ◌<◌, ◌≡◌, ◌≢◌, ◌∙◌, refl, ap, true, false, not, ◌||◌, Option,
  none, some, List, [], ◌∷◌, ◌++◌, ltb, ◌==◌, ==_ne, ==_self, if◌then◌else◌, length, drop, Array,
  update, arith, Bool-cases, inl, inr,
}
use bmhero_arena.Client.Poll.{Arrival}
use bmhero_arena.Adapter.{na_lobby_ring, Adapter, lobby_ring_push, take_lobby_packet, adapter_init}

-- The specification.
abbrev pub Queue : Type 0
Queue = List Arrival

abbrev pub enqueue : Queue → Arrival → Queue
enqueue q d = (if ltb (length q) na_lobby_ring then q else drop 1 q) ++ (d ∷ [])

abbrev pub dequeue : ℕ → Queue → Option Arrival × Queue
dequeue cap [] = (none, [])
dequeue cap (d ∷ q) = if ltb cap (length d.bytes) then (none, d ∷ q) else (some d, q)

-- The n packets from index h on.
abbrev window : Array Arrival → ℕ → ℕ → Queue
window a h zero = []
window a h (suc n) = a h ∷ window a ((h + 1) % na_lobby_ring) n

abbrev pub contents : Adapter → Queue
contents g = window g.lobbyq g.lobbyq_head g.lobbyq_count

pub record IsRing (g : Adapter) : Type 0 where
  pub active : g.active ≡ true
  pub head_in : g.lobbyq_head < na_lobby_ring
  pub count_in : g.lobbyq_count ≤ na_lobby_ring

length-window : (a : Array Arrival) (h n : ℕ) → length (window a h n) ≡ n
length-window a h zero = refl
length-window a h (suc n) = omega (arith, length-window a ((h + 1) % na_lobby_ring) n)

-- A window of n + 1 packets ends at index h + n, going round.
window-snoc :
    (a : Array Arrival) (h n : ℕ)
    → h < na_lobby_ring
    → window a h (suc n) ≡ window a h n ++ (a ((h + n) % na_lobby_ring) ∷ [])
window-snoc a h zero l = let e : (h + 0) % na_lobby_ring ≡ h = omega arith in rw e refl
window-snoc a h (suc n) l =
    let e : ((h + 1) % na_lobby_ring + n) % na_lobby_ring ≡ (h + suc n) % na_lobby_ring =
      omega arith in
    ap (λ q. a h ∷ q) (rw (← e) (window-snoc a ((h + 1) % na_lobby_ring) n (omega arith)))

-- A write beside a window does not show in it.
window-update :
    (a : Array Arrival) (i : ℕ) (d : Arrival) (h n : ℕ)
    → ((k : ℕ) → k < n → (h + k) % na_lobby_ring ≢ i)
    → h < na_lobby_ring
    → window (update a i d) h n ≡ window a h n
window-update a i d h zero out l = refl
window-update a i d h (suc n) out l =
    let off : h ≢ i = (λ e. out 0 (omega arith) (omega arith)) in
    let here : update a i d h ≡ a h = rw (==_ne h i off) refl in
    let rest =
      window-update a i d ((h + 1) % na_lobby_ring) n
        (λ k kn e. out (suc k) (omega arith) (omega arith)) (omega arith) in
    rw (here, rest) refl

-- Over a full ring the oldest packet is written, and the next one becomes the oldest.
window-full :
    (a : Array Arrival) (h c : ℕ) (d : Arrival)
    → h < na_lobby_ring
    → c ≡ na_lobby_ring
    → window (update a h d) ((h + 1) % na_lobby_ring) c ≡ drop 1 (window a h c) ++ (d ∷ [])
window-full a h zero d hl e = absurd (omega arith)
window-full a h (suc n) d hl e =
    let h' = (h + 1) % na_lobby_ring in
    let below : h' < na_lobby_ring = omega arith in
    let last : (h' + n) % na_lobby_ring ≡ h = omega arith in
    let free : (k : ℕ) → k < n → (h' + k) % na_lobby_ring ≢ h = (λ k kn q. absurd (omega arith)) in
    rw (window-snoc (update a h d) h' n below, window-update a h d h' n free below, last, ==_self h)
      refl

push_refines :
    (g : Adapter) (d : Arrival) → IsRing g → contents (lobby_ring_push g d) ≡ enqueue (contents g) d
unfolding lobby_ring_push
push_refines g d v =
    let a = g.lobbyq in
    let h = g.lobbyq_head in
    let n = g.lobbyq_count in
    let hl : h < na_lobby_ring = v.head_in in
    let nl : n ≤ na_lobby_ring = v.count_in in
    elim (Bool-cases (ltb n na_lobby_ring)) [
      | inl room ↦
          let i = (h + n) % na_lobby_ring in
          let free : (k : ℕ) → k < n → (h + k) % na_lobby_ring ≢ i =
            λ k kn e. absurd (let lt : n < na_lobby_ring = ground arith in omega arith) in
          let grown : window (update a i d) h (suc n) ≡ window a h n ++ (d ∷ []) =
            rw (window-snoc (update a i d) h n hl, window-update a i d h n free hl, ==_self i)
              refl in
          let e : n + 1 ≡ suc n = omega arith in rw (room, e, length-window a h n, room) grown
      | inr full ↦
          let sixteen : n ≡ na_lobby_ring = ground arith in
          rw (full, length-window a h n, full) (window-full a h n d hl sixteen)
    ]

take_refines :
    (g : Adapter) (cap : ℕ)
    → IsRing g
    → let (r, g') = take_lobby_packet g cap in (r, contents g') ≡ dequeue cap (contents g)
unfolding take_lobby_packet
take_refines g cap v = taken g.lobbyq_count refl
  where
    taken :
        (n : ℕ)
        → g.lobbyq_count ≡ n
        → let (r, g') = take_lobby_packet g cap in
          (r, contents g') ≡ dequeue cap (window g.lobbyq g.lobbyq_head n)
    taken zero e =
        let none_left : (not g.active || g.lobbyq_count == 0) ≡ true = ground arith in
        rw (none_left, e) refl
    taken (suc n) e =
        let some_left : (not g.active || g.lobbyq_count == 0) ≡ false = ground (arith, v.active) in
        let rest : g.lobbyq_count - 1 ≡ n = omega arith in
        elim (Bool-cases (ltb cap (length (g.lobbyq g.lobbyq_head).bytes))) [
          | inl long ↦ rw (some_left, long, e) refl
          | inr fits ↦ rw (some_left, fits, rest) refl
        ]

pub push-IsRing : (g : Adapter) (d : Arrival) → IsRing g → IsRing (lobby_ring_push g d)
unfolding lobby_ring_push
push-IsRing g d v = ground arith

take-IsRing : (g : Adapter) (cap : ℕ) → IsRing g → IsRing (take_lobby_packet g cap).1
unfolding take_lobby_packet
take-IsRing g cap v = ground arith

-- A packet that arrives, or a call of net_adapter_take_lobby_packet with a buffer of that size.
pub data RingOp : Type 0 where
  push : Arrival → RingOp
  take_with : ℕ → RingOp

-- What the calls return, in order.
abbrev pub run_ring : List RingOp → Adapter → List (Option Arrival)
run_ring [] g = []
run_ring (push d ∷ ops) g = run_ring ops (lobby_ring_push g d)
run_ring (take_with cap ∷ ops) g = let (r, g') = take_lobby_packet g cap in r ∷ run_ring ops g'

abbrev pub run_queue : List RingOp → Queue → List (Option Arrival)
run_queue [] q = []
run_queue (push d ∷ ops) q = run_queue ops (enqueue q d)
run_queue (take_with cap ∷ ops) q = let (r, q') = dequeue cap q in r ∷ run_queue ops q'

run_refines :
    (ops : List RingOp) (g : Adapter) → IsRing g → run_ring ops g ≡ run_queue ops (contents g)
run_refines [] g v = refl
run_refines (push d ∷ ops) g v =
    rw (run_refines ops (lobby_ring_push g d) (push-IsRing g d v), push_refines g d v) refl
run_refines (take_with cap ∷ ops) g v =
    rw (run_refines ops (take_lobby_packet g cap).1 (take-IsRing g cap v), ← take_refines g cap v)
      refl

-- From net_adapter_init on, no sequence of arrivals and calls tells the ring from a first-in
-- first-out queue of at most sixteen packets that forgets its oldest one when it is full, and that
-- keeps a packet which is too long for the caller's buffer.
pub adapter_init-refines :
    (g : Adapter) (session_id local_slot : ℕ) (g' : Adapter) (ops : List RingOp)
    → adapter_init g session_id local_slot ≡ some g'
    → run_ring ops g' ≡ run_queue ops []
unfolding adapter_init
adapter_init-refines g session_id local_slot g' ops e =
    let v : IsRing g' = ground arith in
    let empty : g'.lobbyq_count ≡ 0 = ground arith in
    let start : contents g' ≡ [] = rw empty refl in run_refines ops g' v ∙ ap (run_queue ops) start
