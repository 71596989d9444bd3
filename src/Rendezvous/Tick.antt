-- ===== src/Rendezvous/Tick.antt =====
-- rv_tick: the invariant, and which sessions expire.
use bmhero_arena.Common.{
  ℕ, zero, suc, ◌+◌, ◌<◌, ◌≡◌, refl, false, not, List, [], ◌∷◌, ltb, ◌==◌, Array, update, sub_u32,
  arith, Bool-cases, inl, inr,
}
use bmhero_arena.Lobby.Proto.{LobbyEndpoint}
use bmhero_arena.Rendezvous.{
  rv_max_sessions, Session, Rendezvous, is_free, is_lobby, cleared, rv_lobby_expiry_ms,
  rv_started_expiry_ms, rv_relay_expiry_ms,
}
use bmhero_arena.Rendezvous.Handlers.{
  put, has_relay, refan, tick_session, tick_from, tick, init, handle,
}
use bmhero_arena.Rendezvous.Invariant.{IsLive, IsTable, IsValid}
use bmhero_arena.Rendezvous.Preserve.{handle-IsValid}

refan-IsLive : (now : ℕ) (s : Session) → IsLive s → IsLive (refan now s).0
unfolding refan
refan-IsLive now s v = record {
  has_id = ground (arith, v.has_id);
  id_fits = ground (arith, v.id_fits);
  at_least_two = ground (arith, v.at_least_two);
  at_most_four = ground (arith, v.at_most_four);
  host_in = ground (arith, v.host_in);
  not_over = ground (arith, v.not_over);
  seats = λ k h. ground (arith, v.seats k h);
  own_address = λ j k hj hk e. ground (arith, v.own_address j k);
  both_sent = λ c d h. ground (arith, v.both_sent c d h);
  same_route = λ c d h. ground (arith, v.same_route c d h);
  sent_seen = λ c d h e. ground (arith, v.sent_seen c d h);
  route_kind = λ c d. ground (arith, v.route_kind c d);
}

refan-id : (now : ℕ) (s : Session) → (refan now s).0.id ≡ s.id
unfolding refan
refan-id now s = ground arith

-- What becomes of one session: it is as it was, or refanned, or cleared.
data Ticked (now : ℕ) (s : Session) (t : Session) : Type 0 where
  same : t ≡ s → Ticked now s t
  gone : t ≡ cleared → Ticked now s t
  fanned : is_free s.phase ≡ false → t ≡ (refan now s).0 → Ticked now s t

tick_session-Ticked : (now : ℕ) (s : Session) → Ticked now s (tick_session now s).0
unfolding tick_session
tick_session-Ticked now s = elim (Bool-cases (is_free s.phase)) [
  | inl is ↦ rw is (same refl)
  | inr isnt ↦ elim (Bool-cases (is_lobby s.phase)) [
    | inl waits ↦ elim (Bool-cases (ltb rv_lobby_expiry_ms (sub_u32 now s.last_activity_ms))) [
      | inl late ↦ rw (isnt, waits, late) (gone refl)
      | inr early ↦ rw (isnt, waits, early) (same refl)
    ]
    | inr plays ↦ elim (Bool-cases (not (has_relay (refan now s).0))) [
      | inl direct ↦
          elim (Bool-cases (ltb rv_started_expiry_ms (sub_u32 now (refan now s).0.started_ms))) [
            | inl late ↦ rw (isnt, plays, direct, late) (gone refl)
            | inr early ↦ rw (isnt, plays, direct, early) (fanned isnt refl)
          ]
      | inr relays ↦
          elim (Bool-cases (ltb rv_relay_expiry_ms (sub_u32 now (refan now s).0.last_relay_ms))) [
            | inl late ↦ rw (isnt, plays, relays, late) (gone refl)
            | inr early ↦ rw (isnt, plays, relays, early) (fanned isnt refl)
          ]
    ]
  ]
]

Ticked-IsTable :
    (ss : Array Session) (i now : ℕ) (t : Session)
    → IsTable ss
    → i < rv_max_sessions
    → Ticked now (ss i) t
    → IsTable (update ss i t)
Ticked-IsTable ss i now t v h (same e) = record {
  each = λ k lt. elim (Bool-cases (k == i)) [
    | inl hit ↦ rw (hit, e) (v.each i h)
    | inr miss ↦ rw miss (v.each k lt)
  ];
  own_id = λ j k hj hk fj fk q. ground (arith, v.own_id j k, v.own_id i k, v.own_id j i);
}
Ticked-IsTable ss i now t v h (gone e) = record {
  each = λ k lt. elim (Bool-cases (k == i)) [
    | inl hit ↦ rw (hit, e) (λ f. cc)
    | inr miss ↦ rw miss (v.each k lt)
  ];
  own_id = λ j k hj hk fj fk q. ground (arith, v.own_id j k);
}
Ticked-IsTable ss i now t v h (fanned f e) = record {
  each = λ k lt. elim (Bool-cases (k == i)) [
    | inl hit ↦ rw (hit, e) (λ _. refan-IsLive now (ss i) (v.each i h f))
    | inr miss ↦ rw miss (v.each k lt)
  ];
  own_id = λ j k hj hk fj fk q.
      ground (arith, refan-id now (ss i), v.own_id j k, v.own_id i k, v.own_id j i);
}

tick_from-IsValid :
    (left i now : ℕ) (rv : Rendezvous)
    → i + left ≡ rv_max_sessions
    → IsValid rv
    → IsValid (tick_from left i now rv).0
unfolding tick_from
tick_from-IsValid zero i now rv e v = v
tick_from-IsValid (suc left) i now rv e v =
    tick_from-IsValid left (i + 1) now (put rv i (tick_session now (rv.sessions i)).0) (omega arith)
      (record {
        table =
            Ticked-IsTable rv.sessions i now (tick_session now (rv.sessions i)).0 v.table
              (omega arith) (tick_session-Ticked now (rv.sessions i));
        buckets = v.buckets;
      })

-- rv_tick keeps the invariant.
tick-IsValid : (rv : Rendezvous) (now : ℕ) → IsValid rv → IsValid (tick rv now).0
unfolding tick
tick-IsValid rv now v = tick_from-IsValid rv_max_sessions 0 now rv (omega arith) v

pub init-IsValid : (now seed : ℕ) → IsValid (init now seed)
unfolding init
init-IsValid now seed = record {
  table = record { each = λ i h f. cc; own_id = λ i j hi hj fi fj e. cc };
  buckets = λ k. omega arith;
}

-- What the server's socket loop calls: a packet, or the tick.
pub data Event : Type 0 where
  packet : ℕ → LobbyEndpoint → List ℕ → Event
  ticks : ℕ → Event

abbrev pub step : Rendezvous → Event → Rendezvous
step rv (packet now from buf) = (handle rv now from buf).0
step rv (ticks now) = (tick rv now).0

abbrev pub run : Rendezvous → List Event → Rendezvous
run rv [] = rv
run rv (e ∷ es) = run (step rv e) es

step-IsValid : (rv : Rendezvous) (e : Event) → IsValid rv → IsValid (step rv e)
step-IsValid rv (packet now from buf) v = handle-IsValid rv now from buf v
step-IsValid rv (ticks now) v = tick-IsValid rv now v

run-IsValid : (rv : Rendezvous) (es : List Event) → IsValid rv → IsValid (run rv es)
run-IsValid rv [] v = v
run-IsValid rv (e ∷ es) v = run-IsValid (step rv e) es (step-IsValid rv e v)

-- The server's invariant holds after rv_init and any sequence of packets and ticks, at any times.
pub run-init-IsValid : (now seed : ℕ) (es : List Event) → IsValid (run (init now seed) es)
run-init-IsValid now seed es = run-IsValid (init now seed) es (init-IsValid now seed)
