-- ===== src/Rendezvous/Expiry.antt =====
-- Which sessions rv_tick frees.
use bmhero_arena.Common.{
  ℕ, zero, suc, ◌+◌, ◌<◌, ◌≡◌, refl, Bool, true, false, ◌&&◌, ltb, leb, ◌==◌, if◌then◌else◌,
  sub_u32, arith, Bool-cases, inl, inr, ◌⊎◌, ◌↔◌,
}
use bmhero_arena.Rendezvous.{
  rv_max_sessions, rv_max_players, Session, Rendezvous, is_free, is_lobby, is_starting,
  rv_start_refan_ms, rv_lobby_expiry_ms, rv_started_expiry_ms, rv_relay_expiry_ms,
}
use bmhero_arena.Rendezvous.Handlers.{
  put, any_player, has_relay, refan, tick_session, tick_from, tick,
}

-- Some pair of the session plays through the server.
abbrev pub Relays : Session → Type 0
Relays s =
    (a : ℕ) × (b : ℕ) × (a < rv_max_players)
    × (b < rv_max_players)
    × (s.route_sent a b ≡ true)
    × (s.route a b ≡ 1)

any_player-some :
    (p : ℕ → Bool) → any_player p ≡ true → (k : ℕ) × (k < rv_max_players) × (p k ≡ true)
any_player-some p h = elim (Bool-cases (p 0)) [
  | inl at ↦ (0, omega arith, at)
  | inr not0 ↦ elim (Bool-cases (p 1)) [
    | inl at ↦ (1, omega arith, at)
    | inr not1 ↦ elim (Bool-cases (p 2)) [
      | inl at ↦ (2, omega arith, at)
      | inr not2 ↦ (3, omega arith, ground arith)
    ]
  ]
]

any_player-of : (p : ℕ → Bool) (k : ℕ) → k < rv_max_players → p k ≡ true → any_player p ≡ true
any_player-of p zero h e = ground arith
any_player-of p (suc zero) h e = ground arith
any_player-of p (suc (suc zero)) h e = ground arith
any_player-of p (suc (suc (suc zero))) h e = ground arith
any_player-of p (suc (suc (suc (suc k)))) h e = absurd (omega arith)

abbrev relays_pair : Session → ℕ → ℕ → Bool
relays_pair s a b = s.route_sent a b && s.route a b == 1

relays_pair_iff :
    (s : Session) (a b : ℕ)
    → (relays_pair s a b ≡ true) ↔ ((s.route_sent a b ≡ true) × (s.route a b ≡ 1))
relays_pair_iff s a b = ground arith

has_relay_iff : (s : Session) → (has_relay s ≡ true) ↔ Relays s
unfolding has_relay
has_relay_iff s = (there, back)
  where
    there : any_player (λ a. any_player (relays_pair s a)) ≡ true → Relays s
    there h =
        let (a, lt_a, at_a) = any_player-some (λ a. any_player (relays_pair s a)) h in
        let (b, lt_b, at_b) = any_player-some (relays_pair s a) at_a in
        let (sent, kind) = (relays_pair_iff s a b).0 at_b in (a, b, lt_a, lt_b, sent, kind)

    back : Relays s → any_player (λ a. any_player (relays_pair s a)) ≡ true
    back (a, b, lt_a, lt_b, sent, kind) =
        any_player-of (λ a. any_player (relays_pair s a)) a lt_a
          (any_player-of (relays_pair s a) b lt_b ((relays_pair_iff s a b).1 (sent, kind)))

-- The deadlines of the header, by what the session is doing.
abbrev pub IsExpired : ℕ → Session → Type 0
IsExpired now s =
    ((is_lobby s.phase ≡ true) × (rv_lobby_expiry_ms < sub_u32 now s.last_activity_ms))
    ⊎ ((is_lobby s.phase ≡ false)
        × (¬ Relays s)
        × (rv_started_expiry_ms < sub_u32 now s.started_ms))
    ⊎ ((is_lobby s.phase ≡ false) × Relays s × (rv_relay_expiry_ms < sub_u32 now s.last_relay_ms))

refan_keeps :
    (now : ℕ) (s : Session)
    → ((refan now s).0.phase ≡ s.phase)
      × ((refan now s).0.started_ms ≡ s.started_ms)
      × ((refan now s).0.last_relay_ms ≡ s.last_relay_ms)
      × (has_relay (refan now s).0 ≡ has_relay s)
unfolding refan has_relay
refan_keeps now s =
    elim (Bool-cases (is_starting s.phase && leb rv_start_refan_ms (sub_u32 now s.last_refan_ms))) [
      | inl due ↦ rw due (refl, refl, refl, refl)
      | inr early ↦ rw early (refl, refl, refl, refl)
    ]

-- The tests of rv_tick, put together.
abbrev expiry_test : ℕ → Session → Bool
expiry_test now s =
    if is_lobby s.phase
    then ltb rv_lobby_expiry_ms (sub_u32 now s.last_activity_ms)
    else if has_relay s
    then ltb rv_relay_expiry_ms (sub_u32 now s.last_relay_ms)
    else ltb rv_started_expiry_ms (sub_u32 now s.started_ms)

tick_session-expiry_test :
    (now : ℕ) (s : Session)
    → is_free s.phase ≡ false
    → is_free (tick_session now s).0.phase ≡ expiry_test now s
unfolding tick_session
tick_session-expiry_test now s live = ground (arith, refan_keeps now s)

module _ {R A B C : Type 0} (a b c : Bool) (a_iff : (a ≡ true) ↔ A) (b_iff : (b ≡ true) ↔ B)
    (c_iff : (c ≡ true) ↔ C) where
  -- Three tests under two conditions, as the three ways to pass.
  ways_to_pass :
      (l r : Bool)
      → (r ≡ true) ↔ R
      → ((if l then a else if r then b else c) ≡ true)
        ↔ (((l ≡ true) × A) ⊎ ((l ≡ false) × (¬ R) × C) ⊎ ((l ≡ false) × R × B))
  ways_to_pass true r r_iff = (λ h. inl (refl, a_iff.0 h), back)
    where
      back :
          (((true ≡ true) × A) ⊎ ((true ≡ false) × (¬ R) × C) ⊎ ((true ≡ false) × R × B)) → a ≡ true
      back (inl (_, x)) = a_iff.1 x
      back (inr (inl (e, _, _))) = cc
      back (inr (inr (e, _, _))) = cc
  ways_to_pass false true r_iff = (λ h. inr (inr (refl, r_iff.0 refl, b_iff.0 h)), back)
    where
      back :
          (((false ≡ true) × A) ⊎ ((false ≡ false) × (¬ R) × C) ⊎ ((false ≡ false) × R × B))
          → b ≡ true
      back (inl (e, x)) = cc
      back (inr (inl (_, none_relayed, _))) = absurd (none_relayed (r_iff.0 refl))
      back (inr (inr (_, _, x))) = b_iff.1 x
  ways_to_pass false false r_iff =
      (λ h. inr (inl (refl, (λ x. let e = r_iff.1 x in cc), c_iff.0 h)), back)
    where
      back :
          (((false ≡ true) × A) ⊎ ((false ≡ false) × (¬ R) × C) ⊎ ((false ≡ false) × R × B))
          → c ≡ true
      back (inl (e, x)) = cc
      back (inr (inl (_, _, x))) = c_iff.1 x
      back (inr (inr (_, x, _))) = let e = r_iff.1 x in cc

ltb_iff : (x y : ℕ) → (ltb x y ≡ true) ↔ (x < y)
ltb_iff x y = ground arith

expiry_test_iff : (now : ℕ) (s : Session) → (expiry_test now s ≡ true) ↔ IsExpired now s
expiry_test_iff now s =
    ways_to_pass _ _ _ (ltb_iff rv_lobby_expiry_ms (sub_u32 now s.last_activity_ms))
      (ltb_iff rv_relay_expiry_ms (sub_u32 now s.last_relay_ms))
      (ltb_iff rv_started_expiry_ms (sub_u32 now s.started_ms)) (is_lobby s.phase) (has_relay s)
      (has_relay_iff s)

tick_from-sessions :
    (left i now : ℕ) (rv : Rendezvous) (k : ℕ)
    → (tick_from left i now rv).0.sessions k ≡ (
        if leb i k && ltb k (i + left) then (tick_session now (rv.sessions k)).0 else rv.sessions k)
unfolding tick_from
tick_from-sessions zero i now rv k = ground arith
tick_from-sessions (suc left) i now rv k =
    ground
      (arith, tick_from-sessions left (i + 1) now (put rv i (tick_session now (rv.sessions i)).0) k)

-- rv_tick frees exactly the sessions that are past their deadline: a lobby after ten minutes
-- without activity, a started match with no relayed pair thirty seconds after its start, and one
-- with a relayed pair after a minute of relay silence; every difference of times is taken
-- modulo 2^32.
pub tick_frees :
    (rv : Rendezvous) (now i : ℕ)
    → i < rv_max_sessions
    → is_free (rv.sessions i).phase ≡ false
    → (is_free ((tick rv now).0.sessions i).phase ≡ true) ↔ IsExpired now (rv.sessions i)
unfolding tick
tick_frees rv now i h live =
    rw
      (
        tick_from-sessions rv_max_sessions 0 now rv i,
        in_range,
        tick_session-expiry_test now (rv.sessions i) live,
      )
      (expiry_test_iff now (rv.sessions i))
  where
    in_range : (leb 0 i && ltb i (0 + rv_max_sessions)) ≡ true
    in_range = ground arith
