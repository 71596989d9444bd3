-- ===== src/Rendezvous/History.antt =====
-- What no packet to src/lobby/rendezvous.c can undo.
use bmhero_arena.Common.{
  ℕ, ◌≤◌, ◌<◌, ◌≡◌, ◌≢◌, refl, ◌∙◌, sym, Bool, true, false, not, ◌||◌, List, [], ◌==◌, arith,
  Bool-cases, inl, inr,
}
use bmhero_arena.Lobby.Proto.{LobbyEndpoint, LobbyMsg}
use bmhero_arena.Lobby.Proto.Wire.{Outcome, done, refused, fault}
use bmhero_arena.Lobby.Proto.Unpack.{unpack}
use bmhero_arena.Rendezvous.{
  rv_max_sessions, Phase, free, lobby, starting, running, Session, Rendezvous, Reply, is_free,
  rate_take,
}
use bmhero_arena.Rendezvous.Handlers.{
  is_seen, admitted, reported, arbitrate, decided, started, acked, is_relay, handle_msg, handle,
}
use bmhero_arena.Rendezvous.Invariant.{IsLive, IsValid}
use bmhero_arena.Rendezvous.Sessions.{first_free_slot, reported-IsLive}
use bmhero_arena.Rendezvous.Moves.{
  Write, saw, admits, reports, starts, acks, relays, Change, keeps, writes, opens, dispatch-Change,
}

abbrev pub rank : Phase → ℕ
rank free = 0
rank lobby = 1
rank starting = 2
rank running = 3

-- How a live session may change from s to t.
pub record Evolves (s t : Session) : Type 0 where
  pub same_id : t.id ≡ s.id
  pub same_size : t.num_players ≡ s.num_players
  pub same_version : t.net_version ≡ s.net_version
  pub joined_grows : s.joined ≤ t.joined
  pub forward : rank s.phase ≤ rank t.phase
  pub seats_kept : (k : ℕ) → k < s.joined → (t.peers k).public_ep ≡ (s.peers k).public_ep
  pub routes_kept :
      (a b : ℕ)
      → a ≢ b
      → s.route_sent a b ≡ true
      → (t.route_sent a b ≡ true) × (t.route a b ≡ s.route a b)

Evolves-refl : (s : Session) → Evolves s s
Evolves-refl s = record {
  same_id = refl;
  same_size = refl;
  same_version = refl;
  joined_grows = omega arith;
  forward = omega arith;
  seats_kept = λ k h. refl;
  routes_kept = λ a b h e. (e, refl);
}

Evolves-trans : (s t u : Session) → Evolves s t → Evolves t u → Evolves s u
Evolves-trans s t u p q = record {
  same_id = q.same_id ∙ p.same_id;
  same_size = q.same_size ∙ p.same_size;
  same_version = q.same_version ∙ p.same_version;
  joined_grows = omega (arith, p.joined_grows, q.joined_grows);
  forward = omega (arith, p.forward, q.forward);
  seats_kept = λ k h. q.seats_kept k (omega (arith, p.joined_grows)) ∙ p.seats_kept k h;
  routes_kept = λ a b ne h.
      let (sent, same) = p.routes_kept a b ne h in
      let (sent', same') = q.routes_kept a b ne sent in (sent', same' ∙ same);
}

reported-Evolves :
    (s : Session) (rep oth now : ℕ) (ok : Bool) → Evolves s (reported s rep oth now ok)
unfolding reported
reported-Evolves s rep oth now ok = record {
  same_id = refl;
  same_size = refl;
  same_version = refl;
  joined_grows = omega arith;
  forward = omega arith;
  seats_kept = λ k h. ground arith;
  routes_kept = λ a b ne h. (h, refl);
}

-- Only a pair without a route gets one.
decided-Evolves :
    (s : Session)
    → IsLive s
    → (a b now : ℕ) → a ≢ b
    → s.route_sent a b ≡ false
    → Evolves s (decided s a b now)
unfolding decided
decided-Evolves s v a b now ne fresh =
    let fresh' : s.route_sent b a ≡ false = sym (v.both_sent a b ne) ∙ fresh in
    record {
      same_id = refl;
      same_size = refl;
      same_version = refl;
      joined_grows = omega arith;
      forward = omega arith;
      seats_kept = λ k h. refl;
      routes_kept = λ c d h e. ground arith;
    }

arbitrate-Evolves :
    (s : Session)
    → IsLive s
    → (now : ℕ) (from : LobbyEndpoint) (a b : ℕ) → a ≢ b
    → Evolves s (arbitrate s now from a b).0
unfolding arbitrate
arbitrate-Evolves s v now from a b ne =
    elim (Bool-cases (not (is_seen (s.punch a b)) || not (is_seen (s.punch b a)))) [
      | inl waiting ↦ rw waiting (Evolves-refl s)
      | inr both ↦ elim (Bool-cases (s.route_sent a b)) [
        | inl sent ↦ rw (both, sent) (Evolves-refl s)
        | inr fresh ↦ rw (both, fresh) (decided-Evolves s v a b now ne fresh)
      ]
    ]

Write-Evolves : (from : LobbyEndpoint) (s t : Session) → IsLive s → Write from s t → Evolves s t
unfolding admitted reported arbitrate decided started acked
Write-Evolves from s t v (saw p now _ e) = rw e (record {
  same_id = refl;
  same_size = refl;
  same_version = refl;
  joined_grows = omega arith;
  forward = omega arith;
  seats_kept = λ k h. ground arith;
  routes_kept = λ a b h e. (e, refl);
})
Write-Evolves from s t v (admits slot now m waits stranger room here e) =
    let at = first_free_slot s v slot room here in
    rw e (record {
      same_id = refl;
      same_size = refl;
      same_version = refl;
      joined_grows = omega (arith, v.at_most_four);
      forward = omega arith;
      seats_kept = λ k h. ground arith;
      routes_kept = λ a b h e. (e, refl);
    })
Write-Evolves from s t v (reports rep oth now ok a b _ ne e) =
    let r = reported s rep oth now ok in
    rw e (
      Evolves-trans s r _ (reported-Evolves s rep oth now ok)
        (arbitrate-Evolves r (reported-IsLive s v rep oth now ok) now from a b ne))
Write-Evolves from s t v (starts now m _ _ e) = rw e (record {
  same_id = ground arith;
  same_size = ground arith;
  same_version = ground arith;
  joined_grows = ground arith;
  forward = ground arith;
  seats_kept = λ k h. ground arith;
  routes_kept = λ c d h e. ground arith;
})
Write-Evolves from s t v (acks p now _ e) = rw e (record {
  same_id = ground arith;
  same_size = ground arith;
  same_version = ground arith;
  joined_grows = ground arith;
  forward = ground arith;
  seats_kept = λ k h. ground arith;
  routes_kept = λ c d h e. ground arith;
})
Write-Evolves from s t v (relays p now _ e) = rw e (record {
  same_id = refl;
  same_size = refl;
  same_version = refl;
  joined_grows = omega arith;
  forward = omega arith;
  seats_kept = λ k h. ground arith;
  routes_kept = λ a b h e. (e, refl);
})

-- What a packet did to session i, if it was live.
pub data Effect (from : LobbyEndpoint) (s t : Session) : Type 0 where
  untouched : t ≡ s → Effect from s t
  written : Write from s t → Effect from s t

Change-Effect :
    (from : LobbyEndpoint) (rv rv' : Rendezvous) (i : ℕ)
    → is_free (rv.sessions i).phase ≡ false
    → Change from rv rv'
    → Effect from (rv.sessions i) (rv'.sessions i)
Change-Effect from rv rv' i live (keeps e _) = rw e (untouched refl)
Change-Effect from rv rv' i live (writes j t h f w e _) = elim (Bool-cases (i == j)) [
  | inl same ↦ let at : i ≡ j = ground arith in rw (e, same) (written (rw at w))
  | inr other ↦ rw (e, other) (untouched refl)
]
Change-Effect from rv rv' i live (opens j id now m h f _ _ _ e _) = elim (Bool-cases (i == j)) [
  | inl same ↦ absurd (ground arith)
  | inr other ↦ rw (e, other) (untouched refl)
]

handle_msg-Effect :
    (rv : Rendezvous) (now : ℕ) (from : LobbyEndpoint) (m : LobbyMsg) (buf : List ℕ) (i : ℕ)
    → is_free (rv.sessions i).phase ≡ false
    → Effect from (rv.sessions i) ((handle_msg rv now from m buf).0.sessions i)
unfolding handle_msg rate_take
handle_msg-Effect rv now from m buf i live =
    let limited = (rate_take rv now from.ip).0 in
    elim (Bool-cases (is_relay m)) [
      | inl free_pass ↦
          rw free_pass (Change-Effect from rv _ i live (dispatch-Change rv now from m buf))
      | inr control ↦ elim (Bool-cases (rate_take rv now from.ip).1) [
        | inl granted ↦
            rw (control, granted)
              (Change-Effect from limited _ i live (dispatch-Change limited now from m buf))
        | inr spent ↦ rw (control, spent) (untouched refl)
      ]
    ]

pub handle-Effect :
    (rv : Rendezvous) (now : ℕ) (from : LobbyEndpoint) (buf : List ℕ) (i : ℕ)
    → is_free (rv.sessions i).phase ≡ false
    → Effect from (rv.sessions i) ((handle rv now from buf).0.sessions i)
unfolding handle
handle-Effect rv now from buf i live = done_with (unpack buf)
  where
    done_with :
        (o : Outcome LobbyMsg)
        → Effect from (rv.sessions i) (
            (let r : Reply = elim o [
              | done m ↦ handle_msg rv now from m buf
              | refused ↦ (rv, [])
              | fault ↦ (rv, [])
            ] in
                r).0.sessions
              i)
    done_with (done m) = handle_msg-Effect rv now from m buf i live
    done_with refused = untouched refl
    done_with fault = untouched refl

-- On a server in order, no packet undoes what a live session has settled: its id, size and
-- version stay, nobody who is in loses the seat or the address, the phase only moves forward, and
-- a route that has been sent for a pair is never changed.
pub handle-Evolves :
    (rv : Rendezvous) (now : ℕ) (from : LobbyEndpoint) (buf : List ℕ) (i : ℕ)
    → IsValid rv
    → i < rv_max_sessions
    → is_free (rv.sessions i).phase ≡ false
    → Evolves (rv.sessions i) ((handle rv now from buf).0.sessions i)
handle-Evolves rv now from buf i v h live = settled (handle-Effect rv now from buf i live)
  where
    settled : {t : Session} → Effect from (rv.sessions i) t → Evolves (rv.sessions i) t
    settled (untouched e) = rw e (Evolves-refl (rv.sessions i))
    settled {t} (written w) = Write-Evolves from (rv.sessions i) t (v.table.each i h live) w
