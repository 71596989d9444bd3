-- ===== src/Rendezvous/Preserve.antt =====
-- Every packet keeps the server's invariant, since every move does.
use bmhero_arena.Common.{
  ℕ, ◌≡◌, ◌≢◌, not, ◌||◌, none, List, [], ◌==◌, Array, update, arith, Bool-cases, inl, inr,
}
use bmhero_arena.Lobby.Proto.{LobbyEndpoint, LobbyMsg}
use bmhero_arena.Lobby.Proto.Wire.{Outcome, done, refused, fault}
use bmhero_arena.Lobby.Proto.Unpack.{unpack}
use bmhero_arena.Rendezvous.{Session, Rendezvous, Reply, find_session, rate_take}
use bmhero_arena.Rendezvous.Handlers.{
  seen, is_seen, hosted, admitted, reported, arbitrate, decided, started, acked, is_relay,
  handle_msg, handle,
}
use bmhero_arena.Rendezvous.Invariant.{
  IsLive, IsTable, IsValid, seen-IsLive, put-IsTable, find_session-none, rate_take-IsValid,
}
use bmhero_arena.Rendezvous.Sessions.{
  hosted-IsLive, admitted-IsLive, first_free_slot, reported-IsLive, decided-IsLive, started-IsLive,
  acked-IsLive,
}
use bmhero_arena.Rendezvous.Moves.{
  Write, saw, admits, reports, starts, acks, relays, Change, keeps, writes, opens, dispatch-Change,
}

arbitrate-IsLive :
    (s : Session) (now : ℕ) (from : LobbyEndpoint) (a b : ℕ)
    → a ≢ b
    → IsLive s
    → IsLive (arbitrate s now from a b).0
unfolding arbitrate
arbitrate-IsLive s now from a b ne v =
    elim (Bool-cases (not (is_seen (s.punch a b)) || not (is_seen (s.punch b a)))) [
      | inl waiting ↦ rw waiting v
      | inr both ↦ elim (Bool-cases (s.route_sent a b)) [
        | inl sent ↦ rw (both, sent) v
        | inr fresh ↦ rw (both, fresh) (decided-IsLive s v a b now ne (ground arith) (ground arith))
      ]
    ]

relayed-IsLive :
    (s : Session) (p now : ℕ) → IsLive s → IsLive (record (seen s p now) { last_relay_ms = now })
relayed-IsLive s p now v =
    let w = seen-IsLive s p now v in
    record {
      has_id = w.has_id;
      id_fits = w.id_fits;
      at_least_two = w.at_least_two;
      at_most_four = w.at_most_four;
      host_in = w.host_in;
      not_over = w.not_over;
      seats = w.seats;
      own_address = w.own_address;
      both_sent = w.both_sent;
      same_route = w.same_route;
      sent_seen = w.sent_seen;
      route_kind = w.route_kind;
    }

pub Write-IsLive : (from : LobbyEndpoint) (s t : Session) → IsLive s → Write from s t → IsLive t
Write-IsLive from s t v (saw p now _ e) = rw e (seen-IsLive s p now v)
Write-IsLive from s t v (admits slot now m waits stranger room here e) =
    rw e (admitted-IsLive s v slot now from m room (first_free_slot s v slot room here) stranger)
Write-IsLive from s t v (reports rep oth now ok a b _ ne e) = rw e (
    arbitrate-IsLive (reported s rep oth now ok) now from a b ne
      (reported-IsLive s v rep oth now ok))
Write-IsLive from s t v (starts now m _ _ e) = rw e (started-IsLive s v now m)
Write-IsLive from s t v (acks p now _ e) = rw e (acked-IsLive s v p now)
Write-IsLive from s t v (relays p now _ e) = rw e (relayed-IsLive s p now v)

-- No handler changes a session's id.
pub Write-id : (from : LobbyEndpoint) (s t : Session) → Write from s t → t.id ≡ s.id
unfolding admitted reported arbitrate decided started acked
Write-id from s t (saw p now _ e) = ground arith
Write-id from s t (admits slot now m _ _ _ _ e) = ground arith
Write-id from s t (reports rep oth now ok a b _ _ e) = ground arith
Write-id from s t (starts now m _ _ e) = ground arith
Write-id from s t (acks p now _ e) = ground arith
Write-id from s t (relays p now _ e) = ground arith

-- A new session at a free place, with an id that no session has.
put_new-IsTable :
    (ss : Array Session) (i : ℕ) (s : Session)
    → IsTable ss
    → IsLive s
    → find_session ss s.id ≡ none
    → IsTable (update ss i s)
put_new-IsTable ss i s t w fresh = record {
  each = λ k lt. elim (Bool-cases (k == i)) [
    | inl hit ↦ rw hit (λ _. w)
    | inr miss ↦ rw miss (t.each k lt)
  ];
  own_id = λ j k hj hk fj fk q. ground (
    arith,
    t.own_id j k,
    find_session-none ss s.id j fresh w.has_id hj,
    find_session-none ss s.id k fresh w.has_id hk,
  );
}

pub Change-IsValid :
    (from : LobbyEndpoint) (rv rv' : Rendezvous) → IsValid rv → Change from rv rv' → IsValid rv'
unfolding hosted
Change-IsValid from rv rv' v (keeps e q) = record {
  table = rw e v.table;
  buckets = λ k. rw q (v.buckets k);
}
Change-IsValid from rv rv' v (writes i t h f w e q) = record {
  table = rw e (
      put-IsTable rv i t v.table h f (Write-id from (rv.sessions i) t w)
        (λ _. Write-IsLive from (rv.sessions i) t (v.table.each i h f) w));
  buckets = λ k. rw q (v.buckets k);
}
Change-IsValid from rv rv' v (opens i id now m h f nz fits fresh e q) = record {
  table = rw e (
      put_new-IsTable rv.sessions i (hosted id now from m) v.table
        (hosted-IsLive id now from m nz fits) fresh);
  buckets = λ k. rw q (v.buckets k);
}

handle_msg-IsValid :
    (rv : Rendezvous)
    → IsValid rv
    → (now : ℕ) (from : LobbyEndpoint) (m : LobbyMsg) (buf : List ℕ)
    → IsValid (handle_msg rv now from m buf).0
unfolding handle_msg
handle_msg-IsValid rv v now from m buf =
    let limited = (rate_take rv now from.ip).0 in
    let w = rate_take-IsValid rv now from.ip v in
    elim (Bool-cases (is_relay m)) [
      | inl free_pass ↦
          rw free_pass (Change-IsValid from rv _ v (dispatch-Change rv now from m buf))
      | inr control ↦ elim (Bool-cases (rate_take rv now from.ip).1) [
        | inl granted ↦
            rw (control, granted)
              (Change-IsValid from limited _ w (dispatch-Change limited now from m buf))
        | inr spent ↦ rw (control, spent) w
      ]
    ]

-- Whatever arrives from whatever address, rv_handle keeps the table in order: live sessions have
-- different nonzero ids and seats for two to four; their seats are taken from slot 0 on and never
-- beyond num_players; no address holds two seats of a session; the routes of a pair agree both
-- ways and exist only where both sides have reported; and no bucket holds more than its burst.
pub handle-IsValid :
    (rv : Rendezvous) (now : ℕ) (from : LobbyEndpoint) (buf : List ℕ)
    → IsValid rv
    → IsValid (handle rv now from buf).0
unfolding handle
handle-IsValid rv now from buf v = kept (unpack buf)
  where
    kept :
        (o : Outcome LobbyMsg)
        → IsValid
            (let r : Reply = elim o [
              | done m ↦ handle_msg rv now from m buf
              | refused ↦ (rv, [])
              | fault ↦ (rv, [])
            ] in
              r).0
    kept (done m) = handle_msg-IsValid rv v now from m buf
    kept refused = v
    kept fault = v
