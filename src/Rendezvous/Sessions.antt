-- ===== src/Rendezvous/Sessions.antt =====
-- What each handler does to a session keeps the session's invariant.
use bmhero_arena.Common.{
  ℕ, ◌^◌, ◌<◌, ◌≡◌, ◌≢◌, refl, Bool, true, not, ◌&&◌, none, some, first_index, first_index-some,
  first_index-none, first_index_before, arith,
}
use bmhero_arena.Lobby.Proto.{LobbyEndpoint, HostReq, JoinReq, Start}
use bmhero_arena.Rendezvous.{rv_max_players, Session, ep_eq, peer_of}
use bmhero_arena.Rendezvous.Handlers.{is_seen, hosted, admitted, reported, decided, started, acked}
use bmhero_arena.Rendezvous.Invariant.{IsLive, seen-IsLive}

pub hosted-IsLive :
    (id now : ℕ) (from : LobbyEndpoint) (m : HostReq)
    → id ≢ 0
    → id < 2 ^ 16
    → IsLive (hosted id now from m)
unfolding hosted
hosted-IsLive id now from m nz fits = record {
  has_id = nz;
  id_fits = fits;
  at_least_two = ground arith;
  at_most_four = ground arith;
  host_in = omega arith;
  not_over = ground arith;
  seats = λ k h. ground arith;
  own_address = λ j k hj hk e. omega arith;
  both_sent = λ a b h. refl;
  same_route = λ a b h. refl;
  sent_seen = λ a b h e. cc;
  route_kind = λ a b. omega arith;
}

module _ (s : Session) (v : IsLive s) where
  -- The free slot that a newcomer gets is the next one.
  pub first_free_slot :
      (slot : ℕ)
      → s.joined < s.num_players
      → first_index rv_max_players (λ k. not (s.peers k).used) ≡ some slot
      → slot ≡ s.joined
  first_free_slot slot room e =
      let (lt, here) = first_index-some rv_max_players (λ k. not (s.peers k).used) slot e in
      let before = first_index_before rv_max_players (λ k. not (s.peers k).used) slot s.joined e in
      let a = v.seats slot lt in
      let b = v.seats s.joined (omega (arith, v.not_over, v.at_most_four)) in
      ground (arith, v.at_most_four, before)

  pub admitted-IsLive :
      (slot now : ℕ) (from : LobbyEndpoint) (m : JoinReq)
      → s.joined < s.num_players
      → slot ≡ s.joined
      → peer_of s from ≡ none
      → IsLive (admitted s slot now from m)
  unfolding admitted peer_of
  admitted-IsLive slot now from m room here stranger = record {
    has_id = v.has_id;
    id_fits = v.id_fits;
    at_least_two = v.at_least_two;
    at_most_four = v.at_most_four;
    host_in = omega (arith, v.at_most_four);
    not_over = omega (arith, v.at_most_four);
    seats = λ k h. ground (arith, v.seats k h, v.at_most_four);
    own_address = λ j k hj hk e. ground (
      arith,
      v.at_most_four,
      v.own_address j k,
      v.seats j,
      v.seats k,
      first_index-none rv_max_players (λ i. (s.peers i).used && ep_eq (s.peers i).public_ep from) j,
      first_index-none rv_max_players (λ i. (s.peers i).used && ep_eq (s.peers i).public_ep from) k,
    );
    both_sent = v.both_sent;
    same_route = v.same_route;
    sent_seen = v.sent_seen;
    route_kind = v.route_kind;
  }

  pub reported-IsLive : (rep oth now : ℕ) (ok : Bool) → IsLive (reported s rep oth now ok)
  unfolding reported
  reported-IsLive rep oth now ok =
      let w = seen-IsLive s rep now v in
      record {
        has_id = w.has_id;
        id_fits = w.id_fits;
        at_least_two = w.at_least_two;
        at_most_four = w.at_most_four;
        host_in = w.host_in;
        not_over = w.not_over;
        seats = w.seats;
        own_address = w.own_address;
        both_sent = w.both_sent;
        same_route = w.same_route;
        sent_seen = λ a b h e. ground (arith, v.sent_seen a b h);
        route_kind = w.route_kind;
      }

  pub decided-IsLive :
      (a b now : ℕ)
      → a ≢ b
      → is_seen (s.punch a b) ≡ true
      → is_seen (s.punch b a) ≡ true
      → IsLive (decided s a b now)
  unfolding decided
  decided-IsLive a b now ne p q = record {
    has_id = v.has_id;
    id_fits = v.id_fits;
    at_least_two = v.at_least_two;
    at_most_four = v.at_most_four;
    host_in = v.host_in;
    not_over = v.not_over;
    seats = v.seats;
    own_address = v.own_address;
    both_sent = λ c d h. ground (arith, v.both_sent c d h);
    same_route = λ c d h. ground (arith, v.same_route c d h);
    sent_seen = λ c d h e. ground (arith, v.sent_seen c d h);
    route_kind = λ c d. ground (arith, v.route_kind c d);
  }

  pub started-IsLive : (now : ℕ) (m : Start) → IsLive (started s now m)
  unfolding started
  started-IsLive now m =
      let w = seen-IsLive s 0 now v in
      record {
        has_id = ground (arith, w.has_id);
        id_fits = ground (arith, w.id_fits);
        at_least_two = ground (arith, w.at_least_two);
        at_most_four = ground (arith, w.at_most_four);
        host_in = ground (arith, w.host_in);
        not_over = ground (arith, w.not_over);
        seats = λ k h. ground (arith, v.seats k h);
        own_address = λ j k hj hk e. ground (arith, v.own_address j k);
        both_sent = λ c d h. ground (arith, v.both_sent c d h);
        same_route = λ c d h. ground (arith, v.same_route c d h);
        sent_seen = λ c d h e. ground (arith, v.sent_seen c d h);
        route_kind = λ c d. ground (arith, v.route_kind c d);
      }

  pub acked-IsLive : (p now : ℕ) → IsLive (acked s p now)
  unfolding acked
  acked-IsLive p now = record {
    has_id = ground (arith, v.has_id);
    id_fits = ground (arith, v.id_fits);
    at_least_two = ground (arith, v.at_least_two);
    at_most_four = ground (arith, v.at_most_four);
    host_in = ground (arith, v.host_in);
    not_over = ground (arith, v.not_over);
    seats = λ k h. ground (arith, v.seats k h);
    own_address = λ j k hj hk e. ground (arith, v.own_address j k);
    both_sent = λ c d h. ground (arith, v.both_sent c d h);
    same_route = λ c d h. ground (arith, v.same_route c d h);
    sent_seen = λ c d h e. ground (arith, v.sent_seen c d h);
    route_kind = λ c d. ground (arith, v.route_kind c d);
  }
