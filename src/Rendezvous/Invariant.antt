-- ===== src/Rendezvous/Invariant.antt =====
-- The invariant of the rendezvous server's session table.
use bmhero_arena.Common.{
  ℕ, ◌%◌, ◌^◌, ◌≤◌, ◌<◌, ◌≡◌, ◌≢◌, true, false, not, ◌&&◌, none, some, ltb, ◌==◌, Array,
  first_index-some, first_index-none, arith, Bool-cases, inl, inr,
}
use bmhero_arena.Lobby.Proto.{LobbyEndpoint}
use bmhero_arena.Rendezvous.{
  rv_max_sessions, rv_max_players, Session, RateBucket, Rendezvous, ep_eq, is_free, find_session,
  peer_of, take_token, rate_take,
}
use bmhero_arena.Rendezvous.Handlers.{put, seen, is_seen}

-- A session that is not free: it has an id, seats for two to four, the seats are taken from slot 0
-- on, no address holds two of them, and a pair has a route only once both sides have reported.
pub record IsLive (s : Session) : Type 0 where
  pub has_id : s.id ≢ 0
  pub id_fits : s.id < 2 ^ 16
  pub at_least_two : 2 ≤ s.num_players
  pub at_most_four : s.num_players ≤ rv_max_players
  pub host_in : 1 ≤ s.joined
  pub not_over : s.joined ≤ s.num_players
  pub seats : (k : ℕ) → k < rv_max_players → (s.peers k).used ≡ ltb k s.joined
  pub own_address :
      (j k : ℕ)
      → j < s.joined
      → k < s.joined
      → ep_eq (s.peers j).public_ep (s.peers k).public_ep ≡ true
      → j ≡ k
  pub both_sent : (a b : ℕ) → a ≢ b → s.route_sent a b ≡ s.route_sent b a
  pub same_route : (a b : ℕ) → a ≢ b → s.route a b ≡ s.route b a
  pub sent_seen : (a b : ℕ) → a ≢ b → s.route_sent a b ≡ true → is_seen (s.punch a b) ≡ true
  pub route_kind : (a b : ℕ) → s.route a b ≤ 1

abbrev pub IsSession : Session → Type 0
IsSession s = is_free s.phase ≡ false → IsLive s

pub record IsTable (ss : Array Session) : Type 0 where
  pub each : (i : ℕ) → i < rv_max_sessions → IsSession (ss i)
  pub own_id :
      (i j : ℕ)
      → i < rv_max_sessions
      → j < rv_max_sessions
      → is_free (ss i).phase ≡ false
      → is_free (ss j).phase ≡ false
      → (ss i).id ≡ (ss j).id
      → i ≡ j

abbrev pub IsBucket : RateBucket → Type 0
IsBucket b = b.tokens_milli ≤ 40000

pub record IsValid (rv : Rendezvous) : Type 0 where
  pub table : IsTable rv.sessions
  pub buckets : (k : ℕ) → IsBucket (rv.rate k)

-- A search that found a session.
pub find_session-some :
    (ss : Array Session) (id i : ℕ)
    → find_session ss id ≡ some i
    → (i < rv_max_sessions) × (is_free (ss i).phase ≡ false) × ((ss i).id ≡ id) × (id ≢ 0)
unfolding find_session
find_session-some ss id i e = elim (Bool-cases (id == 0)) [
  | inl zero_id ↦ absurd (ground arith)
  | inr set ↦ ground (
    arith,
    first_index-some rv_max_sessions (λ k. not (is_free (ss k).phase) && (ss k).id == id) i,
  )
]

pub find_session-none :
    (ss : Array Session) (id i : ℕ)
    → find_session ss id ≡ none
    → id ≢ 0
    → i < rv_max_sessions
    → is_free (ss i).phase ≡ false
    → (ss i).id ≢ id
unfolding find_session
find_session-none ss id i e nz h live =
    ground (
      arith,
      first_index-none rv_max_sessions (λ k. not (is_free (ss k).phase) && (ss k).id == id) i,
    )

pub peer_of-some :
    (s : Session) (from : LobbyEndpoint) (p : ℕ)
    → peer_of s from ≡ some p
    → (p < rv_max_players) × ((s.peers p).used ≡ true) × (ep_eq (s.peers p).public_ep from ≡ true)
unfolding peer_of
peer_of-some s from p e = ground (
  arith,
  first_index-some rv_max_players (λ i. (s.peers i).used && ep_eq (s.peers i).public_ep from) p e,
)

-- A write to a live session that keeps its id.
pub put-IsTable :
    (rv : Rendezvous) (i : ℕ) (s : Session)
    → IsTable rv.sessions
    → i < rv_max_sessions
    → is_free (rv.sessions i).phase ≡ false
    → s.id ≡ (rv.sessions i).id
    → IsSession s
    → IsTable (put rv i s).sessions
put-IsTable rv i s t h live same v = record {
  each =
      λ k lt. elim (Bool-cases (k == i)) [ inl hit ↦ rw hit v | inr miss ↦ rw miss (t.each k lt) ];
  own_id = λ j k hj hk fj fk e. ground (arith, t.own_id j k, t.own_id i k, t.own_id j i);
}

pub take_token-IsBucket : (b : RateBucket) (now : ℕ) → IsBucket b → IsBucket (take_token b now).0
unfolding take_token
take_token-IsBucket b now h = ground arith

pub rate_take-IsValid :
    (rv : Rendezvous) (now ip : ℕ) → IsValid rv → IsValid (rate_take rv now ip).0
unfolding rate_take
rate_take-IsValid rv now ip v = record {
  table = v.table;
  buckets = λ k.
      ground
        (arith, v.buckets k, take_token-IsBucket (rv.rate (ip % 256)) now (v.buckets (ip % 256)));
}

pub seen-IsLive : (s : Session) (p now : ℕ) → IsLive s → IsLive (seen s p now)
seen-IsLive s p now v = record {
  has_id = v.has_id;
  id_fits = v.id_fits;
  at_least_two = v.at_least_two;
  at_most_four = v.at_most_four;
  host_in = v.host_in;
  not_over = v.not_over;
  seats = λ k h. ground (arith, v.seats k h);
  own_address = λ j k hj hk e. ground (arith, v.own_address j k hj hk);
  both_sent = v.both_sent;
  same_route = v.same_route;
  sent_seen = v.sent_seen;
  route_kind = v.route_kind;
}
