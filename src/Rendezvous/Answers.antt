-- ===== src/Rendezvous/Answers.antt =====
-- The sizes of what a HOST_REQ or a JOIN_REQ is answered with.
use bmhero_arena.Common.{
  ℕ, ◌≤◌, ◌<◌, ◌≡◌, refl, Bool, true, false, not, ◌||◌, Bool-cases, Option-cases, inl, inr, List,
  [], ltb, leb, ◌==◌, if◌then◌else◌, length, All, All-map, All-append, arith, u8, first_index,
}
use bmhero_arena.Lobby.Proto.{
  LobbyEndpoint, HostReq, JoinReq, LobbyMsg, host_req, host_resp, join_req, join_resp, reject,
  peer_intro, punch, punch_ack, punch_report, pair_route, relay, game, start, start_ack, keepalive,
  rej_full, rej_bad_session, rej_expired, rej_version_mismatch, lobby_magic, lobby_proto_ver,
}
use bmhero_arena.Lobby.Proto.Wire.{Outcome, done, refused, fault, ◌>>=◌, rd8, rd32}
use bmhero_arena.Lobby.Proto.Unpack.{
  unpack_host_req, unpack_host_resp, unpack_join_req, unpack_join_resp, unpack_reject,
  unpack_peer_intro, unpack_punch, unpack_punch_report, unpack_pair_route, unpack_relay,
  unpack_start, unpack_start_ack, map_done, unpack_body, unpack,
}
use bmhero_arena.Lobby.Proto.RoundTrip.{wire_size, length-pack}
use bmhero_arena.Rendezvous.{
  rv_max_sessions, rv_max_players, Session, Rendezvous, Datagram, Reply, is_free, is_lobby,
  find_session, peer_of, emit_msg, emit_reject, intro_of, fan_peer_intro, resend_intros_to,
  rate_take,
}
use bmhero_arena.Rendezvous.Sending.{emit_msg-All, players-All, All-if}
use bmhero_arena.Rendezvous.Handlers.{
  hosts_lobby, pick_id, host_retry, open_session, do_host_req, join_retry, join_new, do_join_req,
  admitted, seen, dispatch, handle_msg, handle,
}

abbrev pub asks : LobbyMsg → Bool
asks (host_req m) = true
asks (join_req m) = true
asks _ = false

-- What a reader returns, if it returns, satisfies P.
abbrev Gets {ℓ} : {A : Type ℓ} → (A → Type 0) → Outcome A → Type 0
Gets P (done a) = P a
Gets P _ = Unit

Gets-of {ℓ} : {A : Type ℓ} (P : A → Type 0) (o : Outcome A) → ((a : A) → P a) → Gets P o
Gets-of P (done a) f = f a
Gets-of P refused f = tt
Gets-of P fault f = tt

Gets-map {ℓ} :
    {A : Type ℓ} (P : LobbyMsg → Type 0) (f : A → LobbyMsg) (o : Outcome A)
    → Gets (λ a. P (f a)) o
    → Gets P (map_done f o)
Gets-map P f (done a) r = r
Gets-map P f refused r = r
Gets-map P f fault r = r

Gets-if {ℓ} :
    {A : Type ℓ} (P : A → Type 0) (b : Bool) (x y : Outcome A)
    → Gets P x
    → Gets P y
    → Gets P (if b then x else y)
Gets-if P true x y p q = p
Gets-if P false x y p q = q

Gets-bind {ℓ} :
    {A : Type 0} {B : Type ℓ} (P : B → Type 0) (o : Outcome A) (k : A → Outcome B)
    → ((a : A) → Gets P (k a))
    → Gets P (o >>= k)
Gets-bind P (done a) k f = f a
Gets-bind P refused k f = tt
Gets-bind P fault k f = tt

module _ (buf : List ℕ) where
  abbrev Padded : LobbyMsg → Type 0
  Padded m = asks m ≡ true → 32 ≤ length buf

  host_req-Padded : Gets (λ m. Padded (host_req m)) (unpack_host_req buf)
  unfolding unpack_host_req
  host_req-Padded = elim (Bool-cases (ltb (length buf) 32)) [
    | inl short ↦ rw short tt
    | inr long ↦ Gets-of (λ m. Padded (host_req m)) (unpack_host_req buf) (λ m. λ e. ground arith)
  ]

  join_req-Padded : Gets (λ m. Padded (join_req m)) (unpack_join_req buf)
  unfolding unpack_join_req
  join_req-Padded = elim (Bool-cases (ltb (length buf) 32)) [
    | inl short ↦ rw short tt
    | inr long ↦ Gets-of (λ m. Padded (join_req m)) (unpack_join_req buf) (λ m. λ e. ground arith)
  ]

  other {ℓ} :
      {A : Type ℓ} (f : A → LobbyMsg) (o : Outcome A)
      → ((a : A) → asks (f a) ≡ false)
      → Gets Padded (map_done f o)
  other f o quiet =
      Gets-map Padded f o
        (Gets-of (λ a. Padded (f a)) o (λ a. λ e. absurd (ground (arith, quiet a))))

  unpack_body-Padded : (t : ℕ) → Gets Padded (unpack_body t buf)
  unfolding unpack_body
  unpack_body-Padded t =
      Gets-if Padded (t == 1) _ _ (Gets-map Padded host_req (unpack_host_req buf) host_req-Padded) (
        Gets-if Padded (t == 2) _ _ (other host_resp (unpack_host_resp buf) (λ a. refl)) (
          Gets-if Padded (t == 3) _ _
            (Gets-map Padded join_req (unpack_join_req buf) join_req-Padded)
            (Gets-if Padded (t == 4) _ _ (other join_resp (unpack_join_resp buf) (λ a. refl)) (
              Gets-if Padded (t == 5) _ _ (other reject (unpack_reject buf) (λ a. refl)) (
                Gets-if Padded (t == 6) _ _ (other peer_intro (unpack_peer_intro buf) (λ a. refl)) (
                  Gets-if Padded (t == 7) _ _ (other punch (unpack_punch buf) (λ a. refl)) (
                    Gets-if Padded (t == 8) _ _ (other punch_ack (unpack_punch buf) (λ a. refl)) (
                      Gets-if Padded (t == 9) _ _
                        (other punch_report (unpack_punch_report buf) (λ a. refl))
                        (Gets-if Padded (t == 10) _ _
                          (other pair_route (unpack_pair_route buf) (λ a. refl))
                          (Gets-if Padded (t == 11) _ _ (other relay (unpack_relay buf) (λ a. refl))
                            (Gets-if Padded (t == 12) _ _
                              (other game (unpack_relay buf) (λ a. refl))
                              (Gets-if Padded (t == 13) _ _
                                (other start (unpack_start buf) (λ a. refl))
                                (Gets-if Padded (t == 14) _ _
                                  (other start_ack (unpack_start_ack buf) (λ a. refl))
                                  (Gets-if Padded (t == 15) _ _
                                    (other keepalive (unpack_start_ack buf) (λ a. refl))
                                    tt))))))))))))))

  -- A request that is accepted has its padding.
  unpack-Padded : Gets Padded (unpack buf)
  unfolding unpack
  unpack-Padded = Gets-if Padded (ltb (length buf) 6) _ _ tt (
      Gets-bind Padded (rd32 buf 0) _ λ magic. Gets-bind Padded (rd8 buf 4) _ λ ver.
        Gets-bind Padded (rd8 buf 5) _ λ t.
          Gets-if Padded (not (magic == lobby_magic) || not (ver == lobby_proto_ver)) _ _ tt
            (unpack_body-Padded t))

abbrev Small : Datagram → Type 0
Small d = length d.bytes < 32

emit_msg-Small : (to : LobbyEndpoint) (m : LobbyMsg) → wire_size m < 32 → All Small (emit_msg to m)
emit_msg-Small to m h = emit_msg-All Small to m (λ bs e. ground (arith, length-pack m bs e))

resend_intros_to-Small : (s : Session) (who : ℕ) → All Small (resend_intros_to s who)
unfolding resend_intros_to
resend_intros_to-Small s who = players-All Small _ λ i.
    All-if Small (i == who || not (s.peers i).used) [] _ tt
      (emit_msg-Small (s.peers who).public_ep (intro_of s i) (ground arith))

fan_peer_intro-Small : (s : Session) (new : ℕ) → All Small (fan_peer_intro s new)
unfolding fan_peer_intro
fan_peer_intro-Small s new = players-All Small _ λ i.
    All-if Small (i == new || not (s.peers i).used) [] _ tt (
      All-append Small (emit_msg (s.peers i).public_ep (intro_of s new)) _
        (emit_msg-Small (s.peers i).public_ep (intro_of s new) (ground arith))
        (emit_msg-Small (s.peers new).public_ep (intro_of s i) (ground arith)))

abbrev Answers : Reply → Type 0
Answers r = All Small (r.1)

reject-Small : (to : LobbyEndpoint) (r : ℕ) → All Small (emit_reject to r)
unfolding emit_reject
reject-Small to r = emit_msg-Small to (reject r) (ground arith)

open_session-Answers :
    (rv : Rendezvous) (now : ℕ) (from : LobbyEndpoint) (m : HostReq) (i : ℕ)
    → Answers (open_session rv now from m i)
unfolding open_session
open_session-Answers rv now from m i = elim (Option-cases (pick_id 4096 rv.rng rv.sessions).0) [
  | inl e ↦ rw (e, open_session) (reject-Small from rej_full)
  | inr (id, e) ↦ rw (e, open_session) (emit_msg-Small from (host_resp id) (ground arith))
]

do_host_req-Answers :
    (rv : Rendezvous) (now : ℕ) (from : LobbyEndpoint) (m : HostReq)
    → Answers (do_host_req rv now from m)
unfolding do_host_req host_retry
do_host_req-Answers rv now from m =
    elim (Option-cases (first_index rv_max_sessions (hosts_lobby rv.sessions from))) [
      | inr (i, e) ↦
          let c = seen (rv.sessions i) 0 now in
          rw (e, do_host_req)
            (All-append Small (emit_msg from (host_resp c.id)) (resend_intros_to c 0)
              (emit_msg-Small from (host_resp c.id) (ground arith)) (resend_intros_to-Small c 0))
      | inl e ↦
          elim (Option-cases (first_index rv_max_sessions (λ i. is_free (rv.sessions i).phase))) [
            | inl f ↦ rw (e, f, do_host_req) (reject-Small from rej_full)
            | inr (i, f) ↦ rw (e, f, do_host_req) (open_session-Answers rv now from m i)
          ]
    ]

join_new-Answers :
    (rv : Rendezvous) (now : ℕ) (from : LobbyEndpoint) (m : JoinReq) (i : ℕ)
    → Answers (join_new rv now from m i)
unfolding join_new
join_new-Answers rv now from m i =
    let s = rv.sessions i in
    elim (Bool-cases (m.net_version == s.net_version)) [
      | inr e ↦ rw (e, join_new) (reject-Small from rej_version_mismatch)
      | inl e ↦ elim (Bool-cases (leb s.num_players s.joined)) [
        | inl f ↦ rw (e, f, join_new) (reject-Small from rej_full)
        | inr f ↦ elim (Option-cases (first_index rv_max_players (λ k. not (s.peers k).used))) [
          | inl g ↦ rw (e, f, g, join_new) (reject-Small from rej_full)
          | inr (slot, g) ↦
              let r = join_resp (record { slot = u8 slot; num_players = s.num_players }) in
              let s' = admitted s slot now from m in
              rw (e, f, g, join_new)
                (All-append Small (emit_msg from r) (fan_peer_intro s' slot)
                  (emit_msg-Small from r (ground arith)) (fan_peer_intro-Small s' slot))
        ]
      ]
    ]

do_join_req-Answers :
    (rv : Rendezvous) (now : ℕ) (from : LobbyEndpoint) (m : JoinReq)
    → Answers (do_join_req rv now from m)
unfolding do_join_req join_retry
do_join_req-Answers rv now from m = elim (Option-cases (find_session rv.sessions m.session_id)) [
  | inl e ↦ rw (e, do_join_req) (reject-Small from rej_bad_session)
  | inr (i, e) ↦ elim (Bool-cases (is_lobby (rv.sessions i).phase)) [
    | inr f ↦ rw (e, f, do_join_req) (reject-Small from rej_expired)
    | inl f ↦ elim (Option-cases (peer_of (rv.sessions i) from)) [
      | inl g ↦ rw (e, f, g, do_join_req) (join_new-Answers rv now from m i)
      | inr (k, g) ↦
          let s = seen (rv.sessions i) k now in
          let r = join_resp (record { slot = u8 k; num_players = s.num_players }) in
          rw (e, f, g, do_join_req)
            (All-append Small (emit_msg from r) (resend_intros_to s k)
              (emit_msg-Small from r (ground arith)) (resend_intros_to-Small s k))
    ]
  ]
]

dispatch-Answers :
    (rv : Rendezvous) (now : ℕ) (from : LobbyEndpoint) (m : LobbyMsg) (buf : List ℕ)
    → asks m ≡ true
    → Answers (dispatch rv now from m buf)
unfolding dispatch
dispatch-Answers rv now from (host_req m) buf e = do_host_req-Answers rv now from m
dispatch-Answers rv now from (join_req m) buf e = do_join_req-Answers rv now from m
dispatch-Answers rv now from m buf e = absurd (ground arith)

handle_msg-Answers :
    (rv : Rendezvous) (now : ℕ) (from : LobbyEndpoint) (m : LobbyMsg) (buf : List ℕ)
    → asks m ≡ true
    → Answers (handle_msg rv now from m buf)
unfolding handle_msg
handle_msg-Answers rv now from (relay m) buf e = absurd (ground arith)
handle_msg-Answers rv now from (host_req m) buf e = elim (Bool-cases (rate_take rv now from.ip).1) [
  | inl granted ↦
      rw (granted, handle_msg)
        (dispatch-Answers (rate_take rv now from.ip).0 now from (host_req m) buf e)
  | inr denied ↦ rw (denied, handle_msg) tt
]
handle_msg-Answers rv now from (join_req m) buf e = elim (Bool-cases (rate_take rv now from.ip).1) [
  | inl granted ↦
      rw (granted, handle_msg)
        (dispatch-Answers (rate_take rv now from.ip).0 now from (join_req m) buf e)
  | inr denied ↦ rw (denied, handle_msg) tt
]
handle_msg-Answers rv now from m buf e = absurd (ground arith)

-- Each datagram is shorter than the request.
abbrev pub Smaller : List ℕ → List Datagram → Type 0
Smaller buf out = All (λ d. length d.bytes < length buf) out

-- A datagram that lobby_unpack takes for a HOST_REQ or a JOIN_REQ is at least 32 bytes long, and every
-- datagram that rv_handle sends while it handles it, to the asker or to a member, is shorter
-- than it.
pub handle-Smaller :
    (rv : Rendezvous) (now : ℕ) (from : LobbyEndpoint) (buf : List ℕ) (m : LobbyMsg)
    → unpack buf ≡ done m
    → asks m ≡ true
    → (32 ≤ length buf) × Smaller buf (handle rv now from buf).1
unfolding handle
handle-Smaller rv now from buf m e a =
    let all : Gets (Padded buf) (unpack buf) = unpack-Padded buf in
    let one : Padded buf m = rw e at all in
    let padded : 32 ≤ length buf = one a in
    (
      padded,
      rw (e, handle)
          (All-map Small (λ d. length d.bytes < length buf) (handle_msg rv now from m buf).1
            (λ d small. ground arith) (handle_msg-Answers rv now from m buf a)),
    )
