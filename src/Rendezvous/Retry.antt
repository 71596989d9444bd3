-- ===== src/Rendezvous/Retry.antt =====
-- A repeated HOST_REQ gets the same session.
use bmhero_arena.Common.{
  ℕ, ◌<◌, ◌≡◌, refl, sym, ap, ◌∙◌, ◌⊎◌, none, some, List, [], ◌++◌, update, Option-cases, inl, inr,
  arith, first_index, first_index-some, first_index-none, first_index_before, first_index_found,
  update_self,
}
use mathlib.Core.List.{append-nil}
use bmhero_arena.Lobby.Proto.{LobbyEndpoint, HostReq, host_resp, rej_full}
use bmhero_arena.Rendezvous.{
  rv_max_sessions, Rendezvous, Datagram, Reply, is_free, emit_msg, emit_reject, resend_intros_to,
}
use bmhero_arena.Rendezvous.Handlers.{
  seen, hosts_lobby, hosted, pick_id, host_retry, open_session, do_host_req,
}

-- The datagrams begin with the HOST_RESP for the session.
abbrev pub Offers : LobbyEndpoint → ℕ → List Datagram → Type 0
Offers from id out = (rest : List Datagram) × (out ≡ emit_msg from (host_resp id) ++ rest)

-- The sender's lobby is the first one, and the reply offers it.
abbrev Serves : LobbyEndpoint → ℕ → Reply → Type 0
Serves from i (rv, out) =
    (first_index rv_max_sessions (hosts_lobby rv.sessions from) ≡ some i)
    × Offers from (rv.sessions i).id out

module _ (from : LobbyEndpoint) where
  -- The retry itself: the lobby stays the first one, and is offered.
  host_retry-Serves :
      (rv : Rendezvous) (now i : ℕ)
      → first_index rv_max_sessions (hosts_lobby rv.sessions from) ≡ some i
      → Serves from i (host_retry rv now from i)
  unfolding host_retry
  host_retry-Serves rv now i e =
      let c = seen (rv.sessions i) 0 now in
      let (lt, hit) = first_index-some rv_max_sessions (hosts_lobby rv.sessions from) i e in
      let before = λ (j : ℕ) (h : j < i).
        first_index_before rv_max_sessions (hosts_lobby rv.sessions from) i j e h in
      (
        first_index_found rv_max_sessions
            (hosts_lobby (update rv.sessions i (seen (rv.sessions i) 0 now)) from) i lt
            (ground arith) (λ j h. ground (arith, before j h)),
        (
          resend_intros_to c 0,
          ap (λ t. emit_msg from (host_resp t.id) ++ resend_intros_to c 0)
              (sym (update_self rv.sessions i c)),
        ),
      )

  open_session-Serves :
      (rv : Rendezvous) (now : ℕ) (m : HostReq) (i : ℕ)
      → i < rv_max_sessions
      → first_index rv_max_sessions (hosts_lobby rv.sessions from) ≡ none
      → Serves from i (open_session rv now from m i)
        ⊎ ((open_session rv now from m i).1 ≡ emit_reject from rej_full)
  unfolding open_session hosted
  open_session-Serves rv now m i lt none_yet =
      elim (Option-cases (pick_id 4096 rv.rng rv.sessions).0) [
        | inl no_id ↦ rw (no_id, open_session) (inr refl)
        | inr (id, e) ↦
            let s = hosted id now from m in
            rw (e, open_session)
              (inl (
                first_index_found rv_max_sessions (hosts_lobby (update rv.sessions i s) from) i lt
                    (ground arith)
                    (λ j h. ground (
                      arith,
                      first_index-none rv_max_sessions (hosts_lobby rv.sessions from) j none_yet,
                    )),
                (
                  [],
                  sym (append-nil (emit_msg from (host_resp id)))
                      ∙ ap (λ t. emit_msg from (host_resp t.id) ++ [])
                          (sym (update_self rv.sessions i s)),
                ),
              ))
      ]

  do_host_req-Serves :
      (rv : Rendezvous) (now : ℕ) (m : HostReq)
      → ((i : ℕ) × Serves from i (do_host_req rv now from m))
        ⊎ ((do_host_req rv now from m).1 ≡ emit_reject from rej_full)
  unfolding do_host_req
  do_host_req-Serves rv now m =
      elim (Option-cases (first_index rv_max_sessions (hosts_lobby rv.sessions from))) [
        | inr (i, e) ↦ rw (e, do_host_req) (inl (i, host_retry-Serves rv now i e))
        | inl none_yet ↦
            elim (Option-cases (first_index rv_max_sessions (λ i. is_free (rv.sessions i).phase))) [
              | inl full ↦ rw (none_yet, full, do_host_req) (inr refl)
              | inr (i, room) ↦
                  let (lt, f) =
                    first_index-some rv_max_sessions (λ i. is_free (rv.sessions i).phase) i room in
                  elim (open_session-Serves rv now m i lt none_yet) [
                    | inl serves ↦ rw (none_yet, room, do_host_req) (inl (i, serves))
                    | inr full ↦ rw (none_yet, room, do_host_req) (inr full)
                  ]
            ]
      ]

  -- A second request finds the lobby that the first was given.
  again :
      (rv : Rendezvous) (now i : ℕ) (m : HostReq)
      → first_index rv_max_sessions (hosts_lobby rv.sessions from) ≡ some i
      → Offers from (rv.sessions i).id (do_host_req rv now from m).1
        × ((do_host_req rv now from m).0.sessions
            ≡ update rv.sessions i (seen (rv.sessions i) 0 now))
  unfolding do_host_req host_retry
  again rv now i m e =
      rw (e, do_host_req) ((resend_intros_to (seen (rv.sessions i) 0 now) 0, refl), refl)

-- What two HOST_REQs from one address do: the first is refused, or both are offered the same
-- session, and the second writes nothing but the time in it.
abbrev pub Twice : LobbyEndpoint → ℕ → Reply → Reply → Type 0
Twice from now (rv, out) (rv', out') =
    ((i : ℕ) × Offers from (rv.sessions i).id out
      × Offers from (rv.sessions i).id out'
      × (rv'.sessions ≡ update rv.sessions i (seen (rv.sessions i) 0 now)))
    ⊎ (out ≡ emit_reject from rej_full)

-- A HOST_REQ that is sent again, because its answer was lost, opens no second session: unless the
-- first was refused, both answers begin with a HOST_RESP of the same session id, and the second
-- changes nothing in the table but the times of that session.
pub do_host_req-Twice :
    (rv : Rendezvous) (now now' : ℕ) (from : LobbyEndpoint) (m m' : HostReq)
    → let first = do_host_req rv now from m in
      Twice from now' first (do_host_req first.0 now' from m')
do_host_req-Twice rv now now' from m m' = elim (do_host_req-Serves from rv now m) [
  | inr refused ↦ inr refused
  | inl (i, (here, offer)) ↦
      let (offer', kept) = again from (do_host_req rv now from m).0 now' i m' here in
      inl (i, offer, offer', kept)
]
