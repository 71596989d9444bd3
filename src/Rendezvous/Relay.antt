-- ===== src/Rendezvous/Relay.antt =====
-- What the server forwards: do_relay, as rv_handle runs it.
use bmhero_arena.Common.{
  ℕ, ◌+◌, ◌<◌, ◌≡◌, refl, true, not, ◌||◌, some, List, [], ◌∷◌, leb, arith, Bool-cases,
  Option-cases, inl, inr, ◌⊎◌, u32,
}
use bmhero_arena.Lobby.Proto.{LobbyEndpoint, Relay, relay}
use bmhero_arena.Lobby.Proto.Wire.{done}
use bmhero_arena.Lobby.Proto.Unpack.{unpack}
use bmhero_arena.Rendezvous.{rv_max_players, Rendezvous, Reply, ep_eq, find_session}
use bmhero_arena.Rendezvous.Handlers.{dispatch, handle_msg, handle, do_relay}

-- The sender holds the seat that it names, in the session that it names, and the seat that it
-- sends to is taken.
pub record MayRelay (rv : Rendezvous) (from : LobbyEndpoint) (m : Relay) (i : ℕ) : Type 0 where
  pub there : find_session rv.sessions m.session_id ≡ some i
  pub from_in_range : m.from_slot < rv_max_players
  pub to_in_range : m.to_slot < rv_max_players
  pub from_used : ((rv.sessions i).peers m.from_slot).used ≡ true
  pub from_owned : ep_eq ((rv.sessions i).peers m.from_slot).public_ep from ≡ true
  pub to_used : ((rv.sessions i).peers m.to_slot).used ≡ true

-- What may become of a relayed packet: it is forwarded, or nothing happens.
abbrev pub Relayed : Rendezvous → LobbyEndpoint → Relay → List ℕ → Reply → Type 0
Relayed rv from m buf (rv', out) =
    ((i : ℕ) × MayRelay rv from m i
      × (out ≡ record { to = ((rv.sessions i).peers m.to_slot).public_ep; bytes = buf } ∷ [])
      × (rv'.relay_forwards ≡ u32 (rv.relay_forwards + 1)))
    ⊎ (((i : ℕ) → ¬ (MayRelay rv from m i)) × (out ≡ []) × (rv' ≡ rv))

do_relay-Relayed :
    (rv : Rendezvous) (now : ℕ) (from : LobbyEndpoint) (m : Relay) (buf : List ℕ)
    → Relayed rv from m buf (do_relay rv now from m buf)
unfolding do_relay
do_relay-Relayed rv now from m buf = elim (Option-cases (find_session rv.sessions m.session_id)) [
  | inl e ↦ rw (e, do_relay) (inr ((λ j ok. ground (arith, ok.there)), refl, refl))
  | inr (i, e) ↦
      let s = rv.sessions i in
      elim (Bool-cases (leb rv_max_players m.from_slot || leb rv_max_players m.to_slot)) [
        | inl bad ↦
            rw (e, bad, do_relay)
              (inr ((λ j ok. ground (arith, ok.from_in_range, ok.to_in_range)), refl, refl))
        | inr slots ↦
            elim (Bool-cases (
              not (s.peers m.from_slot).used || not (ep_eq (s.peers m.from_slot).public_ep from))) [
                | inl forged ↦
                    rw (e, slots, forged, do_relay)
                      (inr (
                        (λ j ok. ground (arith, ok.there, ok.from_used, ok.from_owned)),
                        refl,
                        refl,
                      ))
                | inr own ↦ elim (Bool-cases (not (s.peers m.to_slot).used)) [
                  | inl nobody ↦
                      rw (e, slots, own, nobody, do_relay)
                        (inr ((λ j ok. ground (arith, ok.there, ok.to_used)), refl, refl))
                  | inr member ↦
                      rw (e, slots, own, member, do_relay)
                        (inl (
                          i,
                          record {
                            there = e;
                            from_in_range = ground arith;
                            to_in_range = ground arith;
                            from_used = ground arith;
                            from_owned = ground arith;
                            to_used = ground arith;
                          },
                          refl,
                          refl,
                        ))
                ]
              ]
      ]
]

-- For a packet that parses as RELAY, rv_handle sends exactly one datagram, the packet as it came,
-- to the address of the seat that it is for, and counts it, when find_session finds its session
-- (a live one), both slots are below four, both seats are taken, and the sender's address is that of
-- the seat it says it comes from; otherwise it sends nothing and changes nothing. No rate limit
-- comes into it.
pub handle-Relayed :
    (rv : Rendezvous) (now : ℕ) (from : LobbyEndpoint) (m : Relay) (buf : List ℕ)
    → unpack buf ≡ done (relay m)
    → Relayed rv from m buf (handle rv now from buf)
unfolding handle handle_msg dispatch
handle-Relayed rv now from m buf e = rw (e, handle) (do_relay-Relayed rv now from m buf)

-- The forwarded datagram, where the sender may relay.
pub handle-MayRelay :
    (rv : Rendezvous) (now : ℕ) (from : LobbyEndpoint) (m : Relay) (buf : List ℕ) (i : ℕ)
    → unpack buf ≡ done (relay m)
    → MayRelay rv from m i
    → (handle rv now from buf).1
      ≡ record { to = ((rv.sessions i).peers m.to_slot).public_ep; bytes = buf } ∷ []
handle-MayRelay rv now from m buf i u may = elim (handle-Relayed rv now from m buf u) [
  | inl (j, ok, e, _) ↦ let same : j ≡ i = cc (ok.there, may.there) in rw (e, same) refl
  | inr (never, _, _) ↦ absurd (never i may)
]
