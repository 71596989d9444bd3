-- ===== src/Lobby/Proto/Bounds.antt =====
-- What lobby_unpack accepts, and that it reads nothing past the packet.
use bmhero_arena.Common.{
  ℕ, ◌+◌, ◌-◌, ◌*◌, ◌^◌, ◌≤◌, ◌<◌, ◌≡◌, refl, ◌||◌, some, List, ltb, length, drop, length-drop,
  get_elem?-of_lt, get_elem?-All, All, arith, Bool-cases, inl, inr,
}
use bmhero_arena.Lobby.Proto.{
  IsEndpoint, lobby_max_payload, Relay, LobbyMsg, host_req, host_resp, join_req, join_resp, reject,
  peer_intro, punch, punch_ack, punch_report, pair_route, relay, game, start, start_ack, keepalive,
  untyped,
}
use bmhero_arena.Lobby.Proto.Wire.{Outcome, done, refused, fault, rd8, rd16, rd32, rd_ep}
use bmhero_arena.Lobby.Proto.Unpack.{
  unpack_host_req, unpack_host_resp, unpack_join_req, unpack_join_resp, unpack_reject,
  unpack_peer_intro, unpack_punch, unpack_punch_report, unpack_pair_route, unpack_relay,
  unpack_start, unpack_start_ack, map_done, unpack_body, unpack,
}

abbrev pub IsByte : ℕ → Type 0
IsByte b = b < 256

-- The payload pointer has `payload_len` bytes behind it, and no more than a packet may carry.
abbrev pub IsRelay : Relay → Type 0
IsRelay m =
    (m.session_id < 2 ^ 16)
    × (m.from_slot < 256)
    × (m.to_slot < 256)
    × (m.payload_len ≤ lobby_max_payload)
    × (p : List ℕ) × (m.payload ≡ some p)
    × (m.payload_len ≤ length p)

-- Every field lies in the range of its C type.
abbrev pub IsWire : LobbyMsg → Type 0
IsWire (host_req m) = (m.net_version < 2 ^ 32) × (m.num_players < 256) × IsEndpoint m.private_ep
IsWire (host_resp session_id) = session_id < 2 ^ 16
IsWire (join_req m) = (m.session_id < 2 ^ 16) × (m.net_version < 2 ^ 32) × IsEndpoint m.private_ep
IsWire (join_resp m) = (m.slot < 256) × (m.num_players < 256)
IsWire (reject reason) = reason < 256
IsWire (peer_intro m) = (m.slot < 256) × IsEndpoint m.public_ep × IsEndpoint m.private_ep
IsWire (punch m) = (m.session_id < 2 ^ 16) × (m.from_slot < 256) × (m.nonce < 2 ^ 32)
IsWire (punch_ack m) = (m.session_id < 2 ^ 16) × (m.from_slot < 256) × (m.nonce < 2 ^ 32)
IsWire (punch_report m) =
    (m.session_id < 2 ^ 16) × (m.slot_a < 256) × (m.slot_b < 256) × (m.ok < 256)
IsWire (pair_route m) = (m.slot_a < 256) × (m.slot_b < 256) × (m.route < 256)
IsWire (relay m) = IsRelay m
IsWire (game m) = IsRelay m
IsWire (start m) =
    (m.seed < 2 ^ 32) × (m.arena_id < 256) × (m.num_players < 256) × (m.input_delay < 256)
IsWire (start_ack m) = (m.session_id < 2 ^ 16) × (m.slot < 256)
IsWire (keepalive m) = (m.session_id < 2 ^ 16) × (m.slot < 256)
IsWire (untyped t) = ⊥

-- The postcondition of a reader: it does not fault, and what it returns satisfies `P`.
abbrev pub Reads {ℓ} : {A : Type ℓ} → (A → Type 0) → Outcome A → Type 0
Reads P (done a) = P a
Reads P refused = Unit
Reads P fault = ⊥

-- A reader that also succeeds.
abbrev Gives {ℓ} : {A : Type ℓ} → (A → Type 0) → Outcome A → Type ℓ
Gives {A = A} P o = (a : A) × (o ≡ done a) × P a

module _ (buf : List ℕ) (bytes : All IsByte buf) where
  rd8-Gives : (i : ℕ) → i < length buf → Gives (λ b. b < 256) (rd8 buf i)
  rd8-Gives i h =
      let (b, e) = get_elem?-of_lt buf i h in (b, rw (e, rd8), get_elem?-All IsByte buf i b bytes e)

  rd16-Gives : (i : ℕ) → i + 1 < length buf → Gives (λ v. v < 2 ^ 16) (rd16 buf i)
  rd16-Gives i h =
      let (b0, e0, h0) = rd8-Gives i (omega arith) in
      let (b1, e1, h1) = rd8-Gives (i + 1) (omega arith) in
      (b0 + b1 * 2 ^ 8, rw (e0, e1), omega arith)

  rd32-Gives : (i : ℕ) → i + 3 < length buf → Gives (λ v. v < 2 ^ 32) (rd32 buf i)
  rd32-Gives i h =
      let (b0, e0, h0) = rd8-Gives i (omega arith) in
      let (b1, e1, h1) = rd8-Gives (i + 1) (omega arith) in
      let (b2, e2, h2) = rd8-Gives (i + 2) (omega arith) in
      let (b3, e3, h3) = rd8-Gives (i + 3) (omega arith) in
      (b0 + b1 * 2 ^ 8 + b2 * 2 ^ 16 + b3 * 2 ^ 24, rw (e0, e1, e2, e3), omega arith)

  rd_ep-Gives : (i : ℕ) → i + 5 < length buf → Gives IsEndpoint (rd_ep buf i)
  rd_ep-Gives i h =
      let (ip, e, p) = rd32-Gives i (omega arith) in
      let (port, f, q) = rd16-Gives (i + 4) (omega arith) in
      (record { ip = ip; port = port }, rw (e, f), (p, q))

  host_req-Reads : Reads (λ m. IsWire (host_req m)) (unpack_host_req buf)
  unfolding unpack_host_req
  host_req-Reads = elim (Bool-cases (ltb (length buf) 32)) [
    | inl short ↦ rw short tt
    | inr long ↦
        let (v0, e0, p0) = rd32-Gives 6 (ground arith) in
        let (v1, e1, p1) = rd8-Gives 10 (ground arith) in
        let (v2, e2, p2) = rd_ep-Gives 11 (ground arith) in rw (long, e0, e1, e2) (p0, p1, p2)
  ]

  host_resp-Reads : Reads (λ m. IsWire (host_resp m)) (unpack_host_resp buf)
  unfolding unpack_host_resp
  host_resp-Reads = elim (Bool-cases (ltb (length buf - 6) 2)) [
    | inl short ↦ rw short tt
    | inr long ↦ let (v0, e0, p0) = rd16-Gives 6 (ground arith) in rw (long, e0) p0
  ]

  join_req-Reads : Reads (λ m. IsWire (join_req m)) (unpack_join_req buf)
  unfolding unpack_join_req
  join_req-Reads = elim (Bool-cases (ltb (length buf) 32)) [
    | inl short ↦ rw short tt
    | inr long ↦
        let (v0, e0, p0) = rd16-Gives 6 (ground arith) in
        let (v1, e1, p1) = rd32-Gives 8 (ground arith) in
        let (v2, e2, p2) = rd_ep-Gives 12 (ground arith) in rw (long, e0, e1, e2) (p0, p1, p2)
  ]

  join_resp-Reads : Reads (λ m. IsWire (join_resp m)) (unpack_join_resp buf)
  unfolding unpack_join_resp
  join_resp-Reads = elim (Bool-cases (ltb (length buf - 6) 2)) [
    | inl short ↦ rw short tt
    | inr long ↦
        let (v0, e0, p0) = rd8-Gives 6 (ground arith) in
        let (v1, e1, p1) = rd8-Gives 7 (ground arith) in rw (long, e0, e1) (p0, p1)
  ]

  reject-Reads : Reads (λ m. IsWire (reject m)) (unpack_reject buf)
  unfolding unpack_reject
  reject-Reads = elim (Bool-cases (ltb (length buf - 6) 1)) [
    | inl short ↦ rw short tt
    | inr long ↦ let (v0, e0, p0) = rd8-Gives 6 (ground arith) in rw (long, e0) p0
  ]

  peer_intro-Reads : Reads (λ m. IsWire (peer_intro m)) (unpack_peer_intro buf)
  unfolding unpack_peer_intro
  peer_intro-Reads = elim (Bool-cases (ltb (length buf - 6) 13)) [
    | inl short ↦ rw short tt
    | inr long ↦
        let (v0, e0, p0) = rd8-Gives 6 (ground arith) in
        let (v1, e1, p1) = rd_ep-Gives 7 (ground arith) in
        let (v2, e2, p2) = rd_ep-Gives 13 (ground arith) in rw (long, e0, e1, e2) (p0, p1, p2)
  ]

  punch-Reads : Reads (λ m. IsWire (punch m)) (unpack_punch buf)
  unfolding unpack_punch
  punch-Reads = elim (Bool-cases (ltb (length buf - 6) 7)) [
    | inl short ↦ rw short tt
    | inr long ↦
        let (v0, e0, p0) = rd16-Gives 6 (ground arith) in
        let (v1, e1, p1) = rd8-Gives 8 (ground arith) in
        let (v2, e2, p2) = rd32-Gives 9 (ground arith) in rw (long, e0, e1, e2) (p0, p1, p2)
  ]

  punch_report-Reads : Reads (λ m. IsWire (punch_report m)) (unpack_punch_report buf)
  unfolding unpack_punch_report
  punch_report-Reads = elim (Bool-cases (ltb (length buf - 6) 5)) [
    | inl short ↦ rw short tt
    | inr long ↦
        let (v0, e0, p0) = rd16-Gives 6 (ground arith) in
        let (v1, e1, p1) = rd8-Gives 8 (ground arith) in
        let (v2, e2, p2) = rd8-Gives 9 (ground arith) in
        let (v3, e3, p3) = rd8-Gives 10 (ground arith) in rw (long, e0, e1, e2, e3) (p0, p1, p2, p3)
  ]

  pair_route-Reads : Reads (λ m. IsWire (pair_route m)) (unpack_pair_route buf)
  unfolding unpack_pair_route
  pair_route-Reads = elim (Bool-cases (ltb (length buf - 6) 3)) [
    | inl short ↦ rw short tt
    | inr long ↦
        let (v0, e0, p0) = rd8-Gives 6 (ground arith) in
        let (v1, e1, p1) = rd8-Gives 7 (ground arith) in
        let (v2, e2, p2) = rd8-Gives 8 (ground arith) in rw (long, e0, e1, e2) (p0, p1, p2)
  ]

  start-Reads : Reads (λ m. IsWire (start m)) (unpack_start buf)
  unfolding unpack_start
  start-Reads = elim (Bool-cases (ltb (length buf - 6) 7)) [
    | inl short ↦ rw short tt
    | inr long ↦
        let (v0, e0, p0) = rd32-Gives 6 (ground arith) in
        let (v1, e1, p1) = rd8-Gives 10 (ground arith) in
        let (v2, e2, p2) = rd8-Gives 11 (ground arith) in
        let (v3, e3, p3) = rd8-Gives 12 (ground arith) in rw (long, e0, e1, e2, e3) (p0, p1, p2, p3)
  ]

  start_ack-Reads : Reads (λ m. IsWire (start_ack m)) (unpack_start_ack buf)
  unfolding unpack_start_ack
  start_ack-Reads = elim (Bool-cases (ltb (length buf - 6) 3)) [
    | inl short ↦ rw short tt
    | inr long ↦
        let (v0, e0, p0) = rd16-Gives 6 (ground arith) in
        let (v1, e1, p1) = rd8-Gives 8 (ground arith) in rw (long, e0, e1) (p0, p1)
  ]

  IsRelay-Reads : Reads IsRelay (unpack_relay buf)
  unfolding unpack_relay
  IsRelay-Reads = elim (Bool-cases (ltb (length buf - 6) 6)) [
    | inl short ↦ rw short tt
    | inr long ↦
        let (pl, e, p) = rd16-Gives 10 (ground arith) in
        elim (Bool-cases (ltb lobby_max_payload pl || ltb (length buf - 6) (6 + pl))) [
          | inl lies ↦ rw (long, e, lies) tt
          | inr fits ↦
              let (v0, e0, p0) = rd16-Gives 6 (ground arith) in
              let (v1, e1, p1) = rd8-Gives 8 (ground arith) in
              let (v2, e2, p2) = rd8-Gives 9 (ground arith) in
              rw (long, e, fits, e0, e1, e2)
                (p0, p1, p2, ground arith, (drop 12 buf), refl, ground (arith, length-drop 12 buf))
        ]
  ]

Reads-map {ℓ} :
    {A : Type ℓ} (f : A → LobbyMsg) (o : Outcome A)
    → Reads (λ a. IsWire (f a)) o
    → Reads IsWire (map_done f o)
Reads-map f (done a) r = r
Reads-map f refused r = r
Reads-map f fault r = r

module _ (buf : List ℕ) (bytes : All IsByte buf) where
  unpack_body-Reads : (t : ℕ) → Reads IsWire (unpack_body t buf)
  unfolding unpack_body
  unpack_body-Reads t = ground (
    arith,
    Reads-map host_req (unpack_host_req buf) (host_req-Reads buf bytes),
    Reads-map host_resp (unpack_host_resp buf) (host_resp-Reads buf bytes),
    Reads-map join_req (unpack_join_req buf) (join_req-Reads buf bytes),
    Reads-map join_resp (unpack_join_resp buf) (join_resp-Reads buf bytes),
    Reads-map reject (unpack_reject buf) (reject-Reads buf bytes),
    Reads-map peer_intro (unpack_peer_intro buf) (peer_intro-Reads buf bytes),
    Reads-map punch (unpack_punch buf) (punch-Reads buf bytes),
    Reads-map punch_ack (unpack_punch buf) (punch-Reads buf bytes),
    Reads-map punch_report (unpack_punch_report buf) (punch_report-Reads buf bytes),
    Reads-map pair_route (unpack_pair_route buf) (pair_route-Reads buf bytes),
    Reads-map relay (unpack_relay buf) (IsRelay-Reads buf bytes),
    Reads-map game (unpack_relay buf) (IsRelay-Reads buf bytes),
    Reads-map start (unpack_start buf) (start-Reads buf bytes),
    Reads-map start_ack (unpack_start_ack buf) (start_ack-Reads buf bytes),
    Reads-map keepalive (unpack_start_ack buf) (start_ack-Reads buf bytes),
  )

-- Whatever bytes arrive, lobby_unpack reads only inside the packet; and what it accepts has a
-- known type, every field in the range of its C type, and, for a RELAY or GAME, a payload of at
-- most LOBBY_MAX_PAYLOAD bytes that lies wholly inside the packet.
pub unpack-Reads : (buf : List ℕ) → All IsByte buf → Reads IsWire (unpack buf)
unfolding unpack
unpack-Reads buf bytes = elim (Bool-cases (ltb (length buf) 6)) [
  | inl short ↦ rw short tt
  | inr long ↦
      let (magic, e, _) = rd32-Gives buf bytes 0 (ground arith) in
      let (ver, f, _) = rd8-Gives buf bytes 4 (ground arith) in
      let (t, g, _) = rd8-Gives buf bytes 5 (ground arith) in
      rw (long, e, f, g) (ground (arith, unpack_body-Reads buf bytes t))
]
