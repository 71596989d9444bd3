-- ===== src/Adapter/Traffic.antt =====
-- na_send and na_recv of src/netplay/net_adapter.c, through which the rollback library sends and
-- receives.
use bmhero_arena.Common.{
  ℕ, zero, suc, ◌+◌, Bool, not, ◌||◌, none, some, List, [], ◌∷◌, ◌++◌, ltb, leb, ◌==◌,
  if◌then◌else◌, length, take, u32,
}
use bmhero_arena.Lobby.Proto.{
  LobbyEndpoint, LobbyMsg, Relay, NetRoute, unrouted, direct, relayed, relay, game,
  lobby_max_payload,
}
use bmhero_arena.Lobby.Proto.Wire.{done, refused, fault}
use bmhero_arena.Lobby.Proto.Pack.{pack}
use bmhero_arena.Lobby.Proto.Unpack.{unpack}
use bmhero_arena.Arena.State.{arena_max_players}
use bmhero_arena.Client.Poll.{Arrival, is_empty}
use bmhero_arena.Adapter.{Adapter, Out, na_max_results, impaired_send, flush_due, lobby_ring_push}
use bmhero_arena.Rendezvous.{Datagram}

-- g.drop_count++
abbrev pub dropped : Adapter → Adapter
dropped g = record g { drop_count = u32 (g.drop_count + 1) }

abbrev pub wrapped : Adapter → ℕ → List ℕ → Relay
wrapped g slot payload = record {
  session_id = g.session_id;
  from_slot = g.local_slot;
  to_slot = slot;
  payload_len = length payload;
  payload = some payload;
}

-- Packed and sent, or dropped.
unfoldable pub send_wrapped : Adapter → ℕ → LobbyEndpoint → LobbyMsg → Out
send_wrapped g now dest m = elim (pack m) [
  | done buf ↦ impaired_send g now dest buf
  | refused ↦ (dropped g, [])
  | fault ↦ (dropped g, [])
]

abbrev pub send_by : NetRoute → Adapter → ℕ → ℕ → List ℕ → Out
send_by route g now slot payload = elim route.kind [
  | direct ↦ send_wrapped g now route.ep (game (wrapped g slot payload))
  | relayed ↦ send_wrapped g now g.relay (relay (wrapped g slot payload))
  | unrouted ↦ (dropped g, [])
]

-- na_send: the address is the bytes behind it, of which there may be none; a payload has no
-- negative length.
unfoldable pub na_send : Adapter → ℕ → List ℕ → List ℕ → Out
na_send g now [] payload = (g, [])
na_send g now (slot ∷ rest) payload =
    if not g.active
    then (g, [])
    else if ltb lobby_max_payload (length payload)
    then (dropped g, [])
    else if leb arena_max_players slot
    then (dropped g, [])
    else send_by (g.route slot) g now slot payload

-- GekkoNetResult: the address is one byte, the slot of the sender.
pub record NetResult : Type 0 where
  pub from_slot : ℕ
  pub payload : List ℕ

-- The adapter, and what one datagram adds to the results.
abbrev pub Taken : Type 0
Taken = Adapter × List NetResult

-- A GAME or RELAY; `given` tells whether its three allocations succeed.
unfoldable pub accept : Adapter → Bool → Relay → Taken
accept g given m =
    if not (m.session_id == g.session_id) || not (m.to_slot == g.local_slot)
    then (dropped g, [])
    else if not given
    then (dropped g, [])
    else elim m.payload [
      | some bytes ↦
          (g, record { from_slot = m.from_slot; payload = take m.payload_len bytes } ∷ [])
      | none ↦ (g, record { from_slot = m.from_slot; payload = [] } ∷ [])
    ]

unfoldable pub sort_msg : Adapter → Bool → Arrival → LobbyMsg → Taken
sort_msg g given d (game m) = accept g given m
sort_msg g given d (relay m) = accept g given m
sort_msg g given d m = (lobby_ring_push g d, [])

-- The body of na_recv's loop, for a datagram that has bytes.
unfoldable pub take_in : Adapter → Bool → Arrival → Taken
take_in g given d = elim (unpack d.bytes) [
  | done m ↦ sort_msg g given d m
  | refused ↦ (dropped g, [])
  | fault ↦ (dropped g, [])
]

-- na_recv's loop with the rounds that are left; `given` is the luck of the allocations by round.
unfoldable pub recv_loop :
    ℕ → Adapter → (ℕ → Bool) → List Arrival → Adapter × List NetResult × List Arrival
recv_loop zero g given inbox = (g, [], inbox)
recv_loop (suc n) g given [] = (g, [], [])
recv_loop (suc n) g given (d ∷ inbox) =
    let (g', one) = take_in g (given n) d in
    let (g'', more, left) = recv_loop n g' given inbox in
    if is_empty d.bytes then (g, [], inbox) else (g'', one ++ more, left)

-- na_recv: the results, what leaves the delay queue, and what stays in the socket.
pub record Received : Type 0 where
  pub adapter : Adapter
  pub results : List NetResult
  pub sent : List Datagram
  pub left : List Arrival

unfoldable pub na_recv : Adapter → ℕ → (ℕ → Bool) → List Arrival → Received
na_recv g now given inbox =
    if not g.active
    then record { adapter = g; results = []; sent = []; left = inbox }
    else (let (g', out) = flush_due g now in
        let (g'', results, left) = recv_loop na_max_results g' given inbox in
        record { adapter = g''; results = results; sent = out; left = left })
