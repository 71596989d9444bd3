-- ===== src/Rendezvous/Handlers.antt =====
-- rv_init and rv_handle of src/lobby/rendezvous.c; the handlers that rv_handle calls, and rv_tick,
-- are in the files below this one.
mod Entry
mod Match
mod Sweep
unfoldable pub use Entry.*
unfoldable pub use Match.*
unfoldable pub use Sweep.*
use bmhero_arena.Common.{ℕ, ◌*◌, Bool, true, false, List, [], ◌==◌, if◌then◌else◌}
use bmhero_arena.Lobby.Proto.{
  LobbyEndpoint, LobbyMsg, host_req, join_req, punch_report, relay, start, start_ack, keepalive,
}
use bmhero_arena.Lobby.Proto.Wire.{done, refused, fault}
use bmhero_arena.Lobby.Proto.Unpack.{unpack}
use bmhero_arena.Rendezvous.{rv_rate_burst, Rendezvous, Reply, cleared, rate_take}

-- rv_init
unfoldable pub init : ℕ → ℕ → Rendezvous
init now seed = record {
  sessions = λ i. cleared;
  rate = λ i. record { tokens_milli = rv_rate_burst * 1000; last_ms = now };
  rng = if seed == 0 then 1 else seed;
  relay_forwards = 0;
}

-- The switch of rv_handle, behind the rate limit.
unfoldable pub dispatch : Rendezvous → ℕ → LobbyEndpoint → LobbyMsg → List ℕ → Reply
dispatch rv now from (host_req m) buf = do_host_req rv now from m
dispatch rv now from (join_req m) buf = do_join_req rv now from m
dispatch rv now from (punch_report m) buf = do_punch_report rv now from m
dispatch rv now from (start m) buf = do_start rv now from m
dispatch rv now from (start_ack m) buf = do_start_ack rv now from m
dispatch rv now from (keepalive m) buf = do_keepalive rv now from m
dispatch rv now from (relay m) buf = do_relay rv now from m buf
dispatch rv now from m buf = (rv, [])

abbrev pub is_relay : LobbyMsg → Bool
is_relay (relay m) = true
is_relay _ = false

-- rv_handle for a packet that lobby_unpack accepted.
unfoldable pub handle_msg : Rendezvous → ℕ → LobbyEndpoint → LobbyMsg → List ℕ → Reply
handle_msg rv now from m buf =
    if is_relay m
    then dispatch rv now from m buf
    else (let (rv', granted) = rate_take rv now from.ip in
        if granted then dispatch rv' now from m buf else (rv', []))

-- rv_handle
unfoldable pub handle : Rendezvous → ℕ → LobbyEndpoint → List ℕ → Reply
handle rv now from buf = elim (unpack buf) [
  | done m ↦ handle_msg rv now from m buf
  | refused ↦ (rv, [])
  | fault ↦ (rv, [])
]
