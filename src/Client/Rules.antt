-- ===== src/Client/Rules.antt =====
-- What holds of every message that a client hears holds of lobby_poll's drain of the socket.
use bmhero_arena.Common.{ℕ, zero, suc, List, [], ◌∷◌, Bool-cases, inl, inr}
use bmhero_arena.Lobby.Proto.{LobbyMsg}
use bmhero_arena.Lobby.Proto.Wire.{done, refused, fault}
use bmhero_arena.Lobby.Proto.Unpack.{unpack}
use bmhero_arena.Client.{LobbyClient, Sent, at_stage, failed}
use bmhero_arena.Client.Receive.{receive_msg}
use bmhero_arena.Client.Poll.{Arrival, hear, drain, is_empty}

pub hear_rule :
    (P : Sent → Type 0) (lc : LobbyClient) (now : ℕ) (d : Arrival)
    → P (lc, [])
    → ((m : LobbyMsg) → P (receive_msg lc now d.from m))
    → P (hear lc now d)
unfolding hear
hear_rule P lc now d skip heard =
    elim (unpack d.bytes)
      as (λ o.
        P (elim o [
          | done m ↦ receive_msg lc now d.from m
          | refused ↦ (lc, [])
          | fault ↦ (lc, [])
        ])) [ done m ↦ heard m | refused ↦ skip | fault ↦ skip ]

-- A relation of clients that no arrival breaks.
module _ (now : ℕ) (R : LobbyClient → LobbyClient → Type 0) where
  pub drain_rule :
      ((lc : LobbyClient) → R lc lc)
      → ((a b c : LobbyClient) → R a b → R b c → R a c)
      → ((lc : LobbyClient) (d : Arrival) → R lc (hear lc now d).0)
      → (n : ℕ) (lc : LobbyClient) (inbox : List Arrival) → R lc (drain n now lc inbox).0
  unfolding drain
  drain_rule same chain step zero lc inbox = same lc
  drain_rule same chain step (suc n) lc [] = same lc
  drain_rule same chain step (suc n) lc (d ∷ inbox) =
      let lc' = (hear lc now d).0 in
      let rest = drain_rule same chain step n lc' inbox in
      elim (Bool-cases (is_empty d.bytes)) [
        | inl e ↦ rw (e, drain) (same lc)
        | inr e ↦ elim (Bool-cases (at_stage lc'.stage failed)) [
          | inl f ↦ rw (e, f, drain) (step lc d)
          | inr f ↦ rw (e, f, drain) (chain lc lc' _ (step lc d) rest)
        ]
      ]
