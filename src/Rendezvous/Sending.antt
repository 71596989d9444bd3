-- ===== src/Rendezvous/Sending.antt =====
-- What holds of every datagram that the helpers of src/lobby/rendezvous.c emit.
use bmhero_arena.Common.{
  ℕ, ◌≡◌, refl, Bool, true, false, List, [], ◌∷◌, ◌++◌, if◌then◌else◌, All, All-append,
}
use bmhero_arena.Lobby.Proto.{LobbyEndpoint, LobbyMsg}
use bmhero_arena.Lobby.Proto.Wire.{Outcome, done, refused, fault}
use bmhero_arena.Lobby.Proto.Pack.{pack}
use bmhero_arena.Rendezvous.{Datagram, emit_msg, for_players}

module _ (P : Datagram → Type 0) where
  pub emit_msg-All :
      (to : LobbyEndpoint) (m : LobbyMsg)
      → ((bytes : List ℕ) → pack m ≡ done bytes → P (record { to = to; bytes = bytes }))
      → All P (emit_msg to m)
  unfolding emit_msg
  emit_msg-All to m h = sent (pack m) refl
    where
      sent :
          (o : Outcome (List ℕ))
          → pack m ≡ o
          → All P (elim o [
            | done bytes ↦ record { to = to; bytes = bytes } ∷ []
            | refused ↦ []
            | fault ↦ []
          ])
      sent (done bytes) e = (h bytes e, tt)
      sent refused e = tt
      sent fault e = tt

  pub players-All : (f : ℕ → List Datagram) → ((i : ℕ) → All P (f i)) → All P (for_players f)
  players-All f h =
      All-append P (f 0 ++ f 1 ++ f 2) (f 3)
        (All-append P (f 0 ++ f 1) (f 2) (All-append P (f 0) (f 1) (h 0) (h 1)) (h 2)) (h 3)

pub All-if :
    {A : Type 0} (P : A → Type 0) (b : Bool) (xs ys : List A)
    → All P xs
    → All P ys
    → All P (if b then xs else ys)
All-if P true xs ys p q = p
All-if P false xs ys p q = q
