-- ===== src/Lobby/Proto/Wire.antt =====
-- The byte readers and writers of src/lobby/lobby_proto.c, and the results of the codec.
use bmhero_arena.Common.{
  ℕ, ◌≡◌, refl, ◌+◌, none, some, List, [], ◌∷◌, ◌++◌, get_elem?, u8, ◌>>>◌, ◌<<<◌,
}
use bmhero_arena.Lobby.Proto.{LobbyEndpoint}

-- `refused` is the -1 of lobby_unpack and the 0 of lobby_pack. `fault` is an access past the
-- bytes that there are, which C leaves undefined.
pub data Outcome {ℓ} (A : Type ℓ) : Type ℓ where
  done : A → Outcome A
  refused : Outcome A
  fault : Outcome A

infixl 5 ◌>>=◌
abbrev pub ◌>>=◌ {ℓ κ} : {A : Type ℓ} {B : Type κ} → Outcome A → (A → Outcome B) → Outcome B
done a >>= f = f a
refused >>= f = refused
fault >>= f = fault

-- Inversion of a step that succeeds.
pub >>=-eq-done {ℓ κ} :
    {A : Type ℓ} {B : Type κ} (m : Outcome A) (f : A → Outcome B) {b : B}
    → (m >>= f) ≡ done b
    → (a : A) × (m ≡ done a) × (f a ≡ done b)
>>=-eq-done (done a) f h = (a, refl, h)
>>=-eq-done refused f h = cc
>>=-eq-done fault f h = cc

-- wr16, wr32, wr_ep
abbrev pub wr16 : ℕ → List ℕ
wr16 v = u8 v ∷ u8 (v >>> 8) ∷ []

abbrev pub wr32 : ℕ → List ℕ
wr32 v = u8 v ∷ u8 (v >>> 8) ∷ u8 (v >>> 16) ∷ u8 (v >>> 24) ∷ []

abbrev pub wr_ep : LobbyEndpoint → List ℕ
wr_ep e = wr32 e.ip ++ wr16 e.port

-- buf[i]
abbrev pub rd8 : List ℕ → ℕ → Outcome ℕ
rd8 buf i = elim (get_elem? buf i) [ none ↦ fault | some b ↦ done b ]

-- rd16, rd32 and rd_ep at buf + i. The bytes do not overlap once shifted, so `|` is `+`.
abbrev pub rd16 : List ℕ → ℕ → Outcome ℕ
rd16 buf i = do b0 ← rd8 buf i; b1 ← rd8 buf (i + 1); done (b0 + b1 <<< 8)

abbrev pub rd32 : List ℕ → ℕ → Outcome ℕ
rd32 buf i = do
  b0 ← rd8 buf i
  b1 ← rd8 buf (i + 1)
  b2 ← rd8 buf (i + 2)
  b3 ← rd8 buf (i + 3)
  done (b0 + b1 <<< 8 + b2 <<< 16 + b3 <<< 24)

abbrev pub rd_ep : List ℕ → ℕ → Outcome LobbyEndpoint
rd_ep buf i = do ip ← rd32 buf i; port ← rd16 buf (i + 4); done (record { ip = ip; port = port })
