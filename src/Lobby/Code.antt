-- ===== src/Lobby/Code.antt =====
-- The lobby code of src/lobby/lobby_proto.c: base32-Crockford over the server's address, the
-- session id and a CRC-8. Text is a list of character codes without the final NUL.
pub mod RoundTrip
use bmhero_arena.Common.{
  ℕ, zero, suc, ◌+◌, ◌-◌, ◌*◌, ◌/◌, ◌%◌, ◌^◌, ◌≤◌, ◌<◌, ◌≡◌, Bool, true, false, ◌&&◌, ◌||◌, Option,
  none, some, List, [], ◌∷◌, ◌++◌, map, ltb, leb, ◌==◌, if◌then◌else◌, length, get_elem?, get_or,
  set, replicate, u8, u16, u32, ◌<<<◌, ◌>>>◌, bit_and, bit_xor, first_index, take,
}
use bmhero_arena.Lobby.Proto.{LobbyEndpoint}

-- crc8: polynomial 0x07.
abbrev pub crc_shift : ℕ → ℕ
crc_shift c = u8 (if bit_and c 0x80 == 0 then c <<< 1 else bit_xor (c <<< 1) 0x07)

pub crc_shifts : ℕ → ℕ → ℕ
crc_shifts zero c = c
crc_shifts (suc n) c = crc_shifts n (crc_shift c)

pub crc_from : ℕ → List ℕ → ℕ
crc_from c [] = c
crc_from c (p ∷ ps) = crc_from (crc_shifts 8 (bit_xor c p)) ps

unfoldable pub crc8 : List ℕ → ℕ
unfolding crc_from crc_shifts
crc8 ps = crc_from 0 ps

-- B32
abbrev pub b32_table : List ℕ
b32_table =
    b'0' ∷ b'1' ∷ b'2' ∷ b'3' ∷ b'4' ∷ b'5' ∷ b'6' ∷ b'7' ∷ b'8' ∷ b'9' ∷ b'A' ∷ b'B' ∷ b'C' ∷ b'D'
    ∷ b'E' ∷ b'F' ∷ b'G' ∷ b'H' ∷ b'J' ∷ b'K' ∷ b'M' ∷ b'N' ∷ b'P' ∷ b'Q' ∷ b'R' ∷ b'S' ∷ b'T'
    ∷ b'V' ∷ b'W' ∷ b'X' ∷ b'Y' ∷ b'Z' ∷ []

-- B32[i], for i below 32
unfoldable pub b32 : ℕ → ℕ
b32 i = get_or b32_table i 0

-- d[idx >> 3] >> (7 - (idx & 7)) & 1; d has nine bytes, and idx is below 72 there.
abbrev pub code_bit : List ℕ → ℕ → ℕ
code_bit d idx = if ltb idx 72 then (get_or d (idx / 8) 0 >>> (7 - idx % 8)) % 2 else 0

-- The loop over k: sym = (sym << 1) | v. The low bit of sym << 1 is 0, so `|` is `+`.
unfoldable pub shift_in : List ℕ → ℕ → ℕ → ℕ → ℕ
shift_in d zero idx sym = sym
shift_in d (suc n) idx sym = shift_in d n (idx + 1) (sym <<< 1 + code_bit d idx)

abbrev pub symbol : List ℕ → ℕ → ℕ
symbol d s = shift_in d 5 (s * 5) 0

-- The loop over s, with `left` symbols to go.
unfoldable pub emit_symbols : List ℕ → ℕ → ℕ → List ℕ
emit_symbols d zero s = []
emit_symbols d (suc left) s =
    let rest = b32 (symbol d s) ∷ emit_symbols d left (s + 1) in
    if s == 5 || s == 10 then b'-' ∷ rest else rest

abbrev pub code_body : LobbyEndpoint → ℕ → List ℕ
code_body server session_id =
    u8 (server.ip >>> 24)
    ∷ u8 (server.ip >>> 16)
    ∷ u8 (server.ip >>> 8)
    ∷ u8 server.ip
    ∷ u8 (server.port >>> 8)
    ∷ u8 server.port
    ∷ u8 (session_id >>> 8)
    ∷ u8 session_id
    ∷ []

unfoldable pub encode : LobbyEndpoint → ℕ → List ℕ
encode server session_id =
    let body = code_body server session_id in emit_symbols (body ++ (crc8 body ∷ [])) 15 0

-- b32val: `none` is its -1.
abbrev pub upper : ℕ → ℕ
upper c = if leb b'a' c && leb c b'z' then c - (b'a' - b'A') else c

unfoldable pub b32val : ℕ → Option ℕ
unfolding b32 first_index
b32val c =
    if leb b'0' c && leb c b'9'
    then some (c - b'0')
    else (let u = upper c in
        if u == b'O'
        then some 0
        else if u == b'I' || u == b'L'
        then some 1
        else first_index 32 (λ i. leb 10 i && b32 i == u))

-- The loop over the text, with `ns` symbols read so far, and the test for 15 of them behind it.
unfoldable pub read_symbols : List ℕ → ℕ → Option (List ℕ)
read_symbols [] ns = if ns == 15 then some [] else none
read_symbols (c ∷ cs) ns =
    let skip = read_symbols cs ns in
    let more = read_symbols cs (ns + 1) in
    if c == b'-' then skip else if leb 15 ns then none else elim (b32val c) [
      | none ↦ none
      | some v ↦ elim more [ none ↦ none | some vs ↦ some (v ∷ vs) ]
    ]

-- d[idx >> 3] |= bit << (7 - (idx & 7)). Each bit is set once, in an array that starts at zero,
-- so `|` is `+`. Past bit 72 a set bit is refused.
abbrev pub put_bit : ℕ → ℕ → List ℕ → Option (List ℕ)
put_bit idx bit d =
    if ltb idx 72
    then some (set d (idx / 8) (get_or d (idx / 8) 0 + bit <<< (7 - idx % 8)))
    else if bit == 0
    then some d
    else none

-- The loop over k, with `left` bits of the symbol to go.
unfoldable pub put_bits : ℕ → ℕ → ℕ → List ℕ → Option (List ℕ)
put_bits zero idx sym d = some d
put_bits (suc left) idx sym d = elim (put_bit idx ((sym >>> left) % 2) d) [
  | none ↦ none
  | some d' ↦ put_bits left (idx + 1) sym d'
]

-- The loop over s.
unfoldable pub put_symbols : List ℕ → ℕ → List ℕ → Option (List ℕ)
put_symbols [] s d = some d
put_symbols (sym ∷ syms) s d = elim (put_bits 5 (s * 5) sym d) [
  | none ↦ none
  | some d' ↦ put_symbols syms (s + 1) d'
]

-- The check of the CRC and the reassembly of the fields.
unfoldable pub finish : List ℕ → Option (LobbyEndpoint × ℕ)
finish d =
    let at = λ (i : ℕ). get_or d i 0 in
    if crc8 (take 8 d) == at 8
    then some (
      record { ip = at 0 <<< 24 + at 1 <<< 16 + at 2 <<< 8 + at 3; port = at 4 <<< 8 + at 5 },
      at 6 <<< 8 + at 7,
    )
    else none

infixl 5 ◌>>=◌
abbrev pub ◌>>=◌ {ℓ κ} : {A : Type ℓ} {B : Type κ} → Option A → (A → Option B) → Option B
none >>= f = none
some a >>= f = f a

unfoldable pub decode : List ℕ → Option (LobbyEndpoint × ℕ)
decode str = do syms ← read_symbols str 0; d ← put_symbols syms 0 (replicate 9 0); finish d
