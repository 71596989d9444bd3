-- ===== src/Lobby/Code/RoundTrip.antt =====
-- A lobby code decodes to what it was made from.
use bmhero_arena.Common.{
  ℕ, zero, suc, ◌+◌, ◌-◌, ◌*◌, ◌/◌, ◌%◌, ◌^◌, ◌<◌, ◌≡◌, refl, ap, ◌∙◌, Bool, true, false, not, ◌&&◌,
  ◌||◌, none, some, Option, List, [], ◌∷◌, ◌++◌, arith, ◌==◌, all_below, all_below_sound, u8,
  replicate, Bool-cases, inl, inr, bit_xor,
}
use bmhero_arena.Lobby.Code.{
  encode, decode, crc8, crc_from, crc_shift, crc_shifts, shift_in, emit_symbols, symbol, code_bit,
  b32, b32val, read_symbols, put_bit, put_bits, put_symbols, finish, code_body,
}
use bmhero_arena.Lobby.Proto.{LobbyEndpoint, IsEndpoint}

abbrev reads_back : ℕ → Bool
reads_back v = not (b32 v == b'-') && elim (b32val (b32 v)) [ none ↦ false | some w ↦ w == v ]

b32_table_reads_back : all_below 32 reads_back ≡ true
unfolding all_below b32 b32val
b32_table_reads_back = refl

reads_back-b32 :
    (v : ℕ) → reads_back v ≡ true → ((b32 v == b'-') ≡ false) × (b32val (b32 v) ≡ some v)
reads_back-b32 v h = ground (arith, h)

b32val-b32 : (v : ℕ) → v < 32 → ((b32 v == b'-') ≡ false) × (b32val (b32 v) ≡ some v)
b32val-b32 v h = reads_back-b32 v (all_below_sound 32 reads_back v b32_table_reads_back h)

code_bit-lt : (d : List ℕ) (idx : ℕ) → code_bit d idx < 2
code_bit-lt d idx = ground arith

module _ (d : List ℕ) where
  symbol-lt : (s : ℕ) → symbol d s < 32
  unfolding shift_in
  symbol-lt s = omega (
    arith,
    code_bit-lt d (s * 5),
    code_bit-lt d (s * 5 + 1),
    code_bit-lt d (s * 5 + 1 + 1),
    code_bit-lt d (s * 5 + 1 + 1 + 1),
    code_bit-lt d (s * 5 + 1 + 1 + 1 + 1),
  )

  abbrev symbols : ℕ → ℕ → List ℕ
  symbols zero s = []
  symbols (suc left) s = symbol d s ∷ symbols left (s + 1)

  read_symbols-emit :
      (left s : ℕ) → left + s ≡ 15 → read_symbols (emit_symbols d left s) s ≡ some (symbols left s)
  unfolding read_symbols emit_symbols
  read_symbols-emit zero s h = ground arith
  read_symbols-emit (suc left) s h =
      let (dash, value) = b32val-b32 (symbol d s) (symbol-lt s) in
      let rest = read_symbols-emit left (s + 1) (omega arith) in
      elim (Bool-cases (s == 5 || s == 10)) [
        | inl group ↦ rw (group, dash, value, rest) (ground arith)
        | inr plain ↦ rw (plain, dash, value, rest) (ground arith)
      ]

  -- The bits of a symbol are the five code bits that it was made of.
  symbol_bits_as_made :
      (s : ℕ)
      → (symbol d s / 2 ^ 4 % 2 ≡ code_bit d (s * 5))
        × (symbol d s / 2 ^ 3 % 2 ≡ code_bit d (s * 5 + 1))
        × (symbol d s / 2 ^ 2 % 2 ≡ code_bit d (s * 5 + 1 + 1))
        × (symbol d s / 2 ^ 1 % 2 ≡ code_bit d (s * 5 + 1 + 1 + 1))
        × (symbol d s / 2 ^ 0 % 2 ≡ code_bit d (s * 5 + 1 + 1 + 1 + 1))
  unfolding shift_in
  symbol_bits_as_made s =
      let b0 = code_bit-lt d (s * 5) in
      let b1 = code_bit-lt d (s * 5 + 1) in
      let b2 = code_bit-lt d (s * 5 + 1 + 1) in
      let b3 = code_bit-lt d (s * 5 + 1 + 1 + 1) in
      let b4 = code_bit-lt d (s * 5 + 1 + 1 + 1 + 1) in
      (omega arith, omega arith, omega arith, omega arith, omega arith)

  symbol_bits : (s k : ℕ) → k < 5 → symbol d s / 2 ^ k % 2 ≡ code_bit d (s * 5 + 5 - 1 - k)
  symbol_bits s zero h = (symbol_bits_as_made s).4 ∙ ap (code_bit d) (omega arith)
  symbol_bits s (suc zero) h = (symbol_bits_as_made s).3 ∙ ap (code_bit d) (omega arith)
  symbol_bits s (suc (suc zero)) h = (symbol_bits_as_made s).2 ∙ ap (code_bit d) (omega arith)
  symbol_bits s (suc (suc (suc zero))) h = (symbol_bits_as_made s).1 ∙ ap (code_bit d) (omega arith)
  symbol_bits s (suc (suc (suc (suc zero)))) h =
      (symbol_bits_as_made s).0 ∙ ap (code_bit d) (omega arith)
  symbol_bits s (suc (suc (suc (suc (suc k))))) h = absurd (omega arith)

  -- Writing the code bits themselves into the nine bytes.
  copy_bits : ℕ → ℕ → List ℕ → Option (List ℕ)
  copy_bits zero idx e = some e
  copy_bits (suc n) idx e = elim (put_bit idx (code_bit d idx) e) [
    | none ↦ none
    | some e' ↦ copy_bits n (idx + 1) e'
  ]

  put_bits-copy :
      (left idx sym : ℕ) (e : List ℕ)
      → ((k : ℕ) → k < left → (sym / 2 ^ k) % 2 ≡ code_bit d (idx + left - 1 - k))
      → put_bits left idx sym e ≡ copy_bits left idx e
  unfolding put_bits copy_bits
  put_bits-copy zero idx sym e h = refl
  put_bits-copy (suc left) idx sym e h =
      rw (first, put_bits)
        (step (put_bit idx (code_bit d idx) e) (λ e'.
          put_bits-copy left (idx + 1) sym e'
            (λ k lt. h k (omega arith) ∙ ap (code_bit d) (omega arith))))
    where
      first : (sym / 2 ^ left) % 2 ≡ code_bit d idx
      first = h left (omega arith) ∙ ap (code_bit d) (omega arith)

      step :
          (o : Option (List ℕ))
          → ((e' : List ℕ) → put_bits left (idx + 1) sym e' ≡ copy_bits left (idx + 1) e')
          → elim o [ none ↦ none | some e' ↦ put_bits left (idx + 1) sym e' ]
            ≡ elim o [ none ↦ none | some e' ↦ copy_bits left (idx + 1) e' ]
      step none rest = refl
      step (some e') rest = rest e'

  put_bits-symbol : (s : ℕ) (e : List ℕ) → put_bits 5 (s * 5) (symbol d s) e ≡ copy_bits 5 (s * 5) e
  put_bits-symbol s e = put_bits-copy 5 (s * 5) (symbol d s) e (symbol_bits s)

  copy_symbols : ℕ → ℕ → List ℕ → Option (List ℕ)
  copy_symbols zero s e = some e
  copy_symbols (suc n) s e = elim (copy_bits 5 (s * 5) e) [
    | none ↦ none
    | some e' ↦ copy_symbols n (s + 1) e'
  ]

  put_symbols-symbols : (n s : ℕ) (e : List ℕ) → put_symbols (symbols n s) s e ≡ copy_symbols n s e
  unfolding put_symbols copy_symbols
  put_symbols-symbols zero s e = refl
  put_symbols-symbols (suc n) s e =
      rw (put_bits-symbol s e, put_symbols)
        (step (copy_bits 5 (s * 5) e) (λ e'. put_symbols-symbols n (s + 1) e'))
    where
      step :
          (o : Option (List ℕ))
          → ((e' : List ℕ) → put_symbols (symbols n (s + 1)) (s + 1) e' ≡ copy_symbols n (s + 1) e')
          → elim o [ none ↦ none | some e' ↦ put_symbols (symbols n (s + 1)) (s + 1) e' ]
            ≡ elim o [ none ↦ none | some e' ↦ copy_symbols n (s + 1) e' ]
      step none rest = refl
      step (some e') rest = rest e'

-- Reading a byte bit by bit gives the byte.
byte_bits :
    (b : ℕ)
    → b < 256
    → 0
        + b / 2 ^ 7 % 2 * 2 ^ 7
        + b / 2 ^ 6 % 2 * 2 ^ 6
        + b / 2 ^ 5 % 2 * 2 ^ 5
        + b / 2 ^ 4 % 2 * 2 ^ 4
        + b / 2 ^ 3 % 2 * 2 ^ 3
        + b / 2 ^ 2 % 2 * 2 ^ 2
        + b / 2 ^ 1 % 2 * 2 ^ 1
        + b / 2 ^ 0 % 2 * 2 ^ 0
      ≡ b
byte_bits b h = omega arith

module _ (b0 b1 b2 b3 b4 b5 b6 b7 b8 : ℕ) where
  abbrev nine : List ℕ
  nine = b0 ∷ b1 ∷ b2 ∷ b3 ∷ b4 ∷ b5 ∷ b6 ∷ b7 ∷ b8 ∷ []

  copy_symbols-nine :
      b0 < 256
      → b1 < 256
      → b2 < 256
      → b3 < 256
      → b4 < 256
      → b5 < 256
      → b6 < 256
      → b7 < 256
      → b8 < 256
      → copy_symbols nine 15 0 (replicate 9 0) ≡ some nine
  unfolding copy_symbols copy_bits
  copy_symbols-nine h0 h1 h2 h3 h4 h5 h6 h7 h8 i = some (
      byte_bits b0 h0 i
      ∷ byte_bits b1 h1 i
      ∷ byte_bits b2 h2 i
      ∷ byte_bits b3 h3 i
      ∷ byte_bits b4 h4 i
      ∷ byte_bits b5 h5 i
      ∷ byte_bits b6 h6 i
      ∷ byte_bits b7 h7 i
      ∷ byte_bits b8 h8 i
      ∷ [])

crc_shifts-lt : (n c : ℕ) → c < 256 → crc_shifts n c < 256
unfolding crc_shifts
crc_shifts-lt zero c h = h
crc_shifts-lt (suc n) c h = crc_shifts-lt n (crc_shift c) (omega arith)

-- The eight shifts cut the value to a byte, whatever it was.
crc_shifts_eight-lt : (c : ℕ) → crc_shifts 8 c < 256
unfolding crc_shifts
crc_shifts_eight-lt c = crc_shifts-lt 7 (crc_shift c) (omega arith)

crc_from-lt : (c : ℕ) (ps : List ℕ) → c < 256 → crc_from c ps < 256
unfolding crc_from
crc_from-lt c [] h = h
crc_from-lt c (p ∷ ps) h =
    crc_from-lt (crc_shifts 8 (bit_xor c p)) ps (crc_shifts_eight-lt (bit_xor c p))

crc8-lt : (ps : List ℕ) → crc8 ps < 256
unfolding crc8
crc8-lt ps = crc_from-lt 0 ps (omega arith)

decode_steps :
    (str syms d : List ℕ)
    → read_symbols str 0 ≡ some syms
    → put_symbols syms 0 (replicate 9 0) ≡ some d
    → decode str ≡ finish d
unfolding decode
decode_steps str syms d e f = rw (e, f)

finish_body :
    (server : LobbyEndpoint) (session_id : ℕ)
    → IsEndpoint server
    → session_id < 2 ^ 16
    → finish (code_body server session_id ++ (crc8 (code_body server session_id) ∷ []))
      ≡ some (server, session_id)
unfolding finish
finish_body server session_id h k = ground arith

-- The player's text leads back to the server and the session: whatever the address, port and
-- session id, decoding what lobby_code_encode prints returns them.
pub decode-encode :
    (server : LobbyEndpoint) (session_id : ℕ)
    → IsEndpoint server
    → session_id < 2 ^ 16
    → decode (encode server session_id) ≡ some (server, session_id)
unfolding encode
decode-encode server session_id h k =
    decode_steps _ (symbols d 15 0) d (read_symbols-emit d 15 0 (omega arith))
      (put_symbols-symbols d 15 0 (replicate 9 0) ∙ copied)
    ∙ finish_body server session_id h k
  where
    d : List ℕ
    d = let body = code_body server session_id in body ++ (crc8 body ∷ [])

    copied : copy_symbols d 15 0 (replicate 9 0) ≡ some d
    copied =
        copy_symbols-nine (u8 (server.ip / 2 ^ 24)) (u8 (server.ip / 2 ^ 16))
          (u8 (server.ip / 2 ^ 8)) (u8 server.ip) (u8 (server.port / 2 ^ 8)) (u8 server.port)
          (u8 (session_id / 2 ^ 8)) (u8 session_id) (crc8 (code_body server session_id))
          (omega arith) (omega arith) (omega arith) (omega arith) (omega arith) (omega arith)
          (omega arith) (omega arith) (crc8-lt (code_body server session_id))
