-- ===== src/Keys/Base64.antt =====
-- `encoding/base64`'s StdEncoding, as keys/key.go uses it. A character is its ASCII code.
use netproject.Shared.{ℕ, ◌+◌, ◌-◌, ◌*◌, ◌/◌, ◌%◌, List, [], ◌∷◌, ◌||◌, ◌&&◌, Option, none, some}
use netproject.Shared.{
  ltb, leb, ◌==◌, nat_eq, if◌then◌else◌, Outcome, ok, err, panic, ◌>>=◌, length,
}

pub data CorruptInput : Type 0 where
  corrupt_input : CorruptInput

-- The alphabet A-Z a-z 0-9 + /.
unfoldable pub encode_sextet : ℕ → ℕ
encode_sextet n =
    if ltb n 26
    then n + 65
    else if ltb n 52
    then n + 71
    else if ltb n 62
    then n - 4
    else if n == 62
    then b'+'
    else b'/'

unfoldable pub decode_sextet : ℕ → Option ℕ
decode_sextet c =
    if leb b'A' c && leb c b'Z'
    then some (c - 65)
    else if leb b'a' c && leb c b'z'
    then some (c - 71)
    else if leb b'0' c && leb c b'9'
    then some (c + 4)
    else if c == b'+'
    then some 62
    else if c == b'/'
    then some 63
    else none

-- `EncodeToString`, with `=` as padding.
unfoldable pub encode : List ℕ → List ℕ
encode [] = []
encode (a ∷ []) = encode_sextet (a / 4) ∷ encode_sextet (a % 4 * 16) ∷ b'=' ∷ b'=' ∷ []
encode (a ∷ b ∷ []) =
    encode_sextet (a / 4)
    ∷ encode_sextet (a % 4 * 16 + b / 16)
    ∷ encode_sextet (b % 16 * 4)
    ∷ b'='
    ∷ []
encode (a ∷ b ∷ c ∷ rest) =
    encode_sextet (a / 4)
    ∷ encode_sextet (a % 4 * 16 + b / 16)
    ∷ encode_sextet (b % 16 * 4 + c / 64)
    ∷ encode_sextet (c % 64)
    ∷ encode rest

-- The three bytes of a quantum of four sextets.
abbrev pub byte_0 : ℕ → ℕ → ℕ
byte_0 p q = p * 4 + q / 16

abbrev pub byte_1 : ℕ → ℕ → ℕ
byte_1 q r = q % 16 * 16 + r / 4

abbrev pub byte_2 : ℕ → ℕ → ℕ
byte_2 r s = r % 4 * 64 + s

abbrev pub sextet : ℕ → Outcome CorruptInput ℕ
sextet c = elim (decode_sextet c) [ none ↦ err corrupt_input | some n ↦ ok n ]

-- A write of `bytes` that ends the decoding: out of range it panics, and what follows the padding
-- is an error.
unfoldable pub finish : ℕ → List ℕ → List ℕ → Outcome CorruptInput (List ℕ)
finish room bytes [] = if leb (length bytes) room then ok bytes else panic
finish room bytes (c ∷ rest) = if leb (length bytes) room then err corrupt_input else panic

-- A whole quantum: three bytes, and what the rest decodes to.
unfoldable pub extend :
    ℕ → ℕ → ℕ → ℕ → Outcome CorruptInput (List ℕ) → Outcome CorruptInput (List ℕ)
extend room x y z more = if leb 3 room then (do bytes ← more; ok (x ∷ y ∷ z ∷ bytes)) else panic

-- The third and fourth character of a quantum, after the sextets `p` and `q`.
unfoldable pub quantum_end :
    ℕ → ℕ → ℕ → ℕ → ℕ → List ℕ → Outcome CorruptInput (List ℕ) → Outcome CorruptInput (List ℕ)
unfolding finish extend
quantum_end room p q c d rest more =
    if c == b'='
    then (if d == b'=' then finish room (byte_0 p q ∷ []) rest else err corrupt_input)
    else (sextet c >>= λ r.
        if d == b'='
        then finish room (byte_0 p q ∷ byte_1 q r ∷ []) rest
        else (sextet d >>= λ s. extend room (byte_0 p q) (byte_1 q r) (byte_2 r s) more))

-- `Decode` into a destination with `room` bytes, of a text with no line breaks.
unfoldable pub decode_quanta : ℕ → List ℕ → Outcome CorruptInput (List ℕ)
unfolding quantum_end
decode_quanta room [] = ok []
decode_quanta room (a ∷ b ∷ c ∷ d ∷ rest) =
    let more = decode_quanta (room - 3) rest in
    do p ← sextet a; q ← sextet b; quantum_end room p q c d rest more
decode_quanta room _ = err corrupt_input

-- `Decode` skips line breaks.
unfoldable pub strip_breaks : List ℕ → List ℕ
strip_breaks [] = []
strip_breaks (c ∷ cs) = if c == 10 || c == 13 then strip_breaks cs else c ∷ strip_breaks cs

unfoldable pub decode_into : ℕ → List ℕ → Outcome CorruptInput (List ℕ)
unfolding decode_quanta strip_breaks
decode_into room text = decode_quanta room (strip_breaks text)

-- `DecodeString` makes a destination of `DecodedLen(len(s))` bytes.
unfoldable pub decode_string : List ℕ → Outcome CorruptInput (List ℕ)
unfolding decode_into
decode_string text = decode_into (length text / 4 * 3) text
