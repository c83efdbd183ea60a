-- ===== src/Keys/RoundTrip.antt =====
-- Decoding what the encoder wrote gives the bytes back, whatever the room beyond them.
use netproject.Shared.{
  ℕ, ◌+◌, ◌*◌, ◌/◌, ◌%◌, ◌-◌, ◌≤◌, ◌<◌, ◌≡◌, refl, List, [], ◌∷◌, none, some, Option, arith,
}
use netproject.Shared.{
  All, Bool, true, ◌==◌, nat_eq, if◌then◌else◌, false, Outcome, ok, err, panic, ◌≢◌, ◌>>=◌, length,
}
use netproject.Bytes.{IsByte}
use netproject.Keys.Base64.{
  CorruptInput, corrupt_input, encode_sextet, decode_sextet, encode, decode_quanta, quantum_end,
  finish, extend, strip_breaks, decode_into, decode_string, sextet, byte_0, byte_1, byte_2,
}

-- A character of the alphabet is neither padding nor a line break, and decodes to its sextet.
pub decode_sextet-encode :
    (n : ℕ)
    → n < 64
    → (decode_sextet (encode_sextet n) ≡ some n)
      × ((encode_sextet n == b'=') ≡ false)
      × ((encode_sextet n == 10) ≡ false)
      × ((encode_sextet n == 13) ≡ false)
unfolding decode_sextet encode_sextet
decode_sextet-encode n h = ground arith

pub sextet-encode : (n : ℕ) → n < 64 → sextet (encode_sextet n) ≡ ok n
sextet-encode n h = ground (arith, decode_sextet-encode n)

quantum_bytes :
    (a b c : ℕ)
    → IsByte a
    → IsByte b
    → IsByte c
    → (byte_0 (a / 4) (a % 4 * 16 + b / 16) ≡ a)
      × (byte_1 (a % 4 * 16 + b / 16) (b % 16 * 4 + c / 64) ≡ b)
      × (byte_2 (b % 16 * 4 + c / 64) (c % 64) ≡ c)
quantum_bytes a b c ha hb hc = omega arith

decode_quanta-encode :
    (bs : List ℕ) (room : ℕ)
    → All IsByte bs
    → length bs ≤ room
    → decode_quanta room (encode bs) ≡ ok bs
unfolding decode_quanta encode
decode_quanta-encode [] room h fits = refl
decode_quanta-encode (a ∷ []) room h fits =
    ground (arith, sextet-encode (a / 4), sextet-encode (a % 4 * 16), quantum_bytes a 0 0 h.0)
decode_quanta-encode (a ∷ b ∷ []) room h fits = ground (
  arith,
  sextet-encode (a / 4),
  sextet-encode (a % 4 * 16 + b / 16),
  sextet-encode (b % 16 * 4),
  decode_sextet-encode (b % 16 * 4),
  quantum_bytes a b 0 h.0 h.1.0,
)
decode_quanta-encode (a ∷ b ∷ c ∷ rest) room h fits = ground (
  arith,
  sextet-encode (a / 4),
  sextet-encode (a % 4 * 16 + b / 16),
  sextet-encode (b % 16 * 4 + c / 64),
  sextet-encode (c % 64),
  decode_sextet-encode (b % 16 * 4 + c / 64),
  decode_sextet-encode (c % 64),
  quantum_bytes a b c h.0 h.1.0 h.1.1.0,
  decode_quanta-encode rest (room - 3) h.1.1.1 (omega arith),
)

pub strip_breaks-encode : (bs : List ℕ) → All IsByte bs → strip_breaks (encode bs) ≡ encode bs
unfolding strip_breaks encode
strip_breaks-encode [] h = refl
strip_breaks-encode (a ∷ []) h =
    ground (arith, decode_sextet-encode (a / 4), decode_sextet-encode (a % 4 * 16))
strip_breaks-encode (a ∷ b ∷ []) h = ground (
  arith,
  decode_sextet-encode (a / 4),
  decode_sextet-encode (a % 4 * 16 + b / 16),
  decode_sextet-encode (b % 16 * 4),
)
strip_breaks-encode (a ∷ b ∷ c ∷ rest) h = ground (
  arith,
  decode_sextet-encode (a / 4),
  decode_sextet-encode (a % 4 * 16 + b / 16),
  decode_sextet-encode (b % 16 * 4 + c / 64),
  decode_sextet-encode (c % 64),
  strip_breaks-encode rest h.1.1.1,
)

-- Into a destination that is large enough, the encoder's output decodes to what was encoded.
pub decode_into-encode :
    (bs : List ℕ) (room : ℕ)
    → All IsByte bs
    → length bs ≤ room
    → decode_into room (encode bs) ≡ ok bs
unfolding decode_into
decode_into-encode bs room h fits =
    rw (strip_breaks-encode bs h) (decode_quanta-encode bs room h fits)

length-encode : (bs : List ℕ) → length bs ≤ length (encode bs) / 4 * 3
unfolding encode
length-encode [] = omega arith
length-encode (a ∷ []) = omega arith
length-encode (a ∷ b ∷ []) = omega arith
length-encode (a ∷ b ∷ c ∷ rest) = omega (arith, length-encode rest)

pub decode_string-encode : (bs : List ℕ) → All IsByte bs → decode_string (encode bs) ≡ ok bs
unfolding decode_string
decode_string-encode bs h = decode_into-encode bs _ h (length-encode bs)

-- A destination with three bytes for each quantum of the text is never written out of range.
decode_quanta-ne-panic :
    (room : ℕ) (text : List ℕ) → length text / 4 * 3 ≤ room → decode_quanta room text ≢ panic
unfolding decode_quanta
decode_quanta-ne-panic room [] h e = cc
decode_quanta-ne-panic room (a ∷ []) h e = cc
decode_quanta-ne-panic room (a ∷ b ∷ []) h e = cc
decode_quanta-ne-panic room (a ∷ b ∷ c ∷ []) h e = cc
decode_quanta-ne-panic room (a ∷ b ∷ c ∷ d ∷ rest) h e =
    ground (arith, decode_quanta-ne-panic (room - 3) rest)

length-strip_breaks : (text : List ℕ) → length (strip_breaks text) ≤ length text
unfolding strip_breaks
length-strip_breaks [] = omega arith
length-strip_breaks (c ∷ cs) = ground (arith, length-strip_breaks cs)

-- `DecodeString` returns bytes or an error on every text; it does not panic.
pub decode_string-ne-panic : (text : List ℕ) → decode_string text ≢ panic
unfolding decode_string decode_into
decode_string-ne-panic text =
    decode_quanta-ne-panic _ (strip_breaks text) (omega (arith, length-strip_breaks text))

abbrev IsSextet : Option ℕ → Type 0
IsSextet none = Unit
IsSextet (some n) = n < 64

decode_sextet-IsSextet : (c : ℕ) → IsSextet (decode_sextet c)
unfolding decode_sextet
decode_sextet-IsSextet c = ground arith

-- What a decoding yields are bytes, no more of them than the destination holds.
abbrev pub Fits : ℕ → Outcome CorruptInput (List ℕ) → Type 0
Fits room (ok bs) = All IsByte bs × (length bs ≤ room)
Fits room _ = Unit

extend-Fits :
    (room x y z : ℕ) (more : Outcome CorruptInput (List ℕ))
    → IsByte x
    → IsByte y
    → IsByte z
    → Fits (room - 3) more
    → Fits room (extend room x y z more)
unfolding extend
extend-Fits room x y z (ok bs) hx hy hz h = ground arith
extend-Fits room x y z (err e) hx hy hz h = ground arith
extend-Fits room x y z panic hx hy hz h = ground arith

finish-Fits :
    (room : ℕ) (bytes rest : List ℕ) → All IsByte bytes → Fits room (finish room bytes rest)
unfolding finish
finish-Fits room bytes [] h = ground arith
finish-Fits room bytes (c ∷ rest) h = ground arith

-- The rules by which a quantum keeps to its room: for a character, and for a test.
Fits-sextet :
    (room c : ℕ) (f : ℕ → Outcome CorruptInput (List ℕ))
    → ((n : ℕ) → n < 64 → Fits room (f n))
    → Fits room (sextet c >>= f)
Fits-sextet room c f k = on (decode_sextet c) (decode_sextet-IsSextet c)
  where
    on :
        (o : Option ℕ)
        → IsSextet o
        → Fits room ((elim o [ none ↦ err corrupt_input | some n ↦ ok n ]) >>= f)
    on none h = tt
    on (some n) h = k n h

Fits-if :
    (room : ℕ) (b : Bool) (m n : Outcome CorruptInput (List ℕ))
    → Fits room m
    → Fits room n
    → Fits room (if b then m else n)
Fits-if room true m n hm hn = hm
Fits-if room false m n hm hn = hn

quantum_end-Fits :
    (room p q c d : ℕ) (rest : List ℕ) (more : Outcome CorruptInput (List ℕ))
    → p < 64
    → q < 64
    → Fits (room - 3) more
    → Fits room (quantum_end room p q c d rest more)
unfolding quantum_end
quantum_end-Fits room p q c d rest more hp hq h =
    Fits-if room (c == b'=') _ _
      (Fits-if room (d == b'=') _ (err corrupt_input)
        (finish-Fits room (byte_0 p q ∷ []) rest (omega arith)) tt)
      (Fits-sextet room c _ λ r hr.
        Fits-if room (d == b'=') _ _
          (finish-Fits room (byte_0 p q ∷ byte_1 q r ∷ []) rest (omega arith))
          (Fits-sextet room d _ λ s hs.
            extend-Fits room (byte_0 p q) (byte_1 q r) (byte_2 r s) more (omega arith) (omega arith)
              (omega arith) h))

pub decode_quanta-Fits : (room : ℕ) (text : List ℕ) → Fits room (decode_quanta room text)
unfolding decode_quanta
decode_quanta-Fits room [] = omega arith
decode_quanta-Fits room (a ∷ []) = tt
decode_quanta-Fits room (a ∷ b ∷ []) = tt
decode_quanta-Fits room (a ∷ b ∷ c ∷ []) = tt
decode_quanta-Fits room (a ∷ b ∷ c ∷ d ∷ rest) = Fits-sextet room a _ λ p hp.
    Fits-sextet room b _
      λ q hq. quantum_end-Fits room p q c d rest _ hp hq (decode_quanta-Fits (room - 3) rest)
