-- ===== src/Keys/Lengths.antt =====
-- keys/key.go: texts that hold fewer or more than 32 bytes.
use netproject.Shared.{ℕ, ◌+◌, ◌-◌, ◌/◌, ◌%◌, ◌*◌, ◌<◌, ◌≡◌, List, [], ◌∷◌, arith}
use netproject.Shared.{length, All, ok, panic}
use netproject.Bytes.{IsByte}
use netproject.Keys.Base64.{encode, decode_quanta, decode_into}
use netproject.Keys.RoundTrip.{
  decode_string-encode, sextet-encode, decode_sextet-encode, strip_breaks-encode,
}
use netproject.Keys.{PublicKey, copy, decode_from_string, unmarshal_text}

decode_quanta-overflow :
    (bs : List ℕ) (room : ℕ)
    → All IsByte bs
    → room < length bs
    → decode_quanta room (encode bs) ≡ panic
unfolding decode_quanta encode
decode_quanta-overflow [] room h over = absurd (omega arith)
decode_quanta-overflow (a ∷ []) room h over =
    ground (arith, sextet-encode (a / 4), sextet-encode (a % 4 * 16))
decode_quanta-overflow (a ∷ b ∷ []) room h over = ground (
  arith,
  sextet-encode (a / 4),
  sextet-encode (a % 4 * 16 + b / 16),
  sextet-encode (b % 16 * 4),
  decode_sextet-encode (b % 16 * 4),
)
decode_quanta-overflow (a ∷ b ∷ c ∷ rest) room h over = ground (
  arith,
  sextet-encode (a / 4),
  sextet-encode (a % 4 * 16 + b / 16),
  sextet-encode (b % 16 * 4 + c / 64),
  sextet-encode (c % 64),
  decode_sextet-encode (b % 16 * 4 + c / 64),
  decode_sextet-encode (c % 64),
  decode_quanta-overflow rest (room - 3) h.1.1.1,
)

-- `UnmarshalText` panics on every standard text of more than 32 bytes.
pub unmarshal_text_overflow :
    (key : PublicKey) (bs : List ℕ)
    → All IsByte bs
    → 32 < length bs
    → unmarshal_text key (encode bs) ≡ panic
unfolding unmarshal_text decode_into
unmarshal_text_overflow key bs h over =
    rw (strip_breaks-encode bs h, decode_quanta-overflow bs 32 h over)

-- `DecodeFromString` accepts the text of any number of bytes: of more than 32 it takes the first
-- 32, and of fewer it keeps the receiver's other bytes.
pub decode_from_string_any_length :
    (key : PublicKey) (bs : List ℕ)
    → All IsByte bs
    → decode_from_string key (encode bs) ≡ ok (record { k = copy key.k bs })
unfolding decode_from_string
decode_from_string_any_length key bs h = rw (decode_string-encode bs h)
