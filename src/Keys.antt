-- ===== src/Keys.antt =====
-- keys/key.go: the 32-byte keys. `subtle.ConstantTimeCompare` is an equality test, and the random
-- bytes of `NewPrivateKey` are an argument. `curve25519.ScalarBaseMult` is a parameter.
pub mod Base64
pub mod RoundTrip
pub mod Laws
pub mod Clamp
pub mod Decoded
pub mod Lengths
pub mod Box
pub mod Tests
use Prim.Native.Nat.{bit_and, bit_or}
use netproject.Shared.{ℕ, zero, suc, List, [], ◌∷◌, ◌++◌, Bool, ◌↔◌, ◌≡◌, arith, ok, ◌>>=◌, Outcome}
use netproject.Shared.{
  Eq, ◌==◌, list_eq, list_beq_iff, nat_eq, true, length, take, drop, replicate, All,
}
use netproject.Bytes.{IsByte}
use Base64.{CorruptInput, encode, decode_string, decode_into}

-- `copy(dst, src)`: as many elements as both have.
abbrev pub copy : List ℕ → List ℕ → List ℕ
copy [] src = []
copy (d ∷ dst) [] = d ∷ dst
copy (d ∷ dst) (s ∷ src) = s ∷ copy dst src

abbrev pub public_key_len : ℕ
public_key_len = 32

pub record PublicKey : Type 0 where
  pub k : List ℕ

pub record PrivateKey : Type 0 where
  pub k : List ℕ

abbrev zero_bytes : List ℕ
zero_bytes = replicate 32 0

-- `PublicKey{}` and `PrivateKey{}`.
abbrev pub zero_key : PublicKey
zero_key = record { k = replicate 32 0 }

abbrev pub zero_private_key : PrivateKey
zero_private_key = record { k = replicate 32 0 }

-- The Go type is an array of 32 bytes.
abbrev pub IsArray : List ℕ → Type 0
IsArray k = (length k ≡ 32) × All IsByte k

abbrev pub key_beq : PublicKey → PublicKey → Bool
key_beq a b = a.k == b.k

pub key_beq_iff : (a b : PublicKey) → (key_beq a b ≡ true) ↔ (a ≡ b)
key_beq_iff a b = ground (arith, list_beq_iff a.k b.k)

instance abbrev pub key_eq : Eq PublicKey
key_eq = record { beq = key_beq; beq_iff = key_beq_iff }

unfoldable pub new_public_key_from_raw_bytes : List ℕ → PublicKey
new_public_key_from_raw_bytes raw = record { k = copy zero_bytes raw }

unfoldable pub raw : PublicKey → List ℕ
raw key = key.k

unfoldable pub is_zero : PublicKey → Bool
is_zero key = key == zero_key

unfoldable pub encode_to_string : PublicKey → List ℕ
encode_to_string key = encode key.k

-- The method's receiver is changed only where the text decodes.
unfoldable pub decode_from_string : PublicKey → List ℕ → Outcome CorruptInput PublicKey
decode_from_string key s = do b ← decode_string s; ok (record { k = copy key.k b })

unfoldable pub marshal_text : PublicKey → List ℕ
marshal_text key = encode key.k

-- `Decode` writes into the receiver's 32 bytes: a text of more bytes is a panic. After an error
-- the caller drops the key, so what was written before it is not kept here.
unfoldable pub unmarshal_text : PublicKey → List ℕ → Outcome CorruptInput PublicKey
unmarshal_text key text = do b ← decode_into 32 text; ok (record { k = copy key.k b })

-- The private key's texts.
unfoldable pub private_marshal_text : PrivateKey → List ℕ
private_marshal_text key = encode key.k

unfoldable pub private_unmarshal_text : PrivateKey → List ℕ → Outcome CorruptInput PrivateKey
private_unmarshal_text key text = do b ← decode_into 32 text; ok (record { k = copy key.k b })

-- `subtle.ConstantTimeCompare(k.k[:], other.k[:]) == 1`.
unfoldable pub private_compare : PrivateKey → PrivateKey → Bool
private_compare key other = key.k == other.k

unfoldable pub private_is_zero : PrivateKey → Bool
unfolding private_compare
private_is_zero key = private_compare key zero_private_key

-- `k[0] &= 248; k[31] = (k[31] & 127) | 64`, on the last byte by the distance to it.
unfoldable pub clamp_last : ℕ → List ℕ → List ℕ
clamp_last n [] = []
clamp_last zero (b ∷ bs) = bit_or (bit_and b 127) 64 ∷ bs
clamp_last (suc n) (b ∷ bs) = b ∷ clamp_last n bs

unfoldable pub clamp : List ℕ → List ℕ
unfolding clamp_last
clamp [] = []
clamp (b ∷ bs) = bit_and b 248 ∷ clamp_last 30 bs

-- `NewPrivateKey`, on the random bytes that `rand.Reader` gives.
unfoldable pub new_private_key : List ℕ → PrivateKey
unfolding clamp
new_private_key random = record { k = clamp random }
