-- ===== src/Keys/Laws.antt =====
-- keys/key.go: text round trips, and the key that login makes.
use netproject.Shared.{ℕ, suc, ◌≡◌, refl, ap, List, [], ◌∷◌, arith, sym, ◌∙◌}
use netproject.Shared.{length, All, ok, list_eq, nat_eq}
use netproject.Bytes.{IsByte}
use netproject.Keys.RoundTrip.{decode_string-encode, decode_into-encode}
use netproject.Keys.{
  PublicKey, PrivateKey, copy, IsArray, private_marshal_text, private_unmarshal_text,
  encode_to_string, decode_from_string, marshal_text, unmarshal_text,
}

-- `copy` between arrays of one length is an assignment, and never changes the length.
pub copy_all : (dst src : List ℕ) → length dst ≡ length src → copy dst src ≡ src
copy_all [] [] h = refl
copy_all [] (s ∷ src) h = absurd (omega arith)
copy_all (d ∷ dst) [] h = absurd (omega arith)
copy_all (d ∷ dst) (s ∷ src) h = ap (◌∷◌ s) (copy_all dst src (omega arith))

pub length-copy : (dst src : List ℕ) → length (copy dst src) ≡ length dst
length-copy [] src = refl
length-copy (d ∷ dst) [] = refl
length-copy (d ∷ dst) (s ∷ src) = ap suc (length-copy dst src)

pub copy-IsByte : (dst src : List ℕ) → All IsByte dst → All IsByte src → All IsByte (copy dst src)
copy-IsByte [] src hd hs = tt
copy-IsByte (d ∷ dst) [] hd hs = hd
copy-IsByte (d ∷ dst) (s ∷ src) hd hs = (hs.0, copy-IsByte dst src hd.1 hs.1)

module _ (key old : PublicKey) (h : IsArray key.k) (h' : IsArray old.k) where
  -- `DecodeFromString` of what `EncodeToString` wrote for a key puts that key into any receiver.
  pub decode_from_string-encode_to_string : decode_from_string old (encode_to_string key) ≡ ok key
  unfolding decode_from_string encode_to_string
  decode_from_string-encode_to_string =
      rw (decode_string-encode key.k h.1, copy_all old.k key.k (h'.0 ∙ sym h.0))

  -- So does `UnmarshalText` of what `MarshalText` wrote.
  pub unmarshal_text-marshal_text : unmarshal_text old (marshal_text key) ≡ ok key
  unfolding unmarshal_text marshal_text
  unmarshal_text-marshal_text =
      rw (
        decode_into-encode key.k 32 h.1 (omega (arith, h.0)),
        copy_all old.k key.k (h'.0 ∙ sym h.0),
      )

-- A private key is read back from its text.
pub private_unmarshal_text-marshal :
    (key old : PrivateKey)
    → IsArray key.k
    → IsArray old.k
    → private_unmarshal_text old (private_marshal_text key) ≡ ok key
unfolding private_unmarshal_text private_marshal_text
private_unmarshal_text-marshal key old h h' =
    rw (decode_into-encode key.k 32 h.1 (omega (arith, h.0)), copy_all old.k key.k (h'.0 ∙ sym h.0))
      refl

-- Equal texts come from equal keys.
pub encode_to_string-injective :
    (a b : PublicKey) → IsArray a.k → IsArray b.k → encode_to_string a ≡ encode_to_string b → a ≡ b
encode_to_string-injective a b ha hb e =
    cc
      (decode_from_string-encode_to_string a a ha ha, decode_from_string-encode_to_string b a hb ha)
