-- ===== src/Keys/Tests.antt =====
-- Runs of keys/key.go and keys/box.go.
use netproject.Shared.{
  ℕ, ◌+◌, ◌≡◌, ◌≢◌, refl, List, [], ◌∷◌, ◌++◌, arith, ok, err, panic, replicate, some, false,
  length, drop,
}
use netproject.Keys.Base64.{
  encode, decode_string, corrupt_input, encode_sextet, decode_sextet, decode_into, decode_quanta,
  strip_breaks,
}
use netproject.Keys.RoundTrip.{decode_string-ne-panic}
use netproject.Keys.{
  PublicKey, PrivateKey, zero_key, encode_to_string, decode_from_string, unmarshal_text,
  new_private_key, private_is_zero,
}
use netproject.Keys.Laws.{decode_from_string-encode_to_string}
use netproject.Keys.Clamp.{new_private_key-ne-zero}
use netproject.Keys.Box.{Nacl, encrypt_box, decrypt_box, decrypt_box-encrypt_box}

-- "Man" and its padded prefixes, from RFC 4648's examples.
encode_man : encode (77 ∷ 97 ∷ 110 ∷ []) ≡ 84 ∷ 87 ∷ 70 ∷ 117 ∷ []
unfolding encode encode_sextet
encode_man = refl

decode_m : decode_string (84 ∷ 81 ∷ 61 ∷ 10 ∷ 61 ∷ []) ≡ ok (77 ∷ [])
unfolding decode_string decode_sextet
decode_m = refl

decode_cut : decode_string (84 ∷ 81 ∷ 61 ∷ []) ≡ err corrupt_input
unfolding decode_string decode_sextet
decode_cut = refl

abbrev pub sample_key : PublicKey
sample_key = record { k = replicate 32 7 }

decode_from_string-encode_to_string_example :
    decode_from_string zero_key (encode_to_string sample_key) ≡ ok sample_key
decode_from_string-encode_to_string_example =
    decode_from_string-encode_to_string sample_key zero_key (omega arith) (omega arith)

new_private_key-ne-zero_example : private_is_zero (new_private_key (replicate 32 0)) ≡ false
new_private_key-ne-zero_example = new_private_key-ne-zero (replicate 32 0) (omega arith)

-- A box that is its message behind sixteen zeros.
length-sample_seal :
    (m n : List ℕ) (p : PublicKey) (a : PrivateKey) → length (replicate 16 0 ++ m) ≡ length m + 16
length-sample_seal m n p a = omega arith

abbrev sample_nacl : Nacl
sample_nacl = record {
  seal = λ m n p a. replicate 16 0 ++ m;
  unseal = λ m n p a. some (drop 16 m);
  public_of = λ a. record { k = a.k };
  unseal-seal = λ m n a b. refl;
  length-seal = length-sample_seal;
}

abbrev sample_private : PrivateKey
sample_private = record { k = replicate 32 64 }

decrypt_box-encrypt_box_example :
    decrypt_box sample_nacl sample_private
      (encrypt_box sample_nacl
        (replicate 24 9)
        (1 ∷ 2 ∷ [])
        sample_private
        (record { k = replicate 32 64 }))
      (record { k = replicate 32 64 })
    ≡ some (1 ∷ 2 ∷ [])
decrypt_box-encrypt_box_example =
    decrypt_box-encrypt_box sample_nacl (replicate 24 9) (1 ∷ 2 ∷ []) sample_private sample_private
      refl

decode_string-ne-panic_example : decode_string (61 ∷ 61 ∷ []) ≢ panic
decode_string-ne-panic_example = decode_string-ne-panic (61 ∷ 61 ∷ [])

-- A text of one byte: the other bytes stay.
abbrev short_key : PublicKey
short_key = record { k = 77 ∷ replicate 31 0 }

short_text : unmarshal_text zero_key (84 ∷ 81 ∷ 61 ∷ 61 ∷ []) ≡ ok short_key
unfolding unmarshal_text decode_into decode_quanta decode_sextet strip_breaks
short_text = refl
