-- ===== src/Keys/Decoded.antt =====
-- keys/key.go: whatever text is decoded into a key, the key stays an array of 32 bytes.
use netproject.Shared.{ℕ, ◌-◌, ◌*◌, ◌/◌, ◌<◌, ◌≡◌, List, [], ◌∷◌, arith}
use netproject.Shared.{
  false, All, Outcome, ok, err, panic, Outcome-cases, inl, inr, ◌>>=◌, length, refl, ◌==◌, nat_eq,
  Bool-cases, ◌∙◌,
}
use netproject.Bytes.{IsByte}
use netproject.Keys.{PublicKey, IsArray, copy, decode_from_string}
use netproject.Keys.Laws.{length-copy, copy-IsByte}
use netproject.Keys.Base64.{
  CorruptInput, decode_sextet, sextet, byte_0, byte_1, byte_2, finish, extend, quantum_end,
  decode_quanta, decode_into, decode_string, strip_breaks,
}

sextet_bound : (c n : ℕ) → sextet c ≡ ok n → n < 64
unfolding decode_sextet
sextet_bound c n e = ground (arith, e)

finish-IsByte :
    (room : ℕ) (bytes rest bs : List ℕ)
    → All IsByte bytes
    → finish room bytes rest ≡ ok bs
    → All IsByte bs
unfolding finish
finish-IsByte room bytes [] bs h e = ground (arith, e, h)
finish-IsByte room bytes (c ∷ rest) bs h e = absurd (ground (arith, e))

extend-IsByte :
    (room x y z : ℕ) (more : Outcome CorruptInput (List ℕ)) (bs : List ℕ)
    → IsByte x
    → IsByte y
    → IsByte z
    → ((rest : List ℕ) → more ≡ ok rest → All IsByte rest)
    → extend room x y z more ≡ ok bs
    → All IsByte bs
unfolding extend
extend-IsByte room x y z (ok rest) bs hx hy hz h e = ground (arith, e, hx, hy, hz, h rest refl)
extend-IsByte room x y z (err c) bs hx hy hz h e = absurd (ground (arith, e))
extend-IsByte room x y z panic bs hx hy hz h e = absurd (ground (arith, e))

quantum_end-IsByte :
    (room p q c d : ℕ) (rest : List ℕ) (more : Outcome CorruptInput (List ℕ)) (bs : List ℕ)
    → p < 64
    → q < 64
    → ((tail : List ℕ) → more ≡ ok tail → All IsByte tail)
    → quantum_end room p q c d rest more ≡ ok bs
    → All IsByte bs
unfolding quantum_end
quantum_end-IsByte room p q c d rest more bs hp hq h e = elim (Bool-cases (c == b'=')) [
  | inl f ↦ elim (Bool-cases (d == b'=')) [
    | inl g ↦
        finish-IsByte room (byte_0 p q ∷ []) rest bs (omega arith, tt) (ground (arith, e, f, g))
    | inr g ↦ absurd (ground (arith, e, f, g))
  ]
  | inr f ↦ elim (Outcome-cases (sextet c)) [
    | inl (r, i) ↦ third_sextet r f i
    | inr (inl (_, i)) ↦ absurd (ground (arith, e, f, i))
    | inr (inr i) ↦ absurd (ground (arith, e, f, i))
  ]
]
  where
    fourth_sextet :
        (r t : ℕ)
        → (c == b'=') ≡ false
        → (d == b'=') ≡ false
        → sextet c ≡ ok r
        → sextet d ≡ ok t
        → All IsByte bs
    fourth_sextet r t f g i j =
        let hr = sextet_bound c r i in
        let ht = sextet_bound d t j in
        extend-IsByte room (byte_0 p q) (byte_1 q r) (byte_2 r t) more bs (omega arith)
          (omega arith) (omega arith) h (ground (arith, e, f, g, i, j))

    third_sextet : (r : ℕ) → (c == b'=') ≡ false → sextet c ≡ ok r → All IsByte bs
    third_sextet r f i =
        let hr = sextet_bound c r i in
        elim (Bool-cases (d == b'=')) [
          | inl g ↦
              finish-IsByte room (byte_0 p q ∷ byte_1 q r ∷ []) rest bs
                (omega arith, (omega arith, tt)) (ground (arith, e, f, g, i))
          | inr g ↦ elim (Outcome-cases (sextet d)) [
            | inl (t, j) ↦ fourth_sextet r t f g i j
            | inr (inl (_, j)) ↦ absurd (ground (arith, e, f, g, i, j))
            | inr (inr j) ↦ absurd (ground (arith, e, f, g, i, j))
          ]
        ]

decode_quanta-IsByte :
    (room : ℕ) (text bs : List ℕ) → decode_quanta room text ≡ ok bs → All IsByte bs
unfolding decode_quanta
decode_quanta-IsByte room [] bs e = ground (arith, e)
decode_quanta-IsByte room (a ∷ []) bs e = absurd (ground (arith, e))
decode_quanta-IsByte room (a ∷ b ∷ []) bs e = absurd (ground (arith, e))
decode_quanta-IsByte room (a ∷ b ∷ c ∷ []) bs e = absurd (ground (arith, e))
decode_quanta-IsByte room (a ∷ b ∷ c ∷ d ∷ rest) bs e = elim (Outcome-cases (sextet a)) [
  | inl (p, f) ↦ elim (Outcome-cases (sextet b)) [
    | inl (q, g) ↦
        quantum_end-IsByte room p q c d rest (decode_quanta (room - 3) rest) bs (sextet_bound a p f)
          (sextet_bound b q g) (decode_quanta-IsByte (room - 3) rest) (ground (arith, e, f, g))
    | inr (inl (_, g)) ↦ absurd (ground (arith, e, f, g))
    | inr (inr g) ↦ absurd (ground (arith, e, f, g))
  ]
  | inr (inl (_, f)) ↦ absurd (ground (arith, e, f))
  | inr (inr f) ↦ absurd (ground (arith, e, f))
]

decoded-IsArray :
    (room : ℕ) (text : List ℕ) (old key : PublicKey)
    → IsArray old.k
    → (do b ← decode_quanta room text; ok (record { k = copy old.k b })) ≡ ok key
    → IsArray key.k
decoded-IsArray room text old key h e = elim (Outcome-cases (decode_quanta room text)) [
  | inl (bs, f) ↦
      let array : IsArray (copy old.k bs) = (
        length-copy old.k bs ∙ h.0,
        copy-IsByte old.k bs h.1 (decode_quanta-IsByte room text bs f),
      ) in
      ground (arith, e, f, array)
  | inr (inl (_, f)) ↦ absurd (ground (arith, e, f))
  | inr (inr f) ↦ absurd (ground (arith, e, f))
]

-- Decoding into a key keeps it an array, whatever the text.
pub decode_from_string-IsArray :
    (old key : PublicKey) (s : List ℕ)
    → IsArray old.k
    → decode_from_string old s ≡ ok key
    → IsArray key.k
unfolding decode_from_string decode_string decode_into
decode_from_string-IsArray old key s h e =
    decoded-IsArray (length s / 4 * 3) (strip_breaks s) old key h e
