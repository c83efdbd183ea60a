-- ===== src/Keys/Box.antt =====
-- keys/box.go. `box.Seal` and `box.Open` are a parameter, and the nonce that is read from the
-- random source an argument.
use netproject.Shared.{ℕ, ◌+◌, ◌≡◌, List, ◌++◌, Option, some, none, arith}
use netproject.Shared.{
  length, length-append, take, drop, take-append, drop-append, ltb, if◌then◌else◌, subst, Outcome,
  ok, panic,
}
use netproject.Keys.{PublicKey, PrivateKey}

abbrev pub nonce_len : ℕ
nonce_len = 24

abbrev pub box_overhead : ℕ
box_overhead = 16

-- golang.org/x/crypto/nacl/box: `seal` is what `Seal` appends to its first argument. Opening what
-- was sealed for a pair of keys, with the nonce, by the matching pair gives the message; a box is
-- longer than its message by the overhead.
pub record Nacl : Type 0 where
  pub seal : List ℕ → List ℕ → PublicKey → PrivateKey → List ℕ
  pub unseal : List ℕ → List ℕ → PublicKey → PrivateKey → Option (List ℕ)
  pub public_of : PrivateKey → PublicKey
  pub unseal-seal :
      (m n : List ℕ) (a b : PrivateKey)
      → unseal (seal m n (public_of b) a) n (public_of a) b ≡ some m
  pub length-seal :
      (m n : List ℕ) (p : PublicKey) (a : PrivateKey) → length (seal m n p a) ≡ length m + 16

module _ (nacl : Nacl) where
  open nacl use {seal, unseal, public_of, unseal-seal, length-seal}

  -- `EncryptBox`: the nonce, then the box.
  unfoldable pub encrypt_box : List ℕ → List ℕ → PrivateKey → PublicKey → List ℕ
  encrypt_box nonce message sender receiver = nonce ++ seal message nonce receiver sender

  -- The method `DecryptBox` of the private key, which looks at the length first.
  unfoldable pub decrypt_box : PrivateKey → List ℕ → PublicKey → Option (List ℕ)
  decrypt_box key nonce_and_text sender =
      if ltb (length nonce_and_text) nonce_len
      then none
      else unseal (drop 24 nonce_and_text) (take 24 nonce_and_text) sender key

  -- The function `DecryptBox`: slicing a shorter text at 24 panics.
  unfoldable pub decrypt_box_unchecked :
      List ℕ → PublicKey → PrivateKey → Outcome (Unit {0}) (Option (List ℕ))
  decrypt_box_unchecked nonce_and_text sender key =
      if ltb (length nonce_and_text) nonce_len
      then panic
      else ok (unseal (drop 24 nonce_and_text) (take 24 nonce_and_text) sender key)

  -- The receiver's `DecryptBox` opens what the sender's `EncryptBox` made for it with a nonce of
  -- 24 bytes.
  pub decrypt_box-encrypt_box :
      (nonce message : List ℕ) (sender receiver : PrivateKey)
      → length nonce ≡ 24
      → decrypt_box receiver
          (encrypt_box nonce message sender (public_of receiver))
          (public_of sender)
        ≡ some message
  unfolding decrypt_box encrypt_box
  decrypt_box-encrypt_box nonce message sender receiver h = ground (
    arith,
    length-append nonce (seal message nonce (public_of receiver) sender),
    subst (λ n. take n (nonce ++ seal message nonce (public_of receiver) sender) ≡ nonce) h
        (take-append nonce (seal message nonce (public_of receiver) sender)),
    subst
        (λ n.
          drop n (nonce ++ seal message nonce (public_of receiver) sender)
          ≡ seal message nonce (public_of receiver) sender)
        h (drop-append nonce (seal message nonce (public_of receiver) sender)),
    unseal-seal message nonce sender receiver,
  )

  -- An encrypted message is longer than the message by the nonce and the overhead.
  pub length-encrypt_box :
      (nonce message : List ℕ) (sender : PrivateKey) (receiver : PublicKey)
      → length nonce ≡ nonce_len
      → length (encrypt_box nonce message sender receiver)
        ≡ length message + nonce_len + box_overhead
  unfolding encrypt_box
  length-encrypt_box nonce message sender receiver h = omega (
    arith,
    length-append nonce (seal message nonce receiver sender),
    length-seal message nonce receiver sender,
  )

  -- The function does what the method does on texts of 24 bytes or more; on a shorter one, where
  -- the method gives no text, it panics.
  pub decrypt_box_agrees :
      (key : PrivateKey) (text : List ℕ) (sender : PublicKey)
      → (decrypt_box_unchecked text sender key
          ≡ (if ltb (length text) 24 then panic else ok (decrypt_box key text sender)))
        × ((if ltb (length text) 24 then decrypt_box key text sender else none) ≡ none)
  unfolding decrypt_box decrypt_box_unchecked
  decrypt_box_agrees key text sender = (ground arith, ground arith)
