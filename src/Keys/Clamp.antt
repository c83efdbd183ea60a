-- ===== src/Keys/Clamp.antt =====
-- keys/key.go, `NewPrivateKey`: what clamping gives, for any random bytes.
use Prim.Native.Nat.{bit_and, bit_or}
use netproject.Shared.{ℕ, zero, suc, ◌%◌, ◌≤◌, ◌<◌, ◌≡◌, refl, ap, List, [], ◌∷◌, some, arith}
use netproject.Shared.{
  nat_eq, nat_beq_iff, length, All, Bool, true, false, ◌&&◌, ltb, leb, nat_beq, list_beq_iff,
  get_elem?, inl, inr, Bool-cases,
}
use netproject.Bytes.{IsByte}
use netproject.Keys.{IsArray, new_private_key, private_is_zero, clamp_last}

-- That a test holds of the numbers before `n`, and what it then says of each.
holds_before : (ℕ → Bool) → ℕ → Bool
holds_before test zero = true
holds_before test (suc n) = holds_before test n && test n

holds_before_at : (test : ℕ → Bool) (n b : ℕ) → b < n → holds_before test n ≡ true → test b ≡ true
unfolding holds_before
holds_before_at test zero b lt h = absurd (omega arith)
holds_before_at test (suc n) b lt h = elim (Bool-cases (nat_beq b n)) [
  | inl last ↦ let same : b ≡ n = (nat_beq_iff b n).0 last in rw same (ground arith)
  | inr before ↦ holds_before_at test n b (ground (arith, before)) (ground arith)
]

low_table : holds_before (λ x. nat_beq (bit_and x 248 % 8) 0 && ltb (bit_and x 248) 256) 256 ≡ true
unfolding holds_before
low_table = refl

high_table :
    holds_before
      (λ x. leb 64 (bit_or (bit_and x 127) 64) && ltb (bit_or (bit_and x 127) 64) 128)
      256
    ≡ true
unfolding holds_before
high_table = refl

low-IsByte : (b : ℕ) → IsByte b → (bit_and b 248 % 8 ≡ 0) × IsByte (bit_and b 248)
low-IsByte b h = ground (arith, holds_before_at _ 256 b h low_table)

high-IsByte :
    (b : ℕ) → IsByte b → (64 ≤ bit_or (bit_and b 127) 64) × (bit_or (bit_and b 127) 64 < 128)
high-IsByte b h = ground (arith, holds_before_at _ 256 b h high_table)

clamp_last_lem :
    (n : ℕ) (bs : List ℕ)
    → length bs ≡ suc n
    → All IsByte bs
    → (z : ℕ) × (get_elem? (clamp_last n bs) n ≡ some z)
      × (64 ≤ z)
      × (z < 128)
      × (length (clamp_last n bs) ≡ suc n)
      × All IsByte (clamp_last n bs)
unfolding clamp_last
clamp_last_lem n [] e h = absurd (omega arith)
clamp_last_lem zero (b ∷ bs) e h = (
  bit_or (bit_and b 127) 64,
  refl,
  (high-IsByte b h.0).0,
  (high-IsByte b h.0).1,
  e,
  (omega (arith, (high-IsByte b h.0).1), h.1),
)
clamp_last_lem (suc n) (b ∷ bs) e h =
    let r = clamp_last_lem n bs (omega arith) h.1 in
    (r.0, r.1, r.2, r.3, omega (arith, r.4), (h.0, r.5))

-- A new private key is 32 bytes, its first byte is a multiple of 8 and its last lies in [64, 128).
pub new_private_key-clamped :
    (random : List ℕ)
    → IsArray random
    → (a z : ℕ) × (get_elem? (new_private_key random).k 0 ≡ some a)
      × (a % 8 ≡ 0)
      × (get_elem? (new_private_key random).k 31 ≡ some z)
      × (64 ≤ z)
      × (z < 128)
      × IsArray (new_private_key random).k
unfolding new_private_key
new_private_key-clamped [] h = absurd (omega (arith, h.0))
new_private_key-clamped (b ∷ bs) h =
    let r = clamp_last_lem 30 bs (omega (arith, h.0)) h.1.1 in
    (
      bit_and b 248,
      r.0,
      refl,
      (low-IsByte b h.1.0).0,
      r.1,
      r.2,
      r.3,
      (omega (arith, r.4), ((low-IsByte b h.1.0).1, r.5)),
    )

-- So a new private key never counts as zero.
pub new_private_key-ne-zero :
    (random : List ℕ) → IsArray random → private_is_zero (new_private_key random) ≡ false
unfolding private_is_zero
new_private_key-ne-zero random h =
    let r = new_private_key-clamped random h in
    elim (Bool-cases (private_is_zero (new_private_key random))) [
      | inl e ↦
          absurd
            (ground (arith, r.4, r.5, ap (λ (k : List ℕ). get_elem? k 31) ((list_beq_iff _ _).0 e)))
      | inr e ↦ e
    ]
