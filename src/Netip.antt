-- ===== src/Netip.antt =====
-- `net/netip` as the program uses it: addresses with `Next`, prefixes, and their texts.
-- Zones are left out: the program makes none.
pub mod Sample
use netproject.Shared.{
  ℕ, ◌+◌, ◌-◌, ◌^◌, ◌/◌, ◌≡◌, ◌≤◌, ◌<◌, ◌↔◌, Bool, true, false, ◌&&◌, List, Option, some, arith,
}
use netproject.Shared.{Eq, ◌==◌, nat_eq, nat_beq, nat_beq_iff, leb, if◌then◌else◌}

-- `unset` is an `Addr` of no family; `Addr{}` is `unset 0`.
pub data Addr : Type 0 where
  unset : ℕ → Addr
  ip4 : ℕ → Addr
  ip6 : ℕ → Addr

abbrev pub no_addr : Addr
no_addr = unset 0

abbrev pub addr_beq : Addr → Addr → Bool
addr_beq (unset a) (unset b) = nat_beq a b
addr_beq (ip4 a) (ip4 b) = nat_beq a b
addr_beq (ip6 a) (ip6 b) = nat_beq a b
addr_beq _ _ = false

pub addr_beq_iff : (a b : Addr) → (addr_beq a b ≡ true) ↔ (a ≡ b)
addr_beq_iff (unset a) (unset b) = ground arith
addr_beq_iff (ip4 a) (ip4 b) = ground arith
addr_beq_iff (ip6 a) (ip6 b) = ground arith
addr_beq_iff _ _ = ground arith

instance abbrev pub addr_eq : Eq Addr
addr_eq = record { beq = addr_beq; beq_iff = addr_beq_iff }

unfoldable pub is_valid : Addr → Bool
is_valid (unset a) = false
is_valid _ = true

-- The address after the last of its family is `Addr{}`.
unfoldable pub next : Addr → Addr
next (ip4 a) = if a + 1 == 2 ^ 32 then no_addr else ip4 (a + 1)
next (ip6 a) = if a + 1 == 2 ^ 128 then no_addr else ip6 (a + 1)
next (unset a) = if a + 1 == 2 ^ 128 then no_addr else unset (a + 1)

-- An address's number fits its family.
abbrev pub IsAddr : Addr → Type 0
IsAddr (ip4 a) = a < 2 ^ 32
IsAddr (ip6 a) = a < 2 ^ 128
IsAddr (unset a) = a < 2 ^ 128

pub record Prefix : Type 0 where
  pub addr : Addr
  pub bits : ℕ

-- `Prefix.Contains`: the leading `bits` bits agree.
unfoldable pub in_prefix : Prefix → Addr → Bool
in_prefix p a = elim p.addr [
  | ip4 b ↦ elim a [
    | ip4 c ↦ leb p.bits 32 && c / 2 ^ (32 - p.bits) == b / 2 ^ (32 - p.bits)
    | _ ↦ false
  ]
  | ip6 b ↦ elim a [
    | ip6 c ↦ leb p.bits 128 && c / 2 ^ (128 - p.bits) == b / 2 ^ (128 - p.bits)
    | _ ↦ false
  ]
  | unset _ ↦ false
]

-- `Addr.String`, `Prefix.String` and their parsers: a valid address is read back from its text,
-- and no text reads as an invalid one.
pub record NetText : Type 0 where
  pub addr_text : Addr → List ℕ
  pub parse_addr : List ℕ → Option Addr
  pub prefix_text : Prefix → List ℕ
  pub parse_prefix : List ℕ → Option Prefix
  pub parse_addr-text : (a : Addr) → is_valid a ≡ true → parse_addr (addr_text a) ≡ some a
  pub parse_addr_valid : (s : List ℕ) (a : Addr) → parse_addr s ≡ some a → is_valid a ≡ true
  pub parse_prefix-text :
      (p : Prefix) → is_valid p.addr ≡ true → parse_prefix (prefix_text p) ≡ some p
