-- ===== src/Netip/Sample.antt =====
-- A concrete text form of addresses, by which the hypotheses on `net/netip` are met in tests.
use netproject.Shared.{
  ℕ, ◌≡◌, refl, List, [], ◌∷◌, true, Option, none, some, arith, nat_eq, ◌==◌, if◌then◌else◌,
}
use netproject.Netip.{Addr, unset, ip4, ip6, Prefix, NetText, is_valid}

abbrev pub sample_addr_text : Addr → List ℕ
sample_addr_text (ip4 a) = 4 ∷ a ∷ []
sample_addr_text (ip6 a) = 6 ∷ a ∷ []
sample_addr_text (unset a) = []

abbrev pub sample_parse_addr : List ℕ → Option Addr
sample_parse_addr (c ∷ a ∷ []) =
    if c == 4 then some (ip4 a) else if c == 6 then some (ip6 a) else none
sample_parse_addr _ = none

abbrev pub sample_prefix_text : Prefix → List ℕ
sample_prefix_text p = p.bits ∷ sample_addr_text p.addr

abbrev with_bits : ℕ → Option Addr → Option Prefix
with_bits bits none = none
with_bits bits (some a) = some (record { addr = a; bits = bits })

abbrev pub sample_parse_prefix : List ℕ → Option Prefix
sample_parse_prefix [] = none
sample_parse_prefix (b ∷ rest) = with_bits b (sample_parse_addr rest)

pub sample_parse_addr-text :
    (a : Addr) → is_valid a ≡ true → sample_parse_addr (sample_addr_text a) ≡ some a
unfolding is_valid
sample_parse_addr-text (ip4 a) h = refl
sample_parse_addr-text (ip6 a) h = refl
sample_parse_addr-text (unset a) h = absurd (ground arith)

pub sample_parse_addr_valid :
    (s : List ℕ) (a : Addr) → sample_parse_addr s ≡ some a → is_valid a ≡ true
unfolding is_valid
sample_parse_addr_valid [] a e = ground arith
sample_parse_addr_valid (c ∷ []) a e = ground arith
sample_parse_addr_valid (c ∷ x ∷ []) a e = ground arith
sample_parse_addr_valid (c ∷ x ∷ y ∷ r) a e = ground arith

pub sample_parse_prefix-text :
    (p : Prefix) → is_valid p.addr ≡ true → sample_parse_prefix (sample_prefix_text p) ≡ some p
sample_parse_prefix-text p h = ground (arith, sample_parse_addr-text p.addr h)

abbrev pub sample_text : NetText
sample_text = record {
  addr_text = sample_addr_text;
  parse_addr = sample_parse_addr;
  prefix_text = sample_prefix_text;
  parse_prefix = sample_parse_prefix;
  parse_addr-text = sample_parse_addr-text;
  parse_addr_valid = sample_parse_addr_valid;
  parse_prefix-text = sample_parse_prefix-text;
}
