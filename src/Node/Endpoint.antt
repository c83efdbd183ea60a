-- ===== src/Node/Endpoint.antt =====
-- `netip.AddrPort`, and the discovery packets of node/peer.go: their headers and their bodies.
use netproject.Shared.{
  ℕ, ◌≡◌, ◌↔◌, List, [], ◌∷◌, ◌++◌, Bool, true, false, ◌&&◌, Option, none, some, arith,
}
use netproject.Shared.{Eq, ◌==◌, nat_eq, nat_beq, ltb, if◌then◌else◌, length, get_elem?}
use netproject.Netip.{Addr, addr_eq, addr_beq, addr_beq_iff, no_addr, is_valid}
use netproject.Bytes.{uint32_bytes, uint32_value, uint64_value}

pub record AddrPort : Type 0 where
  pub addr : Addr
  pub port : ℕ

abbrev pub addr_port_beq : AddrPort → AddrPort → Bool
addr_port_beq a b = addr_beq a.addr b.addr && nat_beq a.port b.port

pub addr_port_beq_iff : (a b : AddrPort) → (addr_port_beq a b ≡ true) ↔ (a ≡ b)
addr_port_beq_iff a b = ground (arith, addr_beq_iff a.addr b.addr)

instance abbrev pub addr_port_eq : Eq AddrPort
addr_port_eq = record { beq = addr_port_beq; beq_iff = addr_port_beq_iff }

-- `netip.AddrPort{}`.
abbrev pub no_endpoint : AddrPort
no_endpoint = record { addr = no_addr; port = 0 }

unfoldable pub is_endpoint : AddrPort → Bool
unfolding is_valid
is_endpoint e = is_valid e.addr

abbrev pub magic : ℕ
magic = 0xdeadbeef

abbrev pub ping : ℕ
ping = 1

abbrev pub pong : ℕ
pong = 2

abbrev pub endpoints_request : ℕ
endpoints_request = 3

abbrev pub endpoints_response : ℕ
endpoints_response = 4

abbrev pub test_data_packet_magic : ℕ
test_data_packet_magic = 0xbeefdeadf00dd00f

unfoldable pub encode_header : ℕ → List ℕ
encode_header msgtype = uint32_bytes magic ++ (msgtype ∷ [])

-- `b[4]`; `none` where it is out of range, a panic.
unfoldable pub decode_header : List ℕ → Option ℕ
decode_header b = get_elem? b 4

unfoldable pub is_discovery_packet : List ℕ → Bool
is_discovery_packet b =
    if ltb (length b) 4 then false else elim (uint32_value b) [ none ↦ false | some v ↦ v == magic ]

unfoldable pub is_magic_test_packet : List ℕ → Bool
is_magic_test_packet b =
    if ltb (length b) 8
    then false
    else elim (uint64_value b) [ none ↦ false | some v ↦ v == test_data_packet_magic ]

-- `encoding/json` on the `Endpoints` message: `Marshal`, and what `Unmarshal` leaves in an empty
-- message, whose error the program ignores. What was marshalled is read back: an endpoint without
-- an address is `no_endpoint` in the program, which has no port that the text could lose.
pub record EndpointsJson : Type 0 where
  pub marshal : List AddrPort → List ℕ
  pub unmarshal : List ℕ → List AddrPort
  pub unmarshal-marshal : (es : List AddrPort) → unmarshal (marshal es) ≡ es
