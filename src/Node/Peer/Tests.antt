-- ===== src/Node/Peer/Tests.antt =====
-- Runs of node/peer.go.
use netproject.Shared.{
  ℕ, ◌≡◌, ◌↔◌, ◌==◌, nat_eq, refl, List, [], ◌∷◌, ◌++◌, true, arith, ok, panic, length, All,
  contains, if◌then◌else◌,
}
use netproject.Shared.Map
use netproject.Netip.{Addr, unset, ip4, ip6}
use netproject.Node.Endpoint.{
  AddrPort, addr_port_eq, no_endpoint, is_endpoint, EndpointsJson, encode_header, ping, pong,
  is_discovery_packet, is_magic_test_packet,
}
use netproject.Bytes.{uint32_bytes}
use netproject.Node.Peer.{
  Peer, Candidate, Effect, to_udp, to_relay, to_tun, stun, new_peer, seconds, write, handle_pong,
  inbound_packet, inbound_relay_packet,
}
use netproject.Node.Peer.Writing.{Sends, write-Sends, first_active_addr_lost}
use mathlib.Core.List.{Mem}
use netproject.Node.Peer.Path.{path_found}
use netproject.Node.Peer.Inbound.{
  inbound_relay_packet-panic, inbound_relay_packet-IsNetwork, inbound_packet-to_tun, IsNetwork,
}
use netproject.Node.Peer.Sound.{written, Life, born, lives, IsSound, IsFor, Life-IsSound}

-- A text of endpoints: a family, an address and a port for each.
abbrev sample_marshal : List AddrPort → List ℕ
sample_marshal [] = []
sample_marshal (e ∷ es) = elim e.addr [
  | unset a ↦ 0 ∷ a ∷ e.port ∷ sample_marshal es
  | ip4 a ↦ 4 ∷ a ∷ e.port ∷ sample_marshal es
  | ip6 a ↦ 6 ∷ a ∷ e.port ∷ sample_marshal es
]

abbrev sample_addr : ℕ → ℕ → Addr
sample_addr family a = if family == 4 then ip4 a else if family == 6 then ip6 a else unset a

abbrev sample_unmarshal : List ℕ → List AddrPort
sample_unmarshal (family ∷ a ∷ p ∷ b) =
    record { addr = sample_addr family a; port = p } ∷ sample_unmarshal b
sample_unmarshal _ = []

pub sample_unmarshal-marshal : (es : List AddrPort) → sample_unmarshal (sample_marshal es) ≡ es
sample_unmarshal-marshal [] = refl
sample_unmarshal-marshal (e ∷ es) = ground (arith, sample_unmarshal-marshal es)

abbrev pub sample_json : EndpointsJson
sample_json = record {
  marshal = sample_marshal;
  unmarshal = sample_unmarshal;
  unmarshal-marshal = sample_unmarshal-marshal;
}

abbrev pub here : AddrPort
here = record { addr = ip4 3232235777; port = 5000 }

abbrev pub there : AddrPort
there = record { addr = ip4 3232235778; port = 6000 }

abbrev pub sample_peer : Peer
sample_peer = new_peer 7 (ip4 1684275202)

abbrev other_peer : Peer
other_peer = new_peer 3 (ip4 1684275201)

write-Sends_example :
    Sends sample_json
      (here ∷ [])
      (1 ∷ [])
      sample_peer
      (write sample_json (here ∷ []) (seconds 1000) (1 ∷ []) sample_peer)
write-Sends_example = write-Sends sample_json (here ∷ []) (seconds 1000) (1 ∷ []) sample_peer

-- A peer with one candidate that has answered once.
abbrev answering : Candidate
answering = record {
  endpoint = there;
  last_ping = seconds 999;
  received_pong = seconds 999;
  rtt = 5;
  attempts = 1;
}

abbrev connecting : Peer
connecting = record {
  id = 7;
  ip = ip4 1684275202;
  active_addr = no_endpoint;
  active_addr_rtt = 0;
  last_active_addr_pong = 0;
  candidates = (there, answering) ∷ [];
  last_full_check = seconds 998;
  last_active_check = 0;
  last_endpoint_sync = seconds 990;
}

first_active_addr_lost_example :
    ((handle_pong (seconds 1000) there connecting).0.active_addr ≡ there)
    × ((write sample_json []
          (seconds 1002)
          (2 ∷ [])
          (write sample_json []
            (seconds 1001)
            (1 ∷ [])
            (handle_pong (seconds 1000) there connecting).0).0).0.active_addr
        ≡ no_endpoint)
    × ((write sample_json []
          (seconds 1002)
          (2 ∷ [])
          (write sample_json []
            (seconds 1001)
            (1 ∷ [])
            (handle_pong (seconds 1000) there connecting).0).0).1
        ≡ to_relay (2 ∷ []) 7 ∷ [])
unfolding Map.get is_endpoint
first_active_addr_lost_example =
    first_active_addr_lost sample_json [] (seconds 1000) (seconds 1001) (seconds 1002) (1 ∷ [])
      (2 ∷ []) there answering connecting refl (ground arith) refl refl refl (omega arith)
      (omega arith) (omega arith) (omega arith) (omega arith)

inbound_relay_packet-panic_example :
    (inbound_relay_packet sample_json [] 5 (0xde ∷ 0xad ∷ 0xbe ∷ 0xef ∷ []) sample_peer ≡ panic) ↔ (
      (is_discovery_packet (0xde ∷ 0xad ∷ 0xbe ∷ 0xef ∷ []) ≡ true)
      × (length {A = ℕ} (0xde ∷ 0xad ∷ 0xbe ∷ 0xef ∷ []) ≡ 4))
inbound_relay_packet-panic_example =
    inbound_relay_packet-panic sample_json [] 5 (0xde ∷ 0xad ∷ 0xbe ∷ 0xef ∷ []) sample_peer

inbound_relay_packet-IsNetwork_example :
    (q : Peer) × (effects : List Effect) × (inbound_relay_packet sample_json [] 5
        (69 ∷ 0 ∷ 0 ∷ 20 ∷ 1 ∷ [])
        sample_peer
      ≡ ok (q, effects))
    × All IsNetwork effects
inbound_relay_packet-IsNetwork_example =
    inbound_relay_packet-IsNetwork sample_json [] 5 (69 ∷ 0 ∷ 0 ∷ 20 ∷ 1 ∷ []) sample_peer
      (omega arith)

inbound_packet-to_tun_example :
    (q : Peer) × (control : List Effect) × (inbound_packet sample_json [] 5
        (encode_header ping)
        there
        sample_peer
      ≡ ok (q, control ++ (to_tun (encode_header ping) ∷ [])))
    × All IsNetwork control
unfolding encode_header uint32_bytes is_magic_test_packet
inbound_packet-to_tun_example =
    inbound_packet-to_tun sample_json [] 5 (encode_header ping) there sample_peer (omega arith) refl

abbrev first_write :
    Life sample_json 7
      (ip4 1684275202)
      (write sample_json [] 5 (1 ∷ []) sample_peer).0
      ([] ++ (write sample_json [] 5 (1 ∷ []) sample_peer).1)
first_write = lives born (written [] 5 (1 ∷ []))

Life-IsSound_example :
    IsSound 7 (ip4 1684275202) (write sample_json [] 5 (1 ∷ []) sample_peer).0
    × All (IsFor 7) ([] ++ (write sample_json [] 5 (1 ∷ []) sample_peer).1)
Life-IsSound_example =
    Life-IsSound sample_json 7 (ip4 1684275202) (write sample_json [] 5 (1 ∷ []) sample_peer).0
      ([] ++ (write sample_json [] 5 (1 ∷ []) sample_peer).1) first_write

path_found_example :
    (request response : List ℕ) × (pings : List Effect) × (p2 p3 p4 p5 q1 : Peer) × ((write
        sample_json
        (here ∷ [])
        (seconds 1000)
        (1 ∷ [])
        sample_peer).1
      ≡ stun ∷ to_relay request 7 ∷ to_relay (1 ∷ []) 7 ∷ [])
    × (inbound_relay_packet sample_json (there ∷ []) (seconds 1001) request other_peer
        ≡ ok (q1, stun ∷ to_relay response 3 ∷ []))
    × (inbound_relay_packet sample_json
          (here ∷ [])
          (seconds 1002)
          response
          (write sample_json (here ∷ []) (seconds 1000) (1 ∷ []) sample_peer).0
        ≡ ok (p2, []))
    × (write sample_json (here ∷ []) (seconds 1003) (2 ∷ []) p2
        ≡ (p3, pings ++ (to_relay (2 ∷ []) 7 ∷ [])))
    × Mem (to_udp (encode_header ping) there) pings
    × ((t : ℕ)
        → inbound_packet sample_json (there ∷ []) t (encode_header ping) here q1
          ≡ ok (q1, to_udp (encode_header pong) here ∷ to_tun (encode_header ping) ∷ []))
    × (inbound_packet sample_json (here ∷ []) (seconds 1004) (encode_header pong) there p3
        ≡ ok (p4, to_udp (encode_header ping) there ∷ to_tun (encode_header pong) ∷ []))
    × (inbound_packet sample_json (here ∷ []) (seconds 1005) (encode_header pong) there p4
        ≡ ok (p5, to_tun (encode_header pong) ∷ []))
    × (p5.active_addr ≡ there)
    × ((write sample_json (here ∷ []) (seconds 1006) (3 ∷ []) p5).1
        ≡ to_udp (encode_header ping) there ∷ to_udp (3 ∷ []) there ∷ [])
unfolding is_endpoint contains new_peer
path_found_example =
    path_found sample_json (here ∷ []) (there ∷ []) here there (seconds 1000) (seconds 1001)
      (seconds 1002) (seconds 1003) (seconds 1004) (seconds 1005) (seconds 1006) (1 ∷ []) (2 ∷ [])
      (3 ∷ []) sample_peer other_peer refl refl refl refl refl (omega arith) (omega arith)
      (omega arith) (omega arith) (omega arith)
