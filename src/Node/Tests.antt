-- ===== src/Node/Tests.antt =====
-- Runs of the start of a node on a machine, of the enumeration of interfaces in node/udpmux.go, and of
-- the way of a packet from tunnel to tunnel.
use netproject.Shared.{
  ◌≡◌, ◌↔◌, ◌⊎◌, inr, ◌++◌, refl, List, [], ◌∷◌, Bool, true, false, none, some, arith, All, ok,
  continues, exits, nat_eq, list_beq, replicate,
}
use mathlib.Core.Option
use netproject.Netip.{Addr, Prefix, NetText, ip4, in_prefix}
use netproject.Netip.Sample.{sample_text}
use netproject.Node.Interfaces.{
  Interface, ip_net, IsIpv4At, is_used, contains_tun, bind_interfaces, bind_interfaces-IsIpv4At,
  get_endpoints_for_unspecified, endpoints_of_interfaces, endpoints_of_addrs, endpoint_of_ip, to4,
  parse_ip, unmap_slice, addr_from_slice,
}
use netproject.Keys.{zero_key}
use netproject.Shared.{ℕ, Option, drop}
use netproject.Bytes.{uint32_value, uint64_value}
use netproject.Shared.Map
use netproject.Shared.Map.{Map}
use netproject.Node.Endpoint.{is_endpoint, is_discovery_packet, is_magic_test_packet}
use netproject.Node.Peer.{Peer, Effect, to_udp, to_tun, seconds, inbound_tun_packet, inbound_packet}
use netproject.Node.Peer.Tests.{here, there, sample_peer, sample_json}
use netproject.Node.Mux.{Mux, write_packet, read_round, datagram, to_peer}
use netproject.Node.Controller.{to_object, tun_round}
use netproject.Node.Controller.Registered.{IsRegistered}
use netproject.Node.DataPath.{tunnel_to_tunnel}
use netproject.Node.Controller.{Controller, ControllerConfig, bring_up}
use netproject.Node.Machine.{Machine, bring_up_on, start_of}
use netproject.Node.Machine.Started.{bring_up_on_lem}
use netproject.Node.Tunnel.{
  Tun, Command, ip_route_add, linux, device_commands, route_command, configure_ip_address,
  run_commands, on_failure,
}

instance abbrev net : NetText
net = sample_text

abbrev device : Tun
device = record { name = b't' ∷ b'u' ∷ b'n' ∷ b'0' ∷ [] }

abbrev prefix : Prefix
prefix = record { addr = ip4 1682309120; bits = 16 }

-- Every command works but the route.
abbrev no_route : Command → Bool
no_route (ip_route_add _ _) = false
no_route _ = true

route_fails : (configure_ip_address linux no_route (ip4 1682309121) prefix device).1 ≡ exits
unfolding configure_ip_address run_commands device_commands route_command on_failure
route_fails = refl

abbrev settings : ControllerConfig
settings = record {
  node_id = 1;
  node_ip = ip4 1682309121;
  node_prefix = prefix;
  udp_port = 0;
  node_public = zero_key;
}

abbrev idle : Controller
idle = record {
  peers_by_ip = [];
  peers_by_id = [];
  mux = none;
  has_tun = false;
  config = some settings;
  up = false;
  made = 0;
}

-- A Linux machine on which only the route fails.
abbrev machine : Machine
machine = record {
  os = linux;
  works = no_route;
  device = some device.name;
  listen = some (record { addr = ip4 167772167; port = 5000 });
  interfaces = none;
  dial = some 1;
  closes = true;
  relay_closes = true;
}

bring_up_on_lem_example :
    ((bring_up_on machine idle ≡ exits) ↔ (
      All (λ k. no_route k ≡ true) (device_commands linux device (ip4 1682309121))
      × (no_route (route_command linux (ip4 1682309121) prefix) ≡ false)))
    × (((c' : Controller) × (bring_up_on machine idle ≡ continues (c', ok tt))) ↔ (
        All
          (λ k. no_route k ≡ true)
          (device_commands linux device (ip4 1682309121)
            ++ (route_command linux (ip4 1682309121) prefix ∷ []))))
    × ((bring_up_on machine idle ≡ exits)
        ⊎ (bring_up_on machine idle ≡ continues (bring_up (start_of machine settings) idle)))
bring_up_on_lem_example =
    bring_up_on_lem machine settings (record { addr = ip4 167772167; port = 5000 }) device.name idle
      refl refl (λ e. absurd (ground (arith, e))) refl refl

abbrev loopback : Interface
loopback = record {
  is_up = true;
  is_loopback = true;
  name = b'l' ∷ b'o' ∷ [];
  addrs = some (ip_net (127 ∷ 0 ∷ 0 ∷ 1 ∷ []) ∷ []);
}

-- Ethernet with an IPv4 and an IPv6 address.
abbrev ethernet : Interface
ethernet = record {
  is_up = true;
  is_loopback = false;
  name = b'e' ∷ b't' ∷ b'h' ∷ b'0' ∷ [];
  addrs = some (ip_net (10 ∷ 0 ∷ 0 ∷ 7 ∷ []) ∷ ip_net (replicate 16 32) ∷ []);
}

abbrev tunnel : Interface
tunnel = record {
  is_up = true;
  is_loopback = false;
  name = b'u' ∷ b't' ∷ b'u' ∷ b'n' ∷ b'3' ∷ [];
  addrs = some (ip_net (100 ∷ 70 ∷ 0 ∷ 2 ∷ []) ∷ []);
}

abbrev interfaces : List Interface
interfaces = loopback ∷ ethernet ∷ tunnel ∷ []

one_endpoint :
    bind_interfaces (some interfaces) 5000 ≡ record { addr = ip4 167772167; port = 5000 } ∷ []
unfolding bind_interfaces get_endpoints_for_unspecified endpoints_of_interfaces endpoints_of_addrs
    endpoint_of_ip to4 parse_ip unmap_slice addr_from_slice is_used contains_tun list_beq
one_endpoint = refl

bind_interfaces-IsIpv4At_example :
    All (IsIpv4At 5000) (bind_interfaces (some interfaces) 5000)
    × (bind_interfaces (some interfaces) 5000
        ≡ bind_interfaces (some (loopback ∷ ethernet ∷ [])) 5000)
bind_interfaces-IsIpv4At_example =
    bind_interfaces-IsIpv4At (some interfaces) 5000 (loopback ∷ ethernet ∷ []) [] tunnel
      (inr (inr (b'u' ∷ [], b'3' ∷ [], refl)))

abbrev busy_mux : ℕ → Map ℕ ℕ → Mux
busy_mux id peers = record {
  node_id = id;
  conn = true;
  peers = peers;
  public_addr = here;
  udp_port = 5000;
  unspecified_endpoints = here ∷ [];
  bind_active = true;
  relay_client = none;
}

abbrev running : ℕ → ℕ → Addr → Controller
running id peer ip = record {
  peers_by_ip = (ip, 9) ∷ [];
  peers_by_id = (peer, 9) ∷ [];
  mux = some (busy_mux id ((peer, 9) ∷ []));
  has_tun = true;
  config = some settings;
  up = true;
  made = 10;
}

abbrev running-IsRegistered : (id peer : ℕ) (ip : Addr) → IsRegistered (running id peer ip)
running-IsRegistered id peer ip = record {
  mux = busy_mux id ((peer, 9) ∷ []);
  is_mux = refl;
  same = λ _. refl;
}

abbrev direct_peer : Peer
direct_peer = record {
  id = 2;
  ip = ip4 1682309122;
  active_addr = there;
  active_addr_rtt = 5;
  last_active_addr_pong = seconds 1000;
  candidates = [];
  last_full_check = seconds 1000;
  last_active_check = seconds 1000;
  last_endpoint_sync = seconds 1000;
}

-- An IPv4 header, and where it has its destination.
abbrev packet : List ℕ
packet = (69 ∷ 0 ∷ 0 ∷ 20 ∷ replicate 12 1) ++ (100 ∷ 70 ∷ 0 ∷ 2 ∷ [])

abbrev header_dst : List ℕ → Option Addr
unfolding uint32_value
header_dst buffer = Option.map ip4 (uint32_value (drop 16 buffer))

tunnel_to_tunnel_example :
    (control : List Effect) × (sent : List ℕ) × (tun_round header_dst
        (some packet)
        []
        settings
        (running 1 2 (ip4 1682309122))
      ≡ to_object 9 packet)
    × ((inbound_tun_packet sample_json [] (seconds 1001) packet direct_peer).1
        ≡ control ++ (to_udp packet there ∷ []))
    × (write_packet true packet (busy_mux 1 ((2, 9) ∷ [])) ≡ ok sent)
    × (read_round (λ b. false) (datagram sent) true (busy_mux 2 ((1, 9) ∷ [])) ≡ to_peer 9 packet)
    × (inbound_packet sample_json [] (seconds 1002) packet here sample_peer
        ≡ ok (sample_peer, to_tun packet ∷ []))
unfolding in_prefix Map.get is_endpoint is_discovery_packet uint32_value is_magic_test_packet
    uint64_value
tunnel_to_tunnel_example =
    tunnel_to_tunnel sample_json (λ b. false) [] [] (seconds 1001) (seconds 1002) header_dst packet
      [] (ip4 1682309122) here settings (running 1 2 (ip4 1682309122))
      (running 2 1 (ip4 1682309121)) 9 9 direct_peer sample_peer (busy_mux 1 ((2, 9) ∷ []))
      (running-IsRegistered 2 1 (ip4 1682309121)) (omega arith) refl (λ e. ground (arith, e)) refl
      refl refl (omega arith) (omega arith) (omega arith) refl refl refl refl refl refl refl refl
