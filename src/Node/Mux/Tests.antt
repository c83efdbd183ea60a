-- ===== src/Node/Mux/Tests.antt =====
-- Runs of node/udpmux.go.
use netproject.Shared.{
  contains, ℕ, ◌≡◌, ◌≢◌, refl, List, [], ◌∷◌, true, none, some, arith, ok, panic,
}
use netproject.Shared.Map
use netproject.Bytes.{Slice}
use netproject.Netip.{ip4}
use netproject.Keys.{zero_key}
use netproject.Relay.Client.{RelayClient, received}
use netproject.Relay.Server.{Relay, route, resolve, forwarded}
use netproject.Node.Endpoint.{AddrPort}
use netproject.Node.Mux.{
  Mux, new_mux, bind, unbind, do_stun, write_packet, write_relay_packet, relay_round, to_peer,
}
use netproject.Node.Mux.Binding.{
  Call, binds, unbinds, registers, perform_all, bind_dial_fails, no_crash_while_dials_work,
}
use netproject.Node.Mux.Delivery.{relay_packet_delivered}

abbrev home : AddrPort
home = record { addr = ip4 3232235777; port = 5000 }

abbrev no_interfaces : ℕ → List AddrPort
no_interfaces port = []

abbrev idle_client : RelayClient
idle_client = record { node_key = zero_key; conn = none }

abbrev idle : Mux
idle = new_mux 1 5000 (some idle_client)

bind_dial_fails_example :
    ((bind (some home) no_interfaces none idle).1 ≡ ok tt)
    × (do_stun true (bind (some home) no_interfaces none idle).0 ≡ panic)
    × (write_packet true (1 ∷ []) (bind (some home) no_interfaces none idle).0 ≡ panic)
    × ((unbind true true (bind (some home) no_interfaces none idle).0).1 ≡ panic)
unfolding new_mux
bind_dial_fails_example =
    bind_dial_fails home no_interfaces idle_client (1 ∷ []) true true true idle refl refl

abbrev sample_calls : List Call
sample_calls = registers 2 7 ∷ binds (some home) no_interfaces 3 ∷ unbinds true true ∷ []

no_crash_while_dials_work_example :
    (write_packet true (1 ∷ []) (perform_all sample_calls idle) ≢ panic)
    × ((unbind true true (perform_all sample_calls idle)).1 ≢ panic)
unfolding new_mux
no_crash_while_dials_work_example =
    no_crash_while_dials_work sample_calls idle (1 ∷ []) true true true (refl, refl)

abbrev busy_client : RelayClient
busy_client = record { node_key = zero_key; conn = some 3 }

-- A bound mux of a node, with one peer.
abbrev bound_mux : ℕ → ℕ → ℕ → Mux
bound_mux node_id id peer = record {
  node_id = node_id;
  conn = true;
  peers = (id, peer) ∷ [];
  public_addr = home;
  udp_port = 5000;
  unspecified_endpoints = home ∷ [];
  bind_active = true;
  relay_client = some busy_client;
}

abbrev sample_relay : Relay
sample_relay = record { conns = (2, 5) ∷ (1, 4) ∷ []; alive = 4 ∷ 5 ∷ [] }

relay_packet_delivered_example :
    (message : List ℕ) × (out : Slice) × (write_relay_packet true (69 ∷ []) 2 (bound_mux 1 2 8)
      ≡ ok (some (3, message)))
    × (route 1 true (record { bytes = message; spare = [] }) sample_relay ≡ forwarded 5 out)
    × (relay_round (received true out.bytes) (bound_mux 2 1 9) ≡ to_peer 9 (69 ∷ []))
unfolding resolve Map.get contains
relay_packet_delivered_example =
    relay_packet_delivered 1 2 5 3 3 9 (69 ∷ []) [] busy_client busy_client (bound_mux 1 2 8)
      (bound_mux 2 1 9) sample_relay (omega arith) (omega arith) (omega arith) (omega arith) refl
      refl refl refl refl refl refl refl
