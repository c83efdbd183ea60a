-- ===== src/Node/Controller/Tests.antt =====
-- Runs of node/controller.go.
use netproject.Shared.{nat_eq, ◌≡◌, refl, [], ◌∷◌, true, false, none, some, ok, err}
use netproject.Shared.Map
use netproject.Netip.{ip4, addr_eq}
use netproject.Netip.Sample.{sample_text}
use netproject.Keys.{zero_key}
use netproject.Control.Service.{Peer}
use netproject.Node.Endpoint.{AddrPort, no_endpoint}
use netproject.Node.Mux.{Mux, no_bind, close_failed, dispatch_id, unknown_peer, register_peer}
use netproject.Node.Controller.{
  Controller, ControllerConfig, mux_failed, already_running, Start, bring_up, bring_down, new_peers,
  process_peer_update,
}
use netproject.Node.Controller.Registered.{IsRegistered, process_peer_update-IsRegistered}
use netproject.Node.Controller.Peers.{process_peer_update-get}
use netproject.Node.Controller.Restart.{Works, bring_down_stuck, restart_loses_peers}

abbrev home : AddrPort
home = record { addr = ip4 0; port = 5000 }

abbrev config : ControllerConfig
config = record {
  node_id = 1;
  node_ip = ip4 1684275201;
  node_prefix = record { addr = ip4 1684275200; bits = 10 };
  udp_port = 5000;
  node_public = zero_key;
}

abbrev start : Start
start = record {
  listen = some home;
  interfaces = λ port. [];
  dial = some 3;
  tun_opens = true;
  address_is_set = true;
  closes = true;
  relay_closes = true;
}

abbrev peer_a : Peer
peer_a = record { id = 2; ip = 4 ∷ 1684275202 ∷ []; public_key = zero_key }

abbrev mux : Mux
mux = record {
  node_id = 1;
  conn = true;
  peers = (2, 0) ∷ [];
  public_addr = no_endpoint;
  udp_port = 5000;
  unspecified_endpoints = home ∷ [];
  bind_active = true;
  relay_client = some (record { node_key = zero_key; conn = some 3 });
}

-- A controller that is up and knows one peer.
abbrev running : Controller
running = record {
  peers_by_ip = (ip4 1684275202, 0) ∷ [];
  peers_by_id = (2, 0) ∷ [];
  mux = some mux;
  has_tun = true;
  config = some config;
  up = true;
  made = 1;
}

abbrev stopped : Controller
stopped = record running { mux = none; has_tun = false; up = false }

bring_down_stuck_example :
    ((bring_down false true running).1 ≡ err (mux_failed close_failed))
    × (bring_down true true (bring_down false true running).0
        ≡ ((bring_down false true running).0, err (mux_failed no_bind)))
    × (bring_up start (bring_down false true running).0
        ≡ ((bring_down false true running).0, err already_running))
bring_down_stuck_example = bring_down_stuck true true start running mux refl refl refl refl

start-Works : Works start
start-Works = record {
  here = home;
  socket = 3;
  listens = refl;
  dials = refl;
  opens = refl;
  is_set = refl;
}

restart_loses_peers_example :
    (m : Mux) × ((bring_up start stopped).1 ≡ ok tt)
    × (process_peer_update ⦃text = sample_text⦄ (peer_a ∷ []) 1 (bring_up start stopped).0
        ≡ some (bring_up start stopped).0)
    × ((bring_up start stopped).0.mux ≡ some m)
    × (dispatch_id 2 (69 ∷ []) m ≡ unknown_peer)
unfolding new_peers Map.get
restart_loses_peers_example =
    restart_loses_peers ⦃text = sample_text⦄ start config 2 1 (69 ∷ []) (peer_a ∷ []) stopped
      start-Works refl refl refl

abbrev peer_b : Peer
peer_b = record { id = 3; ip = 4 ∷ 1684275203 ∷ []; public_key = zero_key }

-- What the controller is after an update that names one new peer and leaves the old one out.
abbrev updated : Controller
updated = record running {
  mux = some (register_peer 3 1 mux);
  peers_by_id = Map.put 3 1 running.peers_by_id;
  peers_by_ip = Map.put (ip4 1684275203) 1 running.peers_by_ip;
  made = 2;
}

update_runs : process_peer_update ⦃text = sample_text⦄ (peer_b ∷ []) 1 running ≡ some updated
unfolding process_peer_update Map.get
update_runs = refl

process_peer_update-IsRegistered_example : IsRegistered updated
process_peer_update-IsRegistered_example =
    process_peer_update-IsRegistered ⦃text = sample_text⦄ (peer_b ∷ []) 1 running updated
      (record { mux = mux; is_mux = refl; same = λ id. refl }) update_runs

process_peer_update-get_example : Map.get 2 updated.peers_by_id ≡ some 0
unfolding Map.get
process_peer_update-get_example =
    process_peer_update-get ⦃text = sample_text⦄ (peer_b ∷ []) 1 2 0 running updated refl
      update_runs
