-- ===== src/Node/Lifecycle/Tests.antt =====
-- Runs of node/node.go.
use netproject.Shared.{
  list_beq, nat_eq, ℕ, ◌≡◌, refl, List, [], ◌∷◌, true, false, some, arith, replicate,
}
use netproject.Netip.{ip4}
use netproject.Netip.Sample.{sample_text}
use netproject.Keys.{PublicKey, PrivateKey, zero_key, new_private_key, private_is_zero}
use netproject.Control.Service.{Peer, LoginResponse, UpdateResponse, NodeConfig}
use netproject.Node.Controller.{ControllerConfig, Start}
use netproject.Node.Controller.Restart.{Works}
use netproject.Node.Lifecycle.{Node, new_node_of, login, with_key, controller_config, down_node}
use netproject.Node.Lifecycle.Running.{
  Call, logs_in, goes_up, run_call, run_calls, never_runs_again,
}
use netproject.Node.Lifecycle.Starting.{login_up_runs}

abbrev pub start : Start
start = record {
  listen = some (record { addr = ip4 0; port = 5000 });
  interfaces = λ port. [];
  dial = some 3;
  tun_opens = true;
  address_is_set = true;
  closes = true;
  relay_closes = true;
}

pub start-Works : Works start
start-Works = record {
  here = record { addr = ip4 0; port = 5000 };
  socket = 3;
  listens = refl;
  dials = refl;
  opens = refl;
  is_set = refl;
}

abbrev peer : Peer
peer = record { id = 2; ip = 4 ∷ 1684275202 ∷ []; public_key = zero_key }

abbrev config : NodeConfig
config = record { id = 1; ip = 4 ∷ 1684275201 ∷ []; prefix = 10 ∷ 4 ∷ 1684275200 ∷ [] }

abbrev update : UpdateResponse
update = record { config = some config; peers = peer ∷ []; peer_count = 1 }

abbrev answer : LoginResponse
answer = record { logged_in = true; key_expiry = 100 }

abbrev random : List ℕ
random = replicate 32 7

abbrev public_of : PrivateKey → PublicKey
public_of key = record { k = key.k }

abbrev settings : ControllerConfig
settings = record {
  node_id = 1;
  node_ip = ip4 1684275201;
  node_prefix = record { addr = ip4 1684275200; bits = 10 };
  udp_port = 5000;
  node_public = public_of (new_private_key random);
}

configured :
    controller_config ⦃text = sample_text⦄ config
      (login public_of random (some answer) (new_node_of 5000)).0
    ≡ some settings
unfolding controller_config login with_key new_node_of private_is_zero list_beq
configured = refl

abbrev first_calls : List Call
first_calls = logs_in public_of random (some answer) ∷ goes_up (some update) start true ∷ []

-- A node after its first start.
running_node :
    (n : Node) × (run_calls ⦃text = sample_text⦄ first_calls (new_node_of 5000) ≡ some n)
    × (n.running ≡ true)
running_node =
    let r =
      login_up_runs ⦃text = sample_text⦄ 5000 public_of random answer update config settings start
        (omega arith) refl refl configured (refl, tt) (omega arith) start-Works in
    (r.0, r.1, r.2)

never_runs_again_example : (down_node running_node.0).running ≡ false
unfolding run_calls run_call
never_runs_again_example =
    never_runs_again ⦃text = sample_text⦄ 5000 first_calls [] running_node.0
      (down_node running_node.0) running_node.1 running_node.2 refl
