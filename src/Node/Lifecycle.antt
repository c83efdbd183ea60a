-- ===== src/Node/Lifecycle.antt =====
-- node/node.go: login, up, down and the update routine of a node. What the control server answers
-- is an argument, `none` for an error of the client.
pub mod Running
pub mod Starting
pub mod Tests
use netproject.Shared.{ℕ, List, [], ◌∷◌, Bool, true, false, not, Option, none, some}
use netproject.Shared.{Outcome, ok, err, panic, ◌==◌, nat_eq, if◌then◌else◌}
use netproject.Netip.{NetText}
use netproject.Keys.{
  PublicKey, PrivateKey, zero_key, zero_private_key, new_private_key, private_is_zero,
}
use netproject.Control.Service.{LoginResponse, UpdateResponse, NodeConfig}
use netproject.Node.Controller.{
  Controller, ControllerConfig, ControllerError, Start, new_controller, set_config, bring_up,
  process_peer_update,
}

-- `client_key` is the key of `client`.
pub record Node : Type 0 where
  pub running : Bool
  pub public_key : PublicKey
  pub private_key : PrivateKey
  pub key_expiry : ℕ
  pub config : Option NodeConfig
  pub client_key : PublicKey
  pub controller : Controller
  pub udp_port : ℕ

pub data LoginError : Type 0 where
  login_failed login_key_expired : LoginError

unfoldable pub new_node_of : ℕ → Node
unfolding new_controller
new_node_of port = record {
  running = false;
  public_key = zero_key;
  private_key = zero_private_key;
  key_expiry = 0;
  config = none;
  client_key = zero_key;
  controller = new_controller;
  udp_port = port;
}

-- What `Login` does to the keys before it asks, with the random bytes of a new key.
unfoldable pub with_key : (PrivateKey → PublicKey) → List ℕ → Node → Node
with_key public_of random n =
    if private_is_zero n.private_key
    then record n {
      private_key = new_private_key random;
      public_key = public_of (new_private_key random);
      client_key = public_of (new_private_key random);
    }
    else record n { client_key = n.public_key }

unfoldable pub forget_keys : Node → Node
forget_keys n = record n {
  private_key = zero_private_key;
  public_key = zero_key;
  client_key = zero_key;
}

unfoldable pub login :
    (PrivateKey → PublicKey)
    → List ℕ
    → Option LoginResponse
    → Node
    → Node × Outcome LoginError (Unit {0})
unfolding with_key forget_keys
login public_of random answer n = elim answer [
  | none ↦ (forget_keys (with_key public_of random n), err login_failed)
  | some r ↦
      if not r.logged_in
      then (forget_keys (with_key public_of random n), err login_key_expired)
      else (record (with_key public_of random n) { key_expiry = r.key_expiry }, ok tt)
]

module _ ⦃text : NetText⦄ where
  -- `Up` on the controller's answer: the peers, and the health of the control server.
  unfoldable pub up_started :
      UpdateResponse → Bool → Controller × Outcome ControllerError (Unit {0}) → Node → Option Node
  up_started update health (c, err _) n = some (record n { controller = c })
  up_started update health (c, panic) n = none
  up_started update health (c, ok _) n =
      elim (process_peer_update update.peers update.peer_count c) [
        | none ↦ none
        | some c' ↦
            if not health
            then some (record n { controller = c' })
            else some (record n { controller = c'; running = true })
      ]

  -- The controller's configuration; `none` is a panic of one of the parsers.
  unfoldable pub controller_config : NodeConfig → Node → Option ControllerConfig
  controller_config config n = elim (text.parse_addr config.ip) [
    | none ↦ none
    | some ip ↦ elim (text.parse_prefix config.prefix) [
      | none ↦ none
      | some prefix ↦ some (record {
        node_id = config.id;
        node_ip = ip;
        node_prefix = prefix;
        udp_port = n.udp_port;
        node_public = n.public_key;
      })
    ]
  ]

  -- `Up` on an update; without a configuration in it, it panics.
  unfoldable pub up_updated : UpdateResponse → Start → Bool → Node → Option Node
  unfolding controller_config up_started set_config
  up_updated update start health n = elim update.config [
    | none ↦ none
    | some config ↦ elim (controller_config config n) [
      | none ↦ none
      | some settings ↦
          up_started update health (bring_up start (set_config settings n.controller))
            (record n { config = some config })
    ]
  ]

  -- `Up`; `none` is a panic.
  unfoldable pub up_node : Option UpdateResponse → Start → Bool → Node → Option Node
  unfolding up_updated
  up_node answer start health n =
      if n.running
      then some n
      else if private_is_zero n.private_key
      then some n
      else elim answer [ none ↦ some n | some update ↦ up_updated update start health n ]

  -- One round of the update routine that `startUpdateRoutine` starts, on what the server answers.
  unfoldable pub update_routine_round : Option UpdateResponse → Node → Option Node
  update_routine_round none n = some n
  update_routine_round (some update) n =
      if update.peer_count == 0
      then some n
      else elim (process_peer_update update.peers update.peer_count n.controller) [
        | none ↦ none
        | some c ↦ some (record n { controller = c })
      ]

  -- The routine's loop on what the server answers until `Down` cancels it, one round after the
  -- other: the first error of the client ends it.
  unfoldable pub update_routine : List (Option UpdateResponse) → Node → Option Node
  unfolding update_routine_round
  update_routine [] n = some n
  update_routine (none ∷ rest) n = some n
  update_routine (some update ∷ rest) n = elim (update_routine_round (some update) n) [
    | none ↦ none
    | some n' ↦ update_routine rest n'
  ]

-- `Down`: the controller is not brought down.
unfoldable pub down_node : Node → Node
down_node n = if not n.running then n else record n { running = false }
