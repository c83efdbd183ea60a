-- ===== src/Node/Lifecycle/Starting.antt =====
-- node/node.go: the way from a new node to one that runs.
use netproject.Shared.{ℕ, ◌≡◌, ◌≢◌, refl, List, [], ◌∷◌, true, false, some, arith, ◌⊎◌, inl, inr}
use netproject.Shared.{All, nat_eq, ◌==◌, Bool-cases}
use netproject.Netip.{NetText}
use netproject.Keys.{PublicKey, PrivateKey, private_is_zero, IsArray}
use netproject.Keys.Clamp.{new_private_key-ne-zero}
use netproject.Control.Service.{LoginResponse, UpdateResponse, NodeConfig, Peer}
use netproject.Node.Mux.{Mux}
use netproject.Node.Controller.{
  Controller, process_peer_update, ControllerConfig, Start, set_config, new_controller,
}
use netproject.Node.Controller.Peers.{HaveAddresses, knows, process_peer_update-learns}
use netproject.Node.Controller.Restart.{Works, bring_up-Works}
use netproject.Node.Lifecycle.{
  Node, new_node_of, with_key, login, up_started, up_updated, controller_config, up_node,
}
use netproject.Node.Lifecycle.Running.{logs_in, goes_up, run_call, run_calls}

module _ ⦃text : NetText⦄ where
  -- A controller that is up knows every peer of an update that counts its peers right.
  pub process_peer_update-told :
      (update : List Peer) (count : ℕ) (c : Controller) (m : Mux)
      → c.up ≡ true
      → c.mux ≡ some m
      → (count ≢ 0) ⊎ (update ≡ [])
      → HaveAddresses update
      → (c' : Controller) × (process_peer_update update count c ≡ some c')
        × All (λ p. knows p.id c' ≡ true) update
  unfolding process_peer_update
  process_peer_update-told update count c m g e counted h = elim (Bool-cases (count == 0)) [
    | inl z ↦ elim counted [
      | inl n ↦ absurd (n (ground (arith, z)))
      | inr empty ↦ (c, ground (arith, z), rw empty tt)
    ]
    | inr z ↦ process_peer_update-learns update count c m g e (ground (arith, z)) h
  ]

  up_runs :
      (update : UpdateResponse) (config : NodeConfig) (settings : ControllerConfig) (start : Start)
      (n : Node)
      → n.running ≡ false
      → n.controller.up ≡ false
      → private_is_zero n.private_key ≡ false
      → update.config ≡ some config
      → controller_config config n ≡ some settings
      → HaveAddresses update.peers
      → (update.peer_count ≢ 0) ⊎ (update.peers ≡ [])
      → Works start
      → (n' : Node) × (up_node (some update) start true n ≡ some n')
        × (n'.running ≡ true)
        × (n'.config ≡ some config)
        × All (λ p. knows p.id n'.controller ≡ true) update.peers
  unfolding up_node up_updated up_started set_config
  up_runs update config settings start n r down key e f addresses count works =
      let c = set_config settings n.controller in
      let (m, started, _) = bring_up-Works start settings c works down refl in
      let (d, processed, known) =
        process_peer_update-told update.peers update.peer_count
          (record c { mux = some m; has_tun = true; up = true }) m refl refl count addresses in
      (
        record n { config = some config; controller = d; running = true },
        ground (arith, r, key, e, f, started, processed),
        refl,
        refl,
        known,
      )

  login_works :
      (port : ℕ) (public_of : PrivateKey → PublicKey) (random : List ℕ) (answer : LoginResponse)
      → IsArray random
      → answer.logged_in ≡ true
      → let n = (login public_of random (some answer) (new_node_of port)).0 in
        (n.running ≡ false) × (n.controller.up ≡ false) × (private_is_zero n.private_key ≡ false)
  unfolding login with_key new_node_of new_controller
  login_works port public_of random answer array logged =
      ground (arith, logged, new_private_key-ne-zero random array)

  pub login_up_told :
      (port : ℕ) (public_of : PrivateKey → PublicKey) (random : List ℕ) (answer : LoginResponse)
      (update : UpdateResponse) (config : NodeConfig) (settings : ControllerConfig) (start : Start)
      → IsArray random
      → answer.logged_in ≡ true
      → update.config ≡ some config
      → controller_config config (login public_of random (some answer) (new_node_of port)).0
        ≡ some settings
      → HaveAddresses update.peers
      → (update.peer_count ≢ 0) ⊎ (update.peers ≡ [])
      → Works start
      → (n : Node) × (run_calls
            (logs_in public_of random (some answer) ∷ goes_up (some update) start true ∷ [])
            (new_node_of port)
          ≡ some n)
        × (n.running ≡ true)
        × (n.config ≡ some config)
        × All (λ p. knows p.id n.controller ≡ true) update.peers
  unfolding run_calls run_call
  login_up_told port public_of random answer update config settings start array logged e f addresses
        count works =
      let n = (login public_of random (some answer) (new_node_of port)).0 in
      let (r, down, key) = login_works port public_of random answer array logged in
      let (n', runs, running, configured, known) =
        up_runs update config settings start n r down key e f addresses count works in
      (n', ground (arith, runs), running, configured, known)

  -- A new node that logs in and goes up, where the control server and the operating system answer
  -- as they should, runs and knows every peer that the control server told it of.
  pub login_up_runs :
      (port : ℕ) (public_of : PrivateKey → PublicKey) (random : List ℕ) (answer : LoginResponse)
      (update : UpdateResponse) (config : NodeConfig) (settings : ControllerConfig) (start : Start)
      → IsArray random
      → answer.logged_in ≡ true
      → update.config ≡ some config
      → controller_config config (login public_of random (some answer) (new_node_of port)).0
        ≡ some settings
      → HaveAddresses update.peers
      → update.peer_count ≢ 0
      → Works start
      → (n : Node) × (run_calls
            (logs_in public_of random (some answer) ∷ goes_up (some update) start true ∷ [])
            (new_node_of port)
          ≡ some n)
        × (n.running ≡ true)
        × All (λ p. knows p.id n.controller ≡ true) update.peers
  login_up_runs port public_of random answer update config settings start array logged e f addresses
        count works =
      let (n, runs, running, _, known) =
        login_up_told port public_of random answer update config settings start array logged e f
          addresses (inl count) works in
      (n, runs, running, known)
