-- ===== src/Node/Lifecycle/Running.antt =====
-- node/node.go: when a node runs.
use netproject.Shared.{
  ℕ, ◌≡◌, refl, List, [], ◌∷◌, Bool, true, false, Option, none, some, arith, inl, inr, Option-cases,
}
use netproject.Shared.{Outcome, ok, err, panic, nat_eq, if◌then◌else◌}
use netproject.Netip.{NetText}
use netproject.Keys.{PublicKey, PrivateKey}
use netproject.Control.Service.{Peer, LoginResponse, UpdateResponse}
use netproject.Node.Controller.{
  Controller, Start, set_config, bring_up, up_bound, fail_bound, new_peers, add_peer, add_peers,
  process_peer_update, ControllerError,
}
use netproject.Node.Lifecycle.{
  Node, new_node_of, with_key, forget_keys, login, up_started, up_updated, controller_config,
  up_node, update_routine_round, down_node,
}

-- What may be asked of a node, with what it meets.
pub data Call : Type 0 where
  logs_in : (PrivateKey → PublicKey) → List ℕ → Option LoginResponse → Call
  goes_up : Option UpdateResponse → Start → Bool → Call
  goes_down : Call
  polls : Option UpdateResponse → Call

module _ ⦃text : NetText⦄ where
  unfoldable pub run_call : Call → Node → Option Node
  unfolding login up_node down_node update_routine_round
  run_call (logs_in public_of random answer) n = some (login public_of random answer n).0
  run_call (goes_up answer start health) n = up_node answer start health n
  run_call goes_down n = some (down_node n)
  run_call (polls answer) n = update_routine_round answer n

  unfoldable pub run_calls : List Call → Node → Option Node
  unfolding run_call
  run_calls [] n = some n
  run_calls (c ∷ cs) n = elim (run_call c n) [ none ↦ none | some n' ↦ run_calls cs n' ]

  add_peers-up : (ps : List Peer) (c c' : Controller) → add_peers ps c ≡ some c' → c'.up ≡ c.up
  unfolding add_peers add_peer
  add_peers-up [] c c' e = ground (arith, e)
  add_peers-up (p ∷ ps) c c' e = elim (Option-cases (add_peer p c)) [
    | inl f ↦ absurd (ground (arith, f))
    | inr (d, f) ↦ ground (arith, add_peers-up ps d c', f, e)
  ]

  process_peer_update-up :
      (ps : List Peer) (count : ℕ) (c c' : Controller)
      → process_peer_update ps count c ≡ some c'
      → c'.up ≡ c.up
  unfolding process_peer_update
  process_peer_update-up ps count c c' e =
      ground (arith, add_peers-up (new_peers c.peers_by_id ps) c c', e)

  -- The node does not run, but its controller is up.
  abbrev pub IsStuck : Node → Type 0
  IsStuck n = (n.running ≡ false) × (n.controller.up ≡ true)

  up_updated-IsStuck :
      (update : UpdateResponse) (start : Start) (health : Bool) (n n' : Node)
      → IsStuck n
      → up_updated update start health n ≡ some n'
      → IsStuck n'
  unfolding up_updated up_started set_config bring_up
  up_updated-IsStuck update start health n n' h e = elim (Option-cases update.config) [
    | inl f ↦ absurd (ground (arith, f, e))
    | inr (config, f) ↦ elim (Option-cases (controller_config config n)) [
      | inl g ↦ absurd (ground (arith, f, g, e))
      | inr (settings, g) ↦ ground (arith, f, g, e, h)
    ]
  ]

  run_call-IsStuck : (c : Call) (n n' : Node) → IsStuck n → run_call c n ≡ some n' → IsStuck n'
  unfolding run_call login with_key forget_keys up_node down_node update_routine_round
  run_call-IsStuck (logs_in public_of random answer) n n' h e = ground (arith, h, e)
  run_call-IsStuck (goes_up none start health) n n' h e = ground (arith, h, e)
  run_call-IsStuck (goes_up (some update) start health) n n' h e =
      ground (arith, h, e, up_updated-IsStuck update start health n n' h)
  run_call-IsStuck goes_down n n' h e = ground (arith, h, e)
  run_call-IsStuck (polls none) n n' h e = ground (arith, h, e)
  run_call-IsStuck (polls (some update)) n n' h e =
      elim (Option-cases (process_peer_update update.peers update.peer_count n.controller)) [
        | inl f ↦ ground (arith, h, e, f)
        | inr (c, f) ↦
            ground (
              arith,
              h,
              e,
              f,
              process_peer_update-up update.peers update.peer_count n.controller c f,
            )
      ]

  run_calls-IsStuck :
      (cs : List Call) (n n' : Node) → IsStuck n → run_calls cs n ≡ some n' → IsStuck n'
  unfolding run_calls
  run_calls-IsStuck [] n n' h e = ground (arith, h, e)
  run_calls-IsStuck (c ∷ cs) n n' h e = elim (Option-cases (run_call c n)) [
    | inl f ↦ absurd (ground (arith, f, e))
    | inr (d, f) ↦ run_calls-IsStuck cs d n' (run_call-IsStuck c n d h f) (ground (arith, f, e))
  ]

  -- Whenever a node runs, its controller is up.
  abbrev pub IsBacked : Node → Type 0
  IsBacked n = (if n.running then n.controller.up else true) ≡ true

  bring_up-up : (s : Start) (c d : Controller) → bring_up s c ≡ (d, ok tt) → d.up ≡ true
  unfolding bring_up up_bound fail_bound
  bring_up-up s c d e = ground (arith, e)

  up_started-IsBacked :
      (update : UpdateResponse) (health : Bool)
      (started : Controller × Outcome ControllerError (Unit {0})) (n n' : Node)
      → ((d : Controller) → started ≡ (d, ok tt) → d.up ≡ true)
      → n.running ≡ false
      → up_started update health started n ≡ some n'
      → IsBacked n'
  unfolding up_started
  up_started-IsBacked update health (c, err x) n n' up h e = ground (arith, h, e)
  up_started-IsBacked update health (c, panic) n n' up h e = absurd (ground (arith, e))
  up_started-IsBacked update health (c, ok _) n n' up h e =
      elim (Option-cases (process_peer_update update.peers update.peer_count c)) [
        | inl f ↦ absurd (ground (arith, f, e))
        | inr (d, f) ↦
            ground (
              arith,
              h,
              e,
              f,
              up c refl,
              process_peer_update-up update.peers update.peer_count c d f,
            )
      ]

  up_updated-IsBacked :
      (update : UpdateResponse) (start : Start) (health : Bool) (n n' : Node)
      → n.running ≡ false
      → up_updated update start health n ≡ some n'
      → IsBacked n'
  unfolding up_updated
  up_updated-IsBacked update start health n n' h e = elim (Option-cases update.config) [
    | inl f ↦ absurd (ground (arith, f, e))
    | inr (config, f) ↦ elim (Option-cases (controller_config config n)) [
      | inl g ↦ absurd (ground (arith, f, g, e))
      | inr (settings, g) ↦
          up_started-IsBacked update health (bring_up start (set_config settings n.controller))
            (record n { config = some config }) n'
            (λ d. bring_up-up start (set_config settings n.controller) d) h
            (ground (arith, f, g, e))
    ]
  ]

  run_call-IsBacked : (c : Call) (n n' : Node) → IsBacked n → run_call c n ≡ some n' → IsBacked n'
  unfolding run_call login with_key forget_keys up_node down_node update_routine_round
  run_call-IsBacked (logs_in public_of random answer) n n' h e = ground (arith, h, e)
  run_call-IsBacked (goes_up none start health) n n' h e = ground (arith, h, e)
  run_call-IsBacked (goes_up (some update) start health) n n' h e =
      ground (arith, h, e, up_updated-IsBacked update start health n n')
  run_call-IsBacked goes_down n n' h e = ground (arith, h, e)
  run_call-IsBacked (polls none) n n' h e = ground (arith, h, e)
  run_call-IsBacked (polls (some update)) n n' h e =
      elim (Option-cases (process_peer_update update.peers update.peer_count n.controller)) [
        | inl f ↦ ground (arith, h, e, f)
        | inr (c, f) ↦
            ground (
              arith,
              h,
              e,
              f,
              process_peer_update-up update.peers update.peer_count n.controller c f,
            )
      ]

  run_calls-IsBacked :
      (cs : List Call) (n n' : Node) → IsBacked n → run_calls cs n ≡ some n' → IsBacked n'
  unfolding run_calls
  run_calls-IsBacked [] n n' h e = ground (arith, h, e)
  run_calls-IsBacked (c ∷ cs) n n' h e = elim (Option-cases (run_call c n)) [
    | inl f ↦ absurd (ground (arith, f, e))
    | inr (d, f) ↦ run_calls-IsBacked cs d n' (run_call-IsBacked c n d h f) (ground (arith, f, e))
  ]

  -- A node that ran and went down never runs again, whatever is asked of it and whatever the
  -- servers and the operating system answer: `Down` leaves the controller up, which then refuses
  -- every start.
  pub never_runs_again :
      (port : ℕ) (before after : List Call) (n n' : Node)
      → run_calls before (new_node_of port) ≡ some n
      → n.running ≡ true
      → run_calls (goes_down ∷ after) n ≡ some n'
      → n'.running ≡ false
  unfolding run_calls run_call down_node new_node_of
  never_runs_again port before after n n' ran r e =
      let backed = run_calls-IsBacked before (new_node_of port) n refl ran in
      (run_calls-IsStuck after (record n { running = false }) n' (refl, ground (arith, backed, r))
        (ground (arith, r, e))).0
