-- ===== src/Node/Client/Routine.antt =====
-- node/node.go, the update routine, against the control server over HTTP.
use netproject.Shared.{
  ℕ, ◌<◌, ◌≡◌, ◌≢◌, ◌⊎◌, refl, List, ◌∷◌, true, false, Option, none, some, arith, ok, err, length,
  All, nat_eq, ◌==◌, Bool-cases, inl, inr,
}
use netproject.Shared.Map
use netproject.Netip.{NetText}
use netproject.Keys.{IsArray, is_zero}
use netproject.Control.Database.{Node, answers, get_node, get_nodes}
use netproject.Control.Database.Readable.{get_nodes-IsReadable}
use netproject.Control.Service.{Service, UpdateResponse, peers_except, err_node_key_expired}
use netproject.Control.Service.Login.{expired_key_is_stuck}
use netproject.Control.Service.Polling.{IsAdmitted}
use netproject.Control.Wire.{Json}
use netproject.Control.Http.{
  Ambient, Served, polls, message, node_key_expired, handle, handle_signalled,
}
use netproject.Node.Mux.{Mux}
use netproject.Node.Controller.{Controller, process_peer_update}
use netproject.Node.Controller.Peers.{knows}
use netproject.Node.Lifecycle
use netproject.Node.Lifecycle.{update_routine_round, update_routine}
use netproject.Node.Lifecycle.Starting.{process_peer_update-told}
use netproject.Node.Client.{Client, status_failed, update_request, client_update}
use netproject.Node.Client.Answers.{answer_of, told_update}
use netproject.Node.Client.Updates.{client_update_lem}
use netproject.Node.Client.Waking.{first_poll_told}
use netproject.Node.Client.Told.{reply, asks, counted, peers-All, peers_except-HaveAddresses}

module _ ⦃text : NetText⦄ where
  -- A round hands every update to the controller, the empty one without effect.
  update_routine_round-process :
      (update : UpdateResponse) (n : Lifecycle.Node) (c : Controller)
      → process_peer_update update.peers update.peer_count n.controller ≡ some c
      → update_routine_round (some update) n ≡ some (record n { controller = c })
  unfolding update_routine_round process_peer_update
  update_routine_round-process update n c e = elim (Bool-cases (update.peer_count == 0)) [
    | inl z ↦ ground (arith, z, e)
    | inr nz ↦ ground (arith, nz, e)
  ]

  round_learns :
      (a : ℕ) (nodes : List Node) (s : Service) (n : Lifecycle.Node) (m : Mux)
      → get_nodes answers s.db ≡ ok nodes
      → n.controller.up ≡ true
      → n.controller.mux ≡ some m
      → let peers = peers_except a nodes in
        let update : UpdateResponse = record {
          config = none;
          peers = peers;
          peer_count = length peers;
        } in
        (n' : Lifecycle.Node) × (update_routine_round (some update) n ≡ some n')
        × All (λ k. (k.id ≡ a) ⊎ (knows k.id n'.controller ≡ true)) nodes
  round_learns a nodes s n m g up mux =
      let peers = peers_except a nodes in
      let (c, processed, known) =
        process_peer_update-told peers (length peers) n.controller m up mux (counted peers)
          (peers_except-HaveAddresses a nodes (get_nodes-IsReadable answers s.db nodes g)) in
      (
        record n { controller = c },
        update_routine_round-process
            (record { config = none; peers = peers; peer_count = length peers }) n c processed,
        peers-All (λ id. knows id c ≡ true) a nodes known,
      )

module _ ⦃text : NetText⦄ ⦃json : Json⦄ where
  -- A client that the server admits polls for the first time over HTTP and waits, while another
  -- node that is up waits in a poll of its own. The other's wait can then end, where the list of
  -- nodes can be read, and its round of the update routine on the answer does not crash:
  -- afterwards its controller knows every node of the database but itself, the newcomer with them.
  pub node_discovers :
      (w : Ambient) (waiting polling : Client) (s : Service) (a pending : ℕ) (node : Node)
      (nodes : List Node) (n : Lifecycle.Node) (m : Mux)
      → IsArray polling.node_key.k
      → IsAdmitted (record { node_key = polling.node_key; full_update = false }) s node w.now
      → w.env.lookup ≡ answers
      → a ≢ node.id
      → Map.get a s.notify_chans ≡ some pending
      → Map.get node.id s.notify_chans ≡ none
      → get_nodes answers s.db ≡ ok nodes
      → n.controller.up ≡ true
      → n.controller.mux ≡ some m
      → let (s', served) = handle w (update_request false polling) s in
        (served ≡ polls node.id)
        × ((t : Service) × (told : Served) × (n' : Lifecycle.Node) × (handle_signalled answers a s'
              ≡ some (t, told))
            × (update_routine_round (reply (client_update (λ _. answer_of told) false waiting)) n
                ≡ some n')
            × All (λ k. (k.id ≡ a) ⊎ (knows k.id n'.controller ≡ true)) nodes)
  node_discovers w waiting polling s a pending node nodes n m array admitted lookup ne ga gb g up
        mux =
      let (polled, (t, told, woken, answered, _)) =
        first_poll_told w waiting polling s a pending node nodes array admitted lookup ne ga gb g in
      let (n', round, known) = round_learns a nodes s n m g up mux in
      (polled, (t, told, n', woken, rw answered round, known))

  -- The poll of a node whose key has expired gets status 401 over HTTP, and its update routine
  -- ends with it: whatever the server answers later changes nothing.
  pub expired_routine_ends :
      (w : Ambient) (c : Client) (s : Service) (node : Node) (later : List (Option UpdateResponse))
      (n : Lifecycle.Node)
      → IsArray c.node_key.k
      → is_zero c.node_key ≡ false
      → w.env.lookup ≡ answers
      → get_node answers c.node_key s.db ≡ ok node
      → node.node_key ≡ c.node_key
      → node.node_key_expiry < w.now
      → (client_update (asks w s) false c ≡ err (status_failed 401 (message node_key_expired)))
        × (update_routine (reply (client_update (asks w s) false c) ∷ later) n ≡ some n)
  unfolding update_routine told_update
  expired_routine_ends w c s node later n array nz lookup found same expired =
      let (_, update, _) =
        expired_key_is_stuck w.env (record { node_key = c.node_key }) s node w.list w.now false nz
          lookup found same expired in
      let (_, told) =
        client_update_lem w false c s array (err err_node_key_expired) (rw (lookup, update) refl) in
      (told, rw told refl)
