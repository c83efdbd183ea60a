-- ===== src/Node/Client/Waking.antt =====
-- Two clients of the control server: one waits, and the other's first poll ends its wait.
-- node/client.go, control/server/routes.go and control/control_service together.
use netproject.Shared.{
  ℕ, ◌≡◌, ◌≢◌, refl, List, false, none, some, arith, ok, length, nat_eq, ◌∙◌, ap,
}
use netproject.Shared.Map
use netproject.Netip.{NetText}
use netproject.Keys.{IsArray}
use netproject.Control.Database.{Node, answers, get_nodes}
use netproject.Control.Service.{
  Service, peers_except, UpdateRequest, UpdateResponse, get_notify_chan,
}
use netproject.Control.Service.Polling.{IsAdmitted, ArePeersOf, update_waits, first_poll_wakes}
use netproject.Control.Wire.{Json}
use netproject.Control.Http.{
  Ambient, Served, polls, with_cors, poll_answer, update_answer, handle, handle_signalled,
  update_handler_signalled,
}
use netproject.Node.Client.{Client, update_request, client_update}
use netproject.Node.Client.Answers.{answer_of, told_update, told_update_lem, handle-update_request}
use netproject.Node.Client.Updates.{update_signalled-IsCarried}

module _ ⦃text : NetText⦄ ⦃json : Json⦄ where
  first_poll_waits :
      (w : Ambient) (polling : Client) (s : Service) (node : Node)
      → IsArray polling.node_key.k
      → IsAdmitted (record { node_key = polling.node_key; full_update = false }) s node w.now
      → w.env.lookup ≡ answers
      → handle w (update_request false polling) s ≡ (get_notify_chan node.id s, polls node.id)
  unfolding with_cors poll_answer
  first_poll_waits w polling s node array admitted lookup =
      let req : UpdateRequest = record { node_key = polling.node_key; full_update = false } in
      handle-update_request w false polling s array
      ∙ rw (lookup, update_waits req s node w.now w.list admitted refl) refl

  -- Over HTTP, a client that the server admits polls for the first time and waits; another node
  -- that has a channel can then leave its wait, and its client is told of exactly the other nodes
  -- of the database, where their list can be read.
  pub first_poll_told :
      (w : Ambient) (waiting polling : Client) (s : Service) (a pending : ℕ) (node : Node)
      (nodes : List Node)
      → IsArray polling.node_key.k
      → IsAdmitted (record { node_key = polling.node_key; full_update = false }) s node w.now
      → w.env.lookup ≡ answers
      → a ≢ node.id
      → Map.get a s.notify_chans ≡ some pending
      → Map.get node.id s.notify_chans ≡ none
      → get_nodes answers s.db ≡ ok nodes
      → let (s', served) = handle w (update_request false polling) s in
        let peers = peers_except a nodes in
        (served ≡ polls node.id)
        × ((t : Service) × (told : Served) × (handle_signalled answers a s' ≡ some (t, told))
            × (client_update (λ _. answer_of told) false waiting
                ≡ ok (record { config = none; peers = peers; peer_count = length peers }))
            × ArePeersOf a nodes peers)
  unfolding handle_signalled update_handler_signalled client_update told_update
  first_poll_told w waiting polling s a pending node nodes array admitted lookup ne ga gb g =
      let (q, woken, _, right) = first_poll_wakes a node.id pending s nodes ne ga gb g in
      let s' = get_notify_chan node.id s in
      let peers = peers_except a nodes in
      let update : UpdateResponse = record {
        config = none;
        peers = peers;
        peer_count = length peers;
      } in
      rw (first_poll_waits w polling s node array admitted lookup) (
        refl,
        (
          record s' { notify_chans = Map.put a q s'.notify_chans },
          with_cors (update_answer (ok update)),
          ground (arith, woken),
          told_update_lem (ok update) (λ r same. update_signalled-IsCarried answers a s' _ r (
              woken
              ∙ ap (λ o. some (record s' { notify_chans = Map.put a q s'.notify_chans }, o)) same)),
          right,
        ),
      )
