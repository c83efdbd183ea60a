-- ===== src/Node/Client/Updates.antt =====
-- node/client.go, `Update`, against `updateHandler`: the client is told what `Update` gave, at once
-- or after its wait.
use netproject.Shared.{
  ℕ, ◌≡◌, refl, List, [], ◌∷◌, Bool, none, some, arith, Outcome, ok, Outcome-cases, Bool-cases, inl,
  inr, All, nat_eq, ◌==◌, length,
}
use netproject.Netip.{Addr, NetText}
use netproject.Keys.{IsArray}
use netproject.Control.Database.{Node, Table, Query, get_node, get_nodes}
use netproject.Control.Database.Readable.{IsReadable, get_nodes-IsReadable}
use netproject.Control.Service.{
  Service, ServiceError, UpdateRequest, UpdateResponse, Peer, answers_with, waits, peers_except,
  get_peers_of_node, update, update_looked_up, update_checked, update_signalled, update_timed_out,
}
use netproject.Control.Wire.{Json, IsCarried, unmarshal_update_response}
use netproject.Control.Http.{
  Ambient, Served, with_cors, polls, poll_answer, update_answer, handle, handle_signalled,
  handle_timed_out, update_handler_signalled, update_handler_timed_out,
}
use netproject.Node.Client.{Client, ClientError, read_answer, update_request, client_update}
use netproject.Node.Client.Answers.{answer_of, told_update, told_update_lem, handle-update_request}

module _ ⦃text : NetText⦄ where
  open text use {addr_text}

  abbrev AreCarried : List Peer → Type 0
  AreCarried peers =
      All (λ p. (a : Addr) × (p.ip ≡ addr_text a)) peers × All (λ p. IsArray p.public_key.k) peers

  peers_except-AreCarried :
      (id : ℕ) (nodes : List Node) → All IsReadable nodes → AreCarried (peers_except id nodes)
  unfolding peers_except
  peers_except-AreCarried id [] h = (tt, tt)
  peers_except-AreCarried id (n ∷ nodes) h =
      let rest = peers_except-AreCarried id nodes h.1 in
      elim (Bool-cases (n.id == id)) [
        | inl e ↦ rw e rest
        | inr e ↦ rw e (((n.ip, refl), rest.0), (h.0.key_array, rest.1))
      ]

  get_peers_of_node-AreCarried :
      (list : Query) (id : ℕ) (db : Table) (peers : List Peer)
      → get_peers_of_node list id db ≡ ok peers
      → AreCarried peers
  unfolding get_peers_of_node
  get_peers_of_node-AreCarried list id db peers e = elim (Outcome-cases (get_nodes list db)) [
    | inl (nodes, f) ↦
        ground
          (arith, e, f, peers_except-AreCarried id nodes (get_nodes-IsReadable list db nodes f))
    | inr (inl (_, f)) ↦ absurd (ground (arith, e, f))
    | inr (inr f) ↦ absurd (ground (arith, e, f))
  ]

  without_config-IsCarried :
      (peers : List Peer) (count : ℕ)
      → AreCarried peers
      → IsCarried (record { config = none; peers = peers; peer_count = count })
  without_config-IsCarried peers count h = record {
    shown = record { config_shown = λ c e. absurd (ground (arith, e)); peers_shown = h.0 };
    keys = h.1;
  }

  update_checked-IsCarried :
      (list : Query) (node : Node) (req : UpdateRequest) (s : Service) (r : UpdateResponse)
      → (update_checked list node req s).1 ≡ answers_with (ok r)
      → IsCarried r
  unfolding update_checked
  update_checked-IsCarried list node req s r e = elim (Bool-cases req.full_update) [
    | inl full ↦ elim (Outcome-cases (get_peers_of_node list node.id s.db)) [
      | inl (peers, f) ↦
          let h = get_peers_of_node-AreCarried list node.id s.db peers f in
          let carried : IsCarried (record {
            config = some (record {
              id = node.id;
              ip = addr_text node.ip;
              prefix = text.prefix_text node.prefix;
            });
            peers = peers;
            peer_count = length peers;
          }) =
            record {
              shown = record {
                config_shown = λ c g. (node.ip, node.prefix, ground (arith, g), ground (arith, g));
                peers_shown = h.0;
              };
              keys = h.1;
            } in
          ground (arith, e, full, f, carried)
      | inr (inl (_, f)) ↦ absurd (ground (arith, e, full, f))
      | inr (inr f) ↦ absurd (ground (arith, e, full, f))
    ]
    | inr partial ↦ absurd (ground (arith, e, partial))
  ]

  -- An update that `Update` answers is carried by JSON unchanged.
  update-IsCarried :
      (lookup list : Query) (now : ℕ) (req : UpdateRequest) (s : Service) (r : UpdateResponse)
      → (update lookup list now req s).1 ≡ answers_with (ok r)
      → IsCarried r
  unfolding update update_looked_up
  update-IsCarried lookup list now req s r e =
      elim (Outcome-cases (get_node lookup req.node_key s.db)) [
        | inl (node, f) ↦ update_checked-IsCarried list node req s r (ground (arith, e, f))
        | inr (inl (_, f)) ↦ absurd (ground (arith, e, f))
        | inr (inr f) ↦ absurd (ground (arith, e, f))
      ]

  pub update_signalled-IsCarried :
      (list : Query) (id : ℕ) (s s' : Service) (r : UpdateResponse)
      → update_signalled list id s ≡ some (s', ok r)
      → IsCarried r
  unfolding update_signalled
  update_signalled-IsCarried list id s s' r e =
      elim (Outcome-cases (get_peers_of_node list id s.db)) [
        | inl (peers, f) ↦
            let carried =
              without_config-IsCarried peers (length peers)
                (get_peers_of_node-AreCarried list id s.db peers f) in
            ground (arith, e, f, carried)
        | inr (inl (_, f)) ↦ absurd (ground (arith, e, f))
        | inr (inr f) ↦ absurd (ground (arith, e, f))
      ]

module _ ⦃text : NetText⦄ ⦃json : Json⦄ where
  -- What a client that polls reads in the end of how its request is served.
  abbrev client_reads : Served → Outcome ClientError UpdateResponse
  client_reads served = read_answer unmarshal_update_response (answer_of served)

  module _ (w : Ambient) (full : Bool) (c : Client) (s : Service) (h : IsArray c.node_key.k) where
    abbrev asked : UpdateRequest
    asked = record { node_key = c.node_key; full_update = full }

    -- An update over HTTP that `Update` answers at once does to the service what `Update` does,
    -- and tells the client what it gave: the response, with its addresses and keys, or the status
    -- of its error.
    pub client_update_lem :
        (result : Outcome ServiceError UpdateResponse)
        → (update w.env.lookup w.list w.now asked s).1 ≡ answers_with result
        → ((handle w (update_request full c) s).0 ≡ (update w.env.lookup w.list w.now asked s).0)
          × (client_update (λ r. answer_of (handle w r s).1) full c ≡ told_update result)
    unfolding client_update poll_answer
    client_update_lem result e =
        rw (handle-update_request w full c s h)
          (refl, rw e (told_update_lem result (λ r same. carried r (rw same at e))))
      where
        carried :
            (r : UpdateResponse)
            → (update w.env.lookup w.list w.now asked s).1 ≡ answers_with (ok r)
            → IsCarried r
        carried r = update-IsCarried w.env.lookup w.list w.now asked s r

    -- An update over HTTP that `Update` makes wait: after a signal the client is told what the
    -- service gives then, and after the time-out nothing.
    pub client_update_waits :
        (id : ℕ) (t t' : Service) (result : Outcome ServiceError UpdateResponse)
        → (update w.env.lookup w.list w.now asked s).1 ≡ waits id
        → update_signalled w.list id t ≡ some (t', result)
        → (handle w (update_request full c) s
            ≡ ((update w.env.lookup w.list w.now asked s).0, polls id))
          × (handle_signalled w.list id t ≡ some (t', with_cors (update_answer result)))
          × (client_update (λ _. answer_of (with_cors (update_answer result))) full c
              ≡ told_update result)
          × (client_update (λ _. answer_of (handle_timed_out t).1) full c
              ≡ told_update (update_timed_out t).1)
    unfolding client_update handle_signalled handle_timed_out update_handler_signalled
        update_handler_timed_out update_timed_out with_cors poll_answer
    client_update_waits id t t' result e signalled = (
      rw (handle-update_request w full c s h, e) refl,
      ground (arith, signalled),
      told_update_lem result
          (λ r same. update_signalled-IsCarried w.list id t t' r (rw same at signalled)),
      told_update_lem (ok (record { config = none; peers = []; peer_count = 0 }))
          (λ r same. ground (arith, same, without_config-IsCarried [] 0 (tt, tt))),
    )
