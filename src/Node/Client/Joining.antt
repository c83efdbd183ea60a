-- ===== src/Node/Client/Joining.antt =====
-- node/node.go, node/client.go and the control server together: a new node joins the network.
use netproject.Shared.{
  ℕ, ◌+◌, ◌≤◌, ◌≡◌, ◌⊎◌, refl, List, [], ◌∷◌, ◌++◌, true, some, arith, ok, All, All-append_left,
  nat_eq, length, list_beq,
}
use netproject.Netip.{NetText}
use netproject.Keys.{PublicKey, PrivateKey, IsArray, new_private_key, private_is_zero}
use netproject.Control.Database.{Node, answers, get_nodes}
use netproject.Control.Database.Connection.{DbStats, health}
use netproject.Control.Database.Readable.{get_nodes-IsReadable}
use netproject.Control.Service.{
  Service, LoginRequest, LoginResponse, UpdateRequest, UpdateResponse, node_key_valid_for,
  node_key_expired, peers_except,
}
use netproject.Control.Service.Register.{registered, after_registration}
use netproject.Control.Service.Login.{
  IsFirstLogin, first_login, get_node-first_login, get_nodes-first_login,
}
use netproject.Control.Service.Polling.{IsAdmitted, update_full_peers}
use netproject.Control.Wire.{Json}
use netproject.Control.Http.{Ambient, handle}
use netproject.Node.Client.{Client, login_request, client_login, client_update, client_health}
use netproject.Node.Client.Answers.{told_login, told_update, client_login_lem, client_health_lem}
use netproject.Node.Client.Updates.{client_update_lem}
use netproject.Node.Controller.{ControllerConfig, Start}
use netproject.Node.Controller.Restart.{Works}
use netproject.Node.Lifecycle
use netproject.Node.Lifecycle.{new_node_of, with_key, login, controller_config}
use netproject.Node.Lifecycle.Running.{Call, logs_in, goes_up, run_calls}
use netproject.Node.Lifecycle.Starting.{login_up_told}
use netproject.Node.Controller.Peers.{HaveAddresses, knows}
use netproject.Node.Client.Told.{reply, works, peers_except-HaveAddresses, peers-All, counted, asks}

module _ ⦃text : NetText⦄ ⦃json : Json⦄ where
  module _ (w w' : Ambient) (s : Service) (key : PublicKey) where
    abbrev client : Client
    client = record { node_key = key }

    abbrev login_of : LoginRequest
    login_of = record { node_key = key }

    abbrev logged_in_at : LoginResponse
    logged_in_at = record { logged_in = true; key_expiry = w.env.login_time + node_key_valid_for }

    abbrev after : Service
    after = after_registration w.env login_of s

    -- The new node's first update, as the service answers it.
    abbrev first_update : List Node → UpdateResponse
    first_update nodes = record {
      config = some (record {
        id = s.db.last_id + 1;
        ip = text.addr_text s.next_ip;
        prefix = text.prefix_text s.prefix;
      });
      peers = peers_except (s.db.last_id + 1) (nodes ++ (registered w.env login_of s ∷ []));
      peer_count =
          length (peers_except (s.db.last_id + 1) (nodes ++ (registered w.env login_of s ∷ [])));
    }

    module _ (f : IsFirstLogin w.env login_of s) where
      -- A first login over HTTP registers the node and tells the client so.
      first_login_told :
          (body : List ℕ)
          → json.encode_login_response logged_in_at ≡ some body
          → ((handle w (login_request client) s).0 ≡ after)
            × (client_login (asks w s) client ≡ ok logged_in_at)
      unfolding told_login
      first_login_told body e =
          let (state, told) = client_login_lem w client s f.stored.key_array in
          (
            rw (state, first_login w.env login_of s f) refl,
            ground (arith, told, first_login w.env login_of s f, e),
          )

      first_update_told :
          (nodes : List Node)
          → w'.env.lookup ≡ answers
          → w'.list ≡ answers
          → w'.now ≤ w.env.login_time + node_key_valid_for
          → get_nodes answers s.db ≡ ok nodes
          → client_update (asks w' after) true client ≡ ok (first_update nodes)
      unfolding told_update node_key_expired
      first_update_told nodes lookup list current g =
          let req : UpdateRequest = record { node_key = key; full_update = true } in
          let admitted : IsAdmitted req after (registered w.env login_of s) w'.now = record {
            nonzero = f.nonzero;
            found = get_node-first_login w.env login_of s f;
            same_key = refl;
            current = ground arith;
          } in
          let answered =
            update_full_peers req after (registered w.env login_of s) w'.now
              (nodes ++ (registered w.env login_of s ∷ [])) admitted refl
              (get_nodes-first_login w.env login_of s nodes f g) in
          (client_update_lem w' true client after f.stored.key_array (ok (first_update nodes))
            (rw (lookup, list, answered) refl)).1

      -- The nodes that the update names have addresses.
      first_update-HaveAddresses :
          (nodes : List Node)
          → get_nodes answers s.db ≡ ok nodes
          → HaveAddresses (first_update nodes).peers
      first_update-HaveAddresses nodes g =
          peers_except-HaveAddresses (s.db.last_id + 1)
            (nodes ++ (registered w.env login_of s ∷ []))
            (get_nodes-IsReadable answers after.db (nodes ++ (registered w.env login_of s ∷ []))
              (get_nodes-first_login w.env login_of s nodes f g))

  module _ (w w' : Ambient) (s : Service) (port : ℕ) (public_of : PrivateKey → PublicKey)
      (random : List ℕ) (start : Start) where
    abbrev key : PublicKey
    key = public_of (new_private_key random)

    -- The node's client after `Login` has made a key.
    abbrev newcomer : Client
    newcomer = record { node_key = key }

    abbrev req : LoginRequest
    req = record { node_key = key }

    -- `Login` and then `Up` of a new node, each on what its client is told by the server.
    abbrev pub joining : List Call
    joining =
        let s' = (handle w (login_request newcomer) s).0 in
        logs_in public_of random (reply (client_login (asks w s) newcomer))
        ∷ goes_up (reply (client_update (asks w' s') true newcomer)) start
            (works (client_health (asks w' s')))
        ∷ []

    -- The settings that the new node's controller gets.
    abbrev settings : ControllerConfig
    settings = record {
      node_id = s.db.last_id + 1;
      node_ip = s.next_ip;
      node_prefix = s.prefix;
      udp_port = port;
      node_public = key;
    }

    configured :
        IsFirstLogin w.env req s
        → controller_config
            (record {
              id = s.db.last_id + 1;
              ip = text.addr_text s.next_ip;
              prefix = text.prefix_text s.prefix;
            })
            (login public_of random (some (logged_in_at w w' s key)) (new_node_of port)).0
          ≡ some settings
    unfolding controller_config login with_key new_node_of private_is_zero list_beq
    configured f = ground (
      arith,
      text.parse_addr-text s.next_ip f.stored.ip_valid,
      text.parse_prefix-text s.prefix f.stored.prefix_valid,
    )

    joining_lem :
        (body : List ℕ) (nodes : List Node) (stats : DbStats)
        → IsFirstLogin w.env req s
        → json.encode_login_response (logged_in_at w w' s key) ≡ some body
        → w'.env.lookup ≡ answers
        → w'.list ≡ answers
        → w'.now ≤ w.env.login_time + node_key_valid_for
        → w'.ping ≡ some stats
        → get_nodes answers s.db ≡ ok nodes
        → joining ≡ (
            logs_in public_of random (some (logged_in_at w w' s key))
            ∷ goes_up (some (first_update w w' s key nodes)) start true
            ∷ [])
    unfolding health
    joining_lem body nodes stats f e lookup list current ping g =
        let (state, logged) = first_login_told w w' s key f body e in
        let updated = first_update_told w w' s key f nodes lookup list current g in
        let (_, healthy) = client_health_lem w' (after w w' s key) in
        rw (logged, state, updated, healthy, ping) refl

    -- A new node joins over HTTP: it logs in and goes up against the control server, where its key
    -- is not known to the server and the driver answers, the login's time can be written, the key
    -- has not expired, every node of the table can be read, the database answers the health
    -- check's ping and everything that the start meets works; the node then runs, has the id and
    -- the address that the server registered for it, and knows every node of the table, except one
    -- with its own id.
    pub node_joins :
        (body : List ℕ) (nodes : List Node) (stats : DbStats)
        → IsArray random
        → IsFirstLogin w.env req s
        → json.encode_login_response
            (record { logged_in = true; key_expiry = w.env.login_time + node_key_valid_for })
          ≡ some body
        → w'.env.lookup ≡ answers
        → w'.list ≡ answers
        → w'.now ≤ w.env.login_time + node_key_valid_for
        → w'.ping ≡ some stats
        → get_nodes answers s.db ≡ ok nodes
        → Works start
        → (n : Lifecycle.Node) × (run_calls joining (new_node_of port) ≡ some n)
          × (n.running ≡ true)
          × (n.config
              ≡ some (record {
                id = s.db.last_id + 1;
                ip = text.addr_text s.next_ip;
                prefix = text.prefix_text s.prefix;
              }))
          × All (λ m. (m.id ≡ s.db.last_id + 1) ⊎ (knows m.id n.controller ≡ true)) nodes
    node_joins body nodes stats array f e lookup list current ping g operating =
        let (n, runs, running, config, known) =
          login_up_told port public_of random (logged_in_at w w' s key)
            (first_update w w' s key nodes) _ settings start array refl refl (configured f)
            (first_update-HaveAddresses w w' s key f nodes g)
            (counted (first_update w w' s key nodes).peers) operating in
        (
          n,
          rw (joining_lem body nodes stats f e lookup list current ping g) runs,
          running,
          config,
          All-append_left _ nodes _
              (peers-All (λ id. knows id n.controller ≡ true) (s.db.last_id + 1) _ known),
        )
