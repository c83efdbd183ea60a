-- ===== src/Relay/Joined.antt =====
-- The whole way of a packet: two nodes log in over HTTP, connect to the relay over HTTP, and one
-- sends to the other. control/server/routes.go, control/control_service, node/client.go and
-- node/relay.go together.
use netproject.Shared.{
  ℕ, ◌+◌, ◌^◌, ◌<◌, ◌≤◌, ◌≡◌, ◌≢◌, refl, ◌∙◌, List, [], true, false, none, some, arith, ap,
}
use netproject.Shared.{ok, nat_eq, contains}
use netproject.Shared.Map
use netproject.Shared.Map.{get-put}
use netproject.Bytes.{Slice}
use netproject.Netip.{NetText}
use netproject.Keys.{PublicKey, IsArray, is_zero}
use netproject.Control.Database.{answers, runs, create_node, insert_row}
use netproject.Control.Database.Laws.{get_node-create_node_ne}
use netproject.Control.Service.{
  Service, Env, LoginRequest, login_node, verify_node_for_relay, node_key_valid_for,
}
use netproject.Control.Service.Register.{registered}
use netproject.Control.Service.Login.{IsFirstLogin, first_login, verify-login}
use netproject.Control.Wire.{Json}
use netproject.Control.Http.{
  Ambient, Request, relay_path, method_get, upgrades, handle, cors_middleware, serve_mux, with_cors,
  relay_handler,
}
use netproject.Relay.Server.{Relay, forwarded, admit_key, enter, resolve, route}
use netproject.Relay.Client.{
  RelayClient, new_relay_client, received, connect_header, connect, send_packet, read_packet,
}
use netproject.Relay.EndToEnd.{admit-header, relayed}
use netproject.Node.Client.{login_request}
use netproject.Node.Client.Answers.{client_login_lem}

-- The request that `Connect` dials with.
abbrev pub relay_request : RelayClient → Request
relay_request c = record {
  method = method_get;
  path = relay_path;
  node_key_header = connect_header c;
  body = some [];
}

-- A client whose dial gave a connection.
abbrev pub connected : ℕ → PublicKey → RelayClient
connected conn key = record { node_key = key; conn = some conn }

connect-connected :
    (conn : ℕ) (key : PublicKey)
    → connect (some conn) (new_relay_client key) ≡ (connected conn key, ok tt)
unfolding connect new_relay_client
connect-connected conn key = refl

-- After one more registration, a socket that another node entered is still its own.
resolve-enter :
    (a b sa sb : ℕ) (r : Relay)
    → a ≢ b
    → (resolve (enter b sb (enter a sa r).0).0 b ≡ some sb)
      × (resolve (enter b sb (enter a sa r).0).0 a ≡ some sa)
unfolding resolve enter contains
resolve-enter a b sa sb r ne = ground (
  arith,
  get-put b b sb (Map.put a sa r.conns),
  get-put b a sb (Map.put a sa r.conns),
  get-put a a sa r.conns,
)

module _ ⦃text : NetText⦄ where
  -- Another node's first login does not change what the relay says of a key.
  verify-other :
      (env : Env) (req : LoginRequest) (s : Service) (key : PublicKey) (now : ℕ)
      → IsFirstLogin env req s
      → IsArray key.k
      → key ≢ req.node_key
      → verify_node_for_relay answers now key (login_node env req s).0
        ≡ verify_node_for_relay answers now key s
  unfolding verify_node_for_relay create_node
  verify-other env req s key now f array ne =
      rw
        (
          first_login env req s f,
          get_node-create_node_ne (registered env req s) env.insert_time s.db runs key f.stored
              array ne,
        )
        refl

module _ ⦃text : NetText⦄ ⦃json : Json⦄ where
  -- A client whose key the service verifies is given a websocket under its id.
  handle-relay_request :
      (w : Ambient) (conn id : ℕ) (key : PublicKey) (s : Service)
      → IsArray key.k
      → is_zero key ≡ false
      → w.refuses_upgrade ≡ none
      → verify_node_for_relay w.env.lookup w.now key s ≡ ok id
      → handle w (relay_request (connected conn key)) s ≡ (s, upgrades id)
  unfolding handle cors_middleware serve_mux with_cors relay_handler admit_key
  handle-relay_request w conn id key s array nz accepts v =
      ground
        (arith, nz, accepts, v, admit-header (connected conn key) array w.env.lookup w.now true s)

  module _ (wa wb wr : Ambient) (s : Service) (key_a key_b : PublicKey) where
    abbrev req_a : LoginRequest
    req_a = record { node_key = key_a }

    abbrev req_b : LoginRequest
    req_b = record { node_key = key_b }

    -- The service after the first node's login over HTTP, and after both.
    abbrev pub with_a : Service
    with_a = (handle wa (login_request (record { node_key = key_a })) s).0

    abbrev pub with_both : Service
    with_both = (handle wb (login_request (record { node_key = key_b })) with_a).0

    -- Both nodes are new, their keys differ and have not expired, and the relay works.
    pub record AreNew : Type 0 where
      pub first_a : IsFirstLogin wa.env req_a s
      pub first_b : IsFirstLogin wb.env req_b with_a
      pub differ : key_a ≢ key_b
      pub lookup_answers : wr.env.lookup ≡ answers
      pub upgrade_works : wr.refuses_upgrade ≡ none
      pub current_a : wr.now ≤ wa.env.login_time + node_key_valid_for
      pub current_b : wr.now ≤ wb.env.login_time + node_key_valid_for

    module _ (h : AreNew) where
      with_a-login : with_a ≡ (login_node wa.env req_a s).0
      with_a-login =
          (client_login_lem wa (record { node_key = key_a }) s h.first_a.stored.key_array).0

      with_both-login : with_both ≡ (login_node wb.env req_b with_a).0
      with_both-login =
          (client_login_lem wb (record { node_key = key_b }) with_a h.first_b.stored.key_array).0

      last_id-with_a : with_a.db.last_id ≡ s.db.last_id + 1
      unfolding insert_row
      last_id-with_a = rw (with_a-login, first_login wa.env req_a s h.first_a) refl

      verify-a : verify_node_for_relay answers wr.now key_a with_both ≡ ok (s.db.last_id + 1)
      verify-a =
          let known : verify_node_for_relay answers wr.now key_a (login_node wa.env req_a s).0
              ≡ ok (s.db.last_id + 1) =
            ground (arith, verify-login wa.env req_a s wr.now h.first_a, h.current_a) in
          ap (verify_node_for_relay answers wr.now key_a) with_both-login
          ∙ verify-other wb.env req_b with_a key_a wr.now h.first_b h.first_a.stored.key_array
              h.differ
          ∙ ap (verify_node_for_relay answers wr.now key_a) with_a-login
          ∙ known

      verify-b : verify_node_for_relay answers wr.now key_b with_both ≡ ok (s.db.last_id + 2)
      verify-b =
          ap (verify_node_for_relay answers wr.now key_b) with_both-login
          ∙ ground (
            arith,
            verify-login wb.env req_b with_a wr.now h.first_b,
            h.current_b,
            last_id-with_a,
          )

    -- Two new nodes with different keys log in over HTTP and connect to the relay over HTTP before
    -- their keys expire, where the driver and the upgrade work and the ids fit 64 bits: each is
    -- given a websocket under the id that its login registered, and what the first then sends to
    -- the second arrives there with its payload and the first one's id.
    pub joined_nodes_relay :
        (ca cb sa sb : ℕ) (payload spare : List ℕ) (r : Relay)
        → AreNew
        → s.db.last_id + 2 < 2 ^ 64
        → let a = connected ca key_a in
          let b = connected cb key_b in
          let id_a = s.db.last_id + 1 in
          let id_b = s.db.last_id + 2 in
          let r' = (enter id_b sb (enter id_a sa r).0).0 in
          (handle wr (relay_request a) with_both ≡ (with_both, upgrades id_a))
          × (handle wr (relay_request b) with_both ≡ (with_both, upgrades id_b))
          × ((message : List ℕ) × (out : Slice) × (send_packet true id_b payload a
                ≡ ok (ca, message))
              × (route id_a true (record { bytes = message; spare = spare }) r' ≡ forwarded sb out)
              × (read_packet (received true out.bytes) b ≡ ok (id_a, payload)))
    joined_nodes_relay ca cb sa sb payload spare r h bound = (
      handle-relay_request wr ca (s.db.last_id + 1) key_a with_both h.first_a.stored.key_array
          h.first_a.nonzero h.upgrade_works (rw h.lookup_answers (verify-a h)),
      handle-relay_request wr cb (s.db.last_id + 2) key_b with_both h.first_b.stored.key_array
          h.first_b.nonzero h.upgrade_works (rw h.lookup_answers (verify-b h)),
      relayed (s.db.last_id + 1) (s.db.last_id + 2) ca cb sb payload spare (connected ca key_a)
          (connected cb key_b) (enter (s.db.last_id + 2) sb (enter (s.db.last_id + 1) sa r).0).0
          (omega arith) (omega arith) (omega arith) (omega arith) refl refl
          (resolve-enter (s.db.last_id + 1) (s.db.last_id + 2) sa sb r (omega arith)).0,
    )
