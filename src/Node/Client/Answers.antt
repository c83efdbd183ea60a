-- ===== src/Node/Client/Answers.antt =====
-- node/client.go against control/server/routes.go: what the client is told is what the service
-- did.
use netproject.Shared.{
  ◌≡◌, refl, List, [], ◌∷◌, Bool, true, Option, none, some, arith, Outcome, ok, err, panic,
  Option-cases, continues, exits, Process-cases, inl, inr, map, All, nat_eq,
}
use netproject.Netip.{NetText}
use netproject.Keys.{PublicKey, IsArray, zero_key, marshal_text}
use netproject.Keys.Laws.{unmarshal_text-marshal_text}
use netproject.Control.Database.Connection.{health}
use netproject.Control.Service.{
  Service, ServiceError, LoginRequest, UpdateRequest, LoginResponse, UpdateResponse, Peer,
  err_invalid_node_key, err_node_key_expired, login_node, update,
}
use netproject.Control.Wire.{
  Json, IsCarried, wire_peer, wire_update, unmarshal_keys, unmarshal_peers, unmarshal_login,
  unmarshal_update, unmarshal_update_response,
}
use netproject.Control.Http.{
  Served, json_body, shuts_down, health_handler, Response, Ambient, responds, message,
  invalid_node_key, node_key_expired, error_logging_in, error_polling, failed_to_marshal,
  login_answer, login_handler, update_handler, poll_answer, update_answer, serve_mux, with_cors,
  cors_middleware, handle,
}
use netproject.Node.Client.{
  Client, ClientError, request_failed, status_failed, read_answer, login_request, update_request,
  client_login, decoded, client_health, health_request,
}

-- What the client sees of how a request is served.
unfoldable pub answer_of : Served → Option Response
answer_of (responds r) = some r
answer_of _ = none

zero_key-IsArray : IsArray zero_key.k
zero_key-IsArray = omega arith

-- The key that a client writes is the one that the server reads.
unmarshal_keys-marshal :
    (key : PublicKey) → IsArray key.k → unmarshal_keys (marshal_text key ∷ []) zero_key ≡ ok key
unfolding unmarshal_keys
unmarshal_keys-marshal key h =
    ground (arith, unmarshal_text-marshal_text key zero_key h zero_key-IsArray)

unmarshal_peers-wire :
    (ps : List Peer)
    → All (λ p. IsArray p.public_key.k) ps
    → unmarshal_peers (map wire_peer ps) ≡ ok ps
unfolding unmarshal_peers wire_peer
unmarshal_peers-wire [] h = refl
unmarshal_peers-wire (p ∷ ps) h =
    ground (arith, unmarshal_keys-marshal p.public_key h.0, unmarshal_peers-wire ps h.1)

module _ ⦃text : NetText⦄ ⦃json : Json⦄ where
  unmarshal_login-encode :
      (key : PublicKey)
      → IsArray key.k
      → unmarshal_login (json.encode_login (record { node_key = key }))
        ≡ ok (record { node_key = key })
  unfolding unmarshal_login
  unmarshal_login-encode key h =
      ground
        (arith, json.decode_login-encode (record { node_key = key }), unmarshal_keys-marshal key h)

  -- What `Client.Login` gives for each outcome of `LoginNode`.
  unfoldable pub told_login : Outcome ServiceError LoginResponse → Outcome ClientError LoginResponse
  told_login (ok r) = elim (json.encode_login_response r) [
    | none ↦ err (status_failed 500 (message failed_to_marshal))
    | some _ ↦ ok r
  ]
  told_login (err err_invalid_node_key) = err (status_failed 400 (message invalid_node_key))
  told_login (err _) = err (status_failed 500 (message error_logging_in))
  told_login panic = err request_failed

  handle-login_request :
      (w : Ambient) (c : Client) (s : Service)
      → IsArray c.node_key.k
      → let result = login_node w.env (record { node_key = c.node_key }) s in
        handle w (login_request c) s ≡ (result.0, with_cors (login_answer result.1))
  unfolding handle cors_middleware serve_mux login_handler login_request
  handle-login_request w c s h = ground (arith, unmarshal_login-encode c.node_key h)

  told_login_lem :
      (result : Outcome ServiceError LoginResponse)
      → read_answer
          (λ bytes. decoded (json.decode_login_response bytes))
          (answer_of (with_cors (login_answer result)))
        ≡ told_login result
  unfolding told_login answer_of with_cors login_answer read_answer
  told_login_lem (ok r) = elim (Option-cases (json.encode_login_response r)) [
    | inl e ↦ ground (arith, e)
    | inr (body, e) ↦ ground (arith, e, json.decode_login_response-encode r body e)
  ]
  told_login_lem (err e) = ground arith
  told_login_lem panic = refl

  -- A login over HTTP does to the service what `LoginNode` does, and tells the client what it
  -- gave: the response, or the status of its error.
  pub client_login_lem :
      (w : Ambient) (c : Client) (s : Service)
      → IsArray c.node_key.k
      → let req : LoginRequest = record { node_key = c.node_key } in
        ((handle w (login_request c) s).0 ≡ (login_node w.env req s).0)
        × (client_login (λ r. answer_of (handle w r s).1) c ≡ told_login (login_node w.env req s).1)
  unfolding client_login
  client_login_lem w c s h =
      let result = login_node w.env (record { node_key = c.node_key }) s in
      rw (handle-login_request w c s h) (refl, told_login_lem result.1)

  unmarshal_update-encode :
      (key : PublicKey) (full : Bool)
      → IsArray key.k
      → unmarshal_update (json.encode_update (record { node_key = key; full_update = full }))
        ≡ ok (record { node_key = key; full_update = full })
  unfolding unmarshal_update
  unmarshal_update-encode key full h = ground (
    arith,
    json.decode_update-encode (record { node_key = key; full_update = full }),
    unmarshal_keys-marshal key h,
  )

  pub handle-update_request :
      (w : Ambient) (full : Bool) (c : Client) (s : Service)
      → IsArray c.node_key.k
      → let req : UpdateRequest = record { node_key = c.node_key; full_update = full } in
        let result = update w.env.lookup w.list w.now req s in
        handle w (update_request full c) s ≡ (result.0, with_cors (poll_answer result.1))
  unfolding handle cors_middleware serve_mux update_handler update_request
  handle-update_request w full c s h = ground (arith, unmarshal_update-encode c.node_key full h)

  -- What `Client.Update` gives for each outcome of `Update`.
  unfoldable pub told_update :
      Outcome ServiceError UpdateResponse → Outcome ClientError UpdateResponse
  told_update (ok r) = ok r
  told_update (err err_invalid_node_key) = err (status_failed 400 (message invalid_node_key))
  told_update (err err_node_key_expired) = err (status_failed 401 (message node_key_expired))
  told_update (err _) = err (status_failed 500 (message error_polling))
  told_update panic = err request_failed

  unmarshal_update_response-encode :
      (r : UpdateResponse)
      → IsCarried r
      → unmarshal_update_response (json.encode_update_response r) ≡ ok r
  unfolding unmarshal_update_response wire_update
  unmarshal_update_response-encode r h =
      ground
        (arith, json.decode_update_response-encode r h.shown, unmarshal_peers-wire r.peers h.keys)

  pub told_update_lem :
      (result : Outcome ServiceError UpdateResponse)
      → ((r : UpdateResponse) → result ≡ ok r → IsCarried r)
      → read_answer unmarshal_update_response (answer_of (with_cors (update_answer result)))
        ≡ told_update result
  unfolding told_update answer_of with_cors update_answer read_answer
  told_update_lem (ok r) h = ground (arith, unmarshal_update_response-encode r (h r refl))
  told_update_lem (err e) h = ground arith
  told_update_lem panic h = refl

  -- A health check over HTTP tells the client what `Health` reports; where the database does not
  -- answer its ping, the server ends and the client has no answer.
  pub client_health_lem :
      (w : Ambient) (s : Service)
      → (handle w health_request s ≡ (
        s,
        elim (health w.ping) [
          | exits ↦ shuts_down
          | continues r ↦
              responds
                (record { status = 200; cors = true; body = json_body (json.encode_health r) })
        ],
      ))
        × (client_health (λ r. answer_of (handle w r s).1)
            ≡ (elim (health w.ping) [ exits ↦ err request_failed | continues r ↦ ok r ]))
  unfolding handle cors_middleware serve_mux with_cors health_handler health_request client_health
      read_answer answer_of
  client_health_lem w s = elim (Process-cases (health w.ping)) [
    | inl (r, e) ↦ (ground (arith, e), ground (arith, e, json.decode_health-encode r))
    | inr e ↦ (ground (arith, e), ground (arith, e))
  ]
