-- ===== src/Control/Http.antt =====
-- control/server/routes.go: the routes, the CORS middleware and the handlers. What a request meets
-- outside of the service (the driver, the clock, the upgrade to a websocket) is an argument.
pub mod Routes
pub mod Requests
pub mod Tests
use netproject.Shared.{
  ℕ, zero, suc, List, [], ◌∷◌, Bool, true, false, Option, none, some, Outcome, ok, err, panic,
  Process, continues, exits,
}
use netproject.Netip.{NetText}
use netproject.Control.Database.{Query}
use netproject.Control.Database.Connection.{DbStats, HealthReport, health}
use netproject.Control.Service.{
  Service, ServiceError, Env, LoginResponse, UpdateResponse, Poll, answers_with, waits,
  err_invalid_node_key, err_node_key_expired, login_node, update, update_signalled,
  update_timed_out,
}
use netproject.Control.Wire.{Json, JsonError, unmarshal_login, unmarshal_update}
use netproject.Relay.Server.{Refusal, bad_request, unauthorized, no_websocket, admit}

pub data Method : Type 0 where
  method_get method_head method_post method_options method_other : Method

-- The paths that `RegisterRoutes` names, and all others.
pub data Route : Type 0 where
  login_path update_path health_path relay_path other_path : Route

-- A body is `none` where reading it fails; `node_key_header` is the header `x-node-key`.
pub record Request : Type 0 where
  pub method : Method
  pub path : Route
  pub node_key_header : List ℕ
  pub body : Option (List ℕ)

pub data Message : Type 0 where
  not_found error_reading_body error_decoding_json invalid_node_key node_key_expired : Message
  error_logging_in error_polling failed_to_marshal : Message
  service_error : ServiceError → Message

-- `from_websocket` is what `websocket.Accept` writes where it refuses.
pub data Body : Type 0 where
  no_body from_websocket : Body
  message : Message → Body
  json_body : List ℕ → Body

pub record Response : Type 0 where
  pub status : ℕ
  pub cors : Bool
  pub body : Body

-- How a handler goes on: it answers; it waits on a node's channel; it panics, which `net/http`
-- recovers from by closing the connection; it ends the program; or it admits a node's websocket.
pub data Served : Type 0 where
  responds : Response → Served
  polls : ℕ → Served
  aborts shuts_down : Served
  upgrades : ℕ → Served

-- What one request meets. `refuses_upgrade` is the status with which `websocket.Accept` refuses.
pub record Ambient : Type 0 where
  pub env : Env
  pub list : Query
  pub now : ℕ
  pub refuses_upgrade : Option ℕ
  pub ping : Option DbStats

-- `http.Error`.
abbrev pub http_error : ℕ → Message → Served
http_error status m = responds (record { status = status; cors = false; body = message m })

abbrev pub json_response : List ℕ → Served
json_response bytes = responds (record { status = 200; cors = false; body = json_body bytes })

-- The headers that the middleware sets before the handler runs.
unfoldable pub with_cors : Served → Served
with_cors (responds r) = responds (record r { cors = true })
with_cors served = served

unfoldable pub cors_middleware :
    (Request → Service → Service × Served) → Request → Service → Service × Served
unfolding with_cors
cors_middleware next r s = elim r.method [
  | method_options ↦ (s, responds (record { status = 204; cors = true; body = no_body }))
  | _ ↦ let (s', served) = next r s in (s', with_cors served)
]

module _ ⦃text : NetText⦄ ⦃json : Json⦄ where
  open json use {encode_login_response, encode_update_response, encode_health}

  -- `loginHandler` on what `LoginNode` gave.
  unfoldable pub login_answer : Outcome ServiceError LoginResponse → Served
  login_answer (ok r) = elim (encode_login_response r) [
    | none ↦ http_error 500 failed_to_marshal
    | some bytes ↦ json_response bytes
  ]
  login_answer (err err_invalid_node_key) = http_error 400 invalid_node_key
  login_answer (err _) = http_error 500 error_logging_in
  login_answer panic = aborts

  unfoldable pub login_handler : Env → Option (List ℕ) → Service → Service × Served
  unfolding login_answer
  login_handler env none s = (s, http_error 400 error_reading_body)
  login_handler env (some body) s = elim (unmarshal_login body) [
    | err _ ↦ (s, http_error 400 error_decoding_json)
    | panic ↦ (s, aborts)
    | ok req ↦ let (s', result) = login_node env req s in (s', login_answer result)
  ]

  -- `updateHandler` on what `Update` gave.
  unfoldable pub update_answer : Outcome ServiceError UpdateResponse → Served
  update_answer (ok r) = json_response (encode_update_response r)
  update_answer (err err_invalid_node_key) = http_error 400 invalid_node_key
  update_answer (err err_node_key_expired) = http_error 401 node_key_expired
  update_answer (err _) = http_error 500 error_polling
  update_answer panic = aborts

  unfoldable pub poll_answer : Poll → Served
  unfolding update_answer
  poll_answer (answers_with result) = update_answer result
  poll_answer (waits id) = polls id

  unfoldable pub update_handler : Query → Query → ℕ → Option (List ℕ) → Service → Service × Served
  unfolding poll_answer
  update_handler lookup list now none s = (s, http_error 400 error_reading_body)
  update_handler lookup list now (some body) s = elim (unmarshal_update body) [
    | err _ ↦ (s, http_error 400 error_decoding_json)
    | panic ↦ (s, aborts)
    | ok req ↦ let (s', poll) = update lookup list now req s in (s', poll_answer poll)
  ]

  -- `updateHandler` after its wait: by a signal, which the channel must hold, or by the timer.
  unfoldable pub update_handler_signalled : Query → ℕ → Service → Option (Service × Served)
  unfolding update_answer
  update_handler_signalled list id s = elim (update_signalled list id s) [
    | none ↦ none
    | some (s', result) ↦ some (s', update_answer result)
  ]

  unfoldable pub update_handler_timed_out : Service → Service × Served
  unfolding update_answer
  update_handler_timed_out s = let (s', result) = update_timed_out s in (s', update_answer result)

  unfoldable pub health_handler : Option DbStats → Served
  health_handler ping = elim (health ping) [
    | exits ↦ shuts_down
    | continues report ↦ json_response (encode_health report)
  ]

  -- `relayHandler` up to its loop. Where the upgrade fails the library has already answered; the
  -- handler's own answer, with status 500, comes too late.
  unfoldable pub relay_refusal : Option ℕ → Refusal → Served
  relay_refusal refused bad_request = http_error 400 invalid_node_key
  relay_refusal refused (unauthorized e) = http_error 401 (service_error e)
  relay_refusal none no_websocket = aborts
  relay_refusal (some status) no_websocket =
      responds (record { status = status; cors = false; body = from_websocket })

  unfoldable pub relay_handler : Ambient → List ℕ → Service → Served
  unfolding relay_refusal
  relay_handler w header s =
      let accepts : Bool = elim w.refuses_upgrade [ none ↦ true | some _ ↦ false ] in
      elim (admit header w.env.lookup w.now accepts s) [
        | ok id ↦ upgrades id
        | err refusal ↦ relay_refusal w.refuses_upgrade refusal
        | panic ↦ aborts
      ]

  -- The handler that `RegisterRoutes` gives a method and a path; a pattern with GET takes HEAD too.
  unfoldable pub serve_mux : Ambient → Request → Service → Service × Served
  serve_mux w r s = elim r.path [
    | login_path ↦ elim r.method [
      | method_post ↦ login_handler w.env r.body s
      | _ ↦ (s, http_error 404 not_found)
    ]
    | update_path ↦ elim r.method [
      | method_post ↦ update_handler w.env.lookup w.list w.now r.body s
      | _ ↦ (s, http_error 404 not_found)
    ]
    | health_path ↦ elim r.method [
      | method_get ↦ (s, health_handler w.ping)
      | method_head ↦ (s, health_handler w.ping)
      | _ ↦ (s, http_error 404 not_found)
    ]
    | relay_path ↦ (s, relay_handler w r.node_key_header s)
    | other_path ↦ (s, http_error 404 not_found)
  ]

  -- `NewServer`'s handler.
  unfoldable pub handle : Ambient → Request → Service → Service × Served
  unfolding cors_middleware serve_mux
  handle w = cors_middleware (serve_mux w)

  -- A request that waited, after its wait; the middleware's headers were set before it.
  unfoldable pub handle_signalled : Query → ℕ → Service → Option (Service × Served)
  unfolding update_handler_signalled with_cors
  handle_signalled list id s = elim (update_handler_signalled list id s) [
    | none ↦ none
    | some (s', served) ↦ some (s', with_cors served)
  ]

  unfoldable pub handle_timed_out : Service → Service × Served
  unfolding update_handler_timed_out with_cors
  handle_timed_out s = let (s', served) = update_handler_timed_out s in (s', with_cors served)
