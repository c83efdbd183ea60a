-- ===== src/Node/Client.antt =====
-- node/client.go: the node's requests to the control server, and what it makes of the answers. An
-- answer is `none` where `http.Client` gives an error, its time-out included. The base URL is the
-- server's and has no part in the model.
pub mod Answers
pub mod Updates
pub mod Told
pub mod Waking
pub mod Routine
pub mod Joining
pub mod Tests
use netproject.Shared.{
  ℕ, List, [], ◌∷◌, Bool, true, false, not, Option, none, some, Outcome, ok, err, panic,
}
use netproject.Shared.{◌==◌, nat_eq, if◌then◌else◌}
use netproject.Netip.{NetText}
use netproject.Keys.{PublicKey}
use netproject.Control.Database.Connection.{HealthReport}
use netproject.Control.Service.{LoginResponse, UpdateResponse}
use netproject.Control.Wire.{Json, JsonError, invalid_json, unmarshal_update_response}
use netproject.Control.Http.{
  Request, Response, Body, json_body, login_path, update_path, health_path, method_get, method_post,
}

pub record Client : Type 0 where
  pub node_key : PublicKey

unfoldable pub new_client : PublicKey → Client
new_client key = record { node_key = key }

pub data ClientError : Type 0 where
  request_failed : ClientError
  status_failed : ℕ → Body → ClientError
  decode_failed : JsonError → ClientError

-- The three methods' checks of an answer, then their decoder on its body; what is not JSON is a
-- message or empty.
unfoldable pub read_answer {ℓ} :
    {A : Type ℓ} → (List ℕ → Outcome JsonError A) → Option Response → Outcome ClientError A
read_answer decode none = err request_failed
read_answer decode (some r) =
    if not (r.status == 200) then err (status_failed r.status r.body) else elim r.body [
      | json_body bytes ↦ elim (decode bytes) [
        | ok a ↦ ok a
        | err e ↦ err (decode_failed e)
        | panic ↦ panic
      ]
      | _ ↦ err (decode_failed invalid_json)
    ]

module _ ⦃text : NetText⦄ ⦃json : Json⦄ where
  open json use {
    encode_login, encode_update, decode_login_response, decode_update_response, decode_health,
  }

  unfoldable pub login_request : Client → Request
  login_request c = record {
    method = method_post;
    path = login_path;
    node_key_header = [];
    body = some (encode_login (record { node_key = c.node_key }));
  }

  unfoldable pub update_request : Bool → Client → Request
  update_request full c = record {
    method = method_post;
    path = update_path;
    node_key_header = [];
    body = some (encode_update (record { node_key = c.node_key; full_update = full }));
  }

  unfoldable pub health_request : Request
  health_request = record {
    method = method_get;
    path = health_path;
    node_key_header = [];
    body = some [];
  }

  -- A decoder without a key in its type only fails or gives its value.
  abbrev pub decoded {ℓ} : {A : Type ℓ} → Option A → Outcome JsonError A
  decoded none = err invalid_json
  decoded (some a) = ok a

  -- `Client.Login`, `Client.Update` and `Client.Health`, on the server's answer to their request.
  unfoldable pub client_login :
      (Request → Option Response) → Client → Outcome ClientError LoginResponse
  unfolding read_answer login_request
  client_login ask c =
      read_answer (λ bytes. decoded (decode_login_response bytes)) (ask (login_request c))

  unfoldable pub client_update :
      (Request → Option Response) → Bool → Client → Outcome ClientError UpdateResponse
  unfolding read_answer update_request
  client_update ask full c = read_answer unmarshal_update_response (ask (update_request full c))

  unfoldable pub client_health : (Request → Option Response) → Outcome ClientError HealthReport
  unfolding read_answer health_request
  client_health ask = read_answer (λ bytes. decoded (decode_health bytes)) (ask health_request)
