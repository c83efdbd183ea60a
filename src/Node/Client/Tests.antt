-- ===== src/Node/Client/Tests.antt =====
-- A new node against a small control server.
use netproject.Shared.{
  ℕ, ◌≡◌, ◌⊎◌, refl, List, [], ◌∷◌, true, false, none, some, arith, replicate, All, nat_eq, ok,
}
use netproject.Shared.{list_beq, err}
use netproject.Shared.Map
use netproject.Keys.Base64.{encode, encode_sextet, decode_string, decode_sextet}
use netproject.Netip.{NetText, is_valid}
use netproject.Control.Service.Login.{IsFirstLogin}
use netproject.Node.Lifecycle
use netproject.Node.Lifecycle.{new_node_of, update_routine, update_routine_round}
use netproject.Node.Lifecycle.Running.{run_calls}
use netproject.Node.Lifecycle.Tests.{start, start-Works}
use netproject.Node.Controller.Peers.{knows}
use netproject.Node.Client.Joining.{joining, node_joins}
use netproject.Control.Database.{
  answers, get_node, get_nodes, find_key, parse_row, parse_rows, node_not_found,
}
use netproject.Control.Wire.{Json}
use netproject.Netip.Sample.{sample_text}
use netproject.Keys.{
  IsArray, PublicKey, PrivateKey, new_private_key, clamp, clamp_last, is_zero, decode_from_string,
  encode_to_string,
}
use netproject.Control.Service.{
  Service, LoginRequest, UpdateRequest, UpdateResponse, answers_with, login_node, update, waits,
  update_signalled, update_looked_up, update_checked, node_key_expired, get_peers_of_node,
  peers_except,
}
use netproject.Control.Service.Polling.{IsAdmitted}
use netproject.Node.Client.Routine.{node_discovers, expired_routine_ends}
use netproject.Node.Client.Told.{reply, asks}
use netproject.Node.Mux.{Mux, new_mux}
use netproject.Node.Controller.{new_controller}
use netproject.Control.Service.Tests.{
  nonzero_a, a_is_found, key_b, key_a, env, empty, one, node_a, one_parses, polling,
}
use netproject.Control.Wire.Sample.{sample_json}
use netproject.Control.Http
use netproject.Control.Http.{Ambient, message, Served, handle, polls, handle_signalled}
use netproject.Control.Http.Tests.{ambient, stats}
use netproject.Node.Client.{
  status_failed, Client, login_request, update_request, client_login, client_update,
}
use netproject.Node.Client.Answers.{answer_of, told_login, told_update, client_login_lem}
use netproject.Node.Client.Updates.{client_update_lem}

instance abbrev net : NetText
net = sample_text

instance abbrev codec : Json
codec = sample_json

abbrev client : Client
client = record { node_key = key_a }

abbrev req : LoginRequest
req = record { node_key = key_a }

client_login_lem_example :
    ((handle ambient (login_request client) empty).0 ≡ (login_node env req empty).0)
    × (client_login (λ r. answer_of (handle ambient r empty).1) client
        ≡ told_login (login_node env req empty).1)
client_login_lem_example = client_login_lem ambient client empty (omega arith)

abbrev full_req : UpdateRequest
full_req = record { node_key = key_a; full_update = true }

abbrev peerless : UpdateResponse
peerless = record {
  config = some (record { id = 1; ip = 4 ∷ 1682309121 ∷ []; prefix = 16 ∷ 4 ∷ 1682309120 ∷ [] });
  peers = [];
  peer_count = 0;
}

answered : (update answers answers 200 full_req one).1 ≡ answers_with (ok peerless)
unfolding update update_looked_up update_checked get_node find_key list_beq parse_row is_zero
    decode_from_string decode_string decode_sextet encode_to_string encode encode_sextet
    node_key_expired get_peers_of_node get_nodes parse_rows peers_except
answered = refl

client_update_lem_example :
    ((handle ambient (update_request true client) one).0
      ≡ (update answers answers 200 full_req one).0)
    × (client_update (λ r. answer_of (handle ambient r one).1) true client
        ≡ told_update (ok peerless))
client_update_lem_example =
    client_update_lem ambient true client one (omega arith) (ok peerless) answered

abbrev poll_req : UpdateRequest
poll_req = record { node_key = key_a; full_update = false }

abbrev told_nothing : UpdateResponse
told_nothing = record { config = none; peers = []; peer_count = 0 }

waiting : (update answers answers 200 poll_req polling).1 ≡ waits 1
unfolding update update_looked_up update_checked get_node find_key list_beq parse_row is_zero
    decode_from_string decode_string decode_sextet encode_to_string encode encode_sextet
    node_key_expired get_peers_of_node get_nodes parse_rows peers_except
waiting = refl

signalled :
    update_signalled answers 1 polling
    ≡ some (record polling { notify_chans = (1, 4) ∷ [] }, ok told_nothing)
unfolding update_signalled update update_looked_up update_checked get_node find_key list_beq
    parse_row is_zero decode_from_string decode_string decode_sextet encode_to_string encode
    encode_sextet node_key_expired get_peers_of_node get_nodes parse_rows peers_except Map.get
    Map.put
signalled = refl

abbrev public_of : PrivateKey → PublicKey
public_of key = record { k = key.k }

abbrev random : List ℕ
random = replicate 32 7

abbrev new_req : LoginRequest
new_req = record { node_key = public_of (new_private_key random) }

new_nonzero : is_zero new_req.node_key ≡ false
unfolding is_zero list_beq new_private_key clamp clamp_last
new_nonzero = refl

new_is_missing : get_node answers new_req.node_key one.db ≡ err node_not_found
unfolding get_node find_key list_beq encode_to_string encode encode_sextet new_private_key clamp
    clamp_last
new_is_missing = refl

new_req-IsArray : IsArray new_req.node_key.k
unfolding new_private_key clamp clamp_last
new_req-IsArray = omega arith

new_first_login : IsFirstLogin env new_req one
unfolding is_valid
new_first_login = record {
  nonzero = new_nonzero;
  lookup_answers = refl;
  missing = new_is_missing;
  insert_runs = refl;
  stored = record { ip_valid = refl; prefix_valid = refl; key_array = new_req-IsArray };
}

node_joins_example :
    (n : Lifecycle.Node) × (run_calls
        (joining ambient ambient one 0 public_of random start)
        (new_node_of 0)
      ≡ some n)
    × (n.running ≡ true)
    × (n.config
        ≡ some (record { id = 2; ip = 4 ∷ 1682309122 ∷ []; prefix = 16 ∷ 4 ∷ 1682309120 ∷ [] }))
    × All (λ m. (m.id ≡ 2) ⊎ (knows m.id n.controller ≡ true)) (node_a ∷ [])
node_joins_example =
    node_joins ambient ambient one 0 public_of random start _ (node_a ∷ []) stats (omega arith)
      new_first_login refl refl refl (omega arith) refl one_parses start-Works

-- Another node waits under the id 7.
abbrev waited_for : Service
waited_for = record one { notify_chans = (7, 0) ∷ [] }

admitted : IsAdmitted poll_req waited_for node_a 200
unfolding node_key_expired
admitted = record { nonzero = nonzero_a; found = a_is_found; same_key = refl; current = refl }

-- The waiting node, which runs.
abbrev mux : Mux
mux = new_mux 7 0 none

abbrev waiting_node : Lifecycle.Node
waiting_node = record (new_node_of 0) {
  controller = record new_controller { up = true; mux = some mux };
}

node_discovers_example :
    ((handle ambient (update_request false client) waited_for).1 ≡ polls 1)
    × ((t : Service) × (told : Served) × (n : Lifecycle.Node) × (handle_signalled answers 7
            (handle ambient (update_request false client) waited_for).0
          ≡ some (t, told))
        × (update_routine_round
              (reply (client_update (λ _. answer_of told) false (record { node_key = key_b })))
              waiting_node
            ≡ some n)
        × All (λ k. (k.id ≡ 7) ⊎ (knows k.id n.controller ≡ true)) (node_a ∷ []))
unfolding Map.get new_controller new_node_of
node_discovers_example =
    node_discovers ambient (record { node_key = key_b }) client waited_for 7 0 node_a (node_a ∷ [])
      waiting_node mux (omega arith) admitted refl (λ e. absurd (omega arith)) refl refl one_parses
      refl refl

abbrev late : Ambient
late = record ambient { now = 9000000000000000 }

expired_routine_ends_example :
    (client_update (asks late one) false client
      ≡ err (status_failed 401 (message Http.node_key_expired)))
    × (update_routine
          (reply (client_update (asks late one) false client) ∷ some peerless ∷ [])
          waiting_node
        ≡ some waiting_node)
expired_routine_ends_example =
    expired_routine_ends late client one node_a (some peerless ∷ []) waiting_node (omega arith)
      nonzero_a refl a_is_found refl (omega arith)
