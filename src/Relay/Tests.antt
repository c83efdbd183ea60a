-- ===== src/Relay/Tests.antt =====
-- Runs of the relay.
use netproject.Shared.{
  ℕ, ◌≡◌, refl, List, [], ◌∷◌, true, some, arith, ok, replicate, contains, nat_eq,
}
use netproject.Shared.Map
use netproject.Shared.Map.{Map}
use netproject.Bytes.{Slice, uint64_bytes, uint64_value, peek_uint64, poke_uint64}
use netproject.Netip.{ip4, is_valid}
use netproject.Netip.Sample.{sample_text}
use netproject.Keys.{is_zero}
use netproject.Shared.{list_beq}
use netproject.Control.Database.{answers, runs, new_table, get_node, find_key}
use netproject.Control.Service.{Service, Env, login_node}
use netproject.Control.Service.Login.{IsFirstLogin}
use netproject.Relay.Server.{Relay, forwarded, crashed, admit, enter, resolve, route}
use netproject.Relay.Server.Sessions.{
  System, Step, connects, sends, Reach, here, more, IsSecure, Reach-IsSecure,
}
use netproject.Relay.Client.{RelayClient, received, connect_header, send_packet, read_packet}
use netproject.Relay.EndToEnd.{relayed, admit-login}

abbrev client : RelayClient
client = record { node_key = record { k = replicate 32 7 }; conn = some 40 }

-- Node 2 is connected on socket 12.
abbrev relay : Relay
relay = record { conns = (2, 12) ∷ []; alive = 12 ∷ [] }

resolves : resolve relay 2 ≡ some 12
unfolding resolve Map.get contains
resolves = refl

relayed_example :
    (message : List ℕ) × (out : Slice) × (send_packet true 2 (5 ∷ []) client ≡ ok (40, message))
    × (route 1 true (record { bytes = message; spare = [] }) relay ≡ forwarded 12 out)
    × (read_packet (received true out.bytes) client ≡ ok (1, 5 ∷ []))
relayed_example =
    relayed 1 2 40 40 12 (5 ∷ []) [] client client relay (omega arith) (omega arith)
      (λ e. omega arith) (λ e. omega arith) refl refl resolves

-- A message of three bytes in an array of eight is read with the zeros behind it.
short_message :
    route 1 true (record { bytes = 0 ∷ 0 ∷ 0 ∷ []; spare = 0 ∷ 0 ∷ 0 ∷ 0 ∷ 2 ∷ [] }) relay
    ≡ forwarded 12 (record { bytes = 0 ∷ 0 ∷ 0 ∷ []; spare = 0 ∷ 0 ∷ 0 ∷ 0 ∷ 1 ∷ [] })
unfolding route resolve Map.get contains peek_uint64 poke_uint64 uint64_value uint64_bytes
short_message = refl

cramped_message : route 1 true (record { bytes = 0 ∷ []; spare = [] }) relay ≡ crashed
unfolding route peek_uint64 uint64_value
cramped_message = refl

abbrev packet : Slice
packet = record { bytes = 0 ∷ 0 ∷ 0 ∷ 0 ∷ 0 ∷ 0 ∷ 0 ∷ 2 ∷ 9 ∷ []; spare = [] }

abbrev start : System
start = record { relay = record { conns = []; alive = [] }; sessions = []; log = [] }

start-IsSecure : IsSecure start
unfolding Map.get
start-IsSecure = record { routes = λ id socket e. cc; authentic = tt }

abbrev joined : System
joined = record {
  relay = (enter 1 11 (enter 2 12 start.relay).0).0;
  sessions = Map.put 11 1 (Map.put 12 2 []);
  log = [];
}

joins : Reach start joined
unfolding Map.get Map.put
joins = more (more here (connects 2 12 refl)) (connects 1 11 refl)

one_sends : Step joined (record joined {
  log =
      record { origin = 11; sender = 1; packet = packet; socket = 12; out = poke_uint64 1 packet }
      ∷ [];
})
unfolding Map.get Map.put enter route resolve peek_uint64 uint64_value contains
one_sends = sends 11 1 12 true packet (poke_uint64 1 packet) refl refl

Reach-IsSecure_example : IsSecure (record joined {
  log =
      record { origin = 11; sender = 1; packet = packet; socket = 12; out = poke_uint64 1 packet }
      ∷ [];
})
Reach-IsSecure_example = Reach-IsSecure start-IsSecure (more joins one_sends)

abbrev env : Env
env = record { lookup = answers; insert = runs; login_time = 100; insert_time = 101 }

abbrev service : Service
service = record {
  db = new_table;
  prefix = record { addr = ip4 8; bits = 24 };
  next_ip = ip4 9;
  notify_chans = [];
}

first_login : IsFirstLogin ⦃text = sample_text⦄ env (record { node_key = client.node_key }) service
unfolding is_valid is_zero list_beq get_node find_key new_table
first_login = record {
  nonzero = refl;
  lookup_answers = refl;
  missing = refl;
  insert_runs = refl;
  stored = record { ip_valid = refl; prefix_valid = refl; key_array = omega arith };
}

admit-login_example :
    admit ⦃text = sample_text⦄
      (connect_header client)
      answers
      200
      true
      (login_node ⦃text = sample_text⦄ env (record { node_key = client.node_key }) service).0
    ≡ ok 1
unfolding new_table
admit-login_example =
    admit-login ⦃text = sample_text⦄ client (omega arith) env service 200 first_login
