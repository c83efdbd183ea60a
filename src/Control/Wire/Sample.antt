-- ===== src/Control/Wire/Sample.antt =====
-- A concrete codec, by which the hypotheses on `encoding/json` are met in tests: a body is a list
-- of lists, each with its numbers raised by one and a zero at its end.
use netproject.Shared.{
  ℕ, zero, suc, ◌≡◌, refl, ap, List, [], ◌∷◌, Bool, true, false, Option, none, some, arith, map,
  nat_eq,
}
use netproject.Netip.{NetText}
use netproject.Keys.{marshal_text}
use netproject.Control.Database.Connection.{
  HealthMessage, healthy, heavy_load, many_waits, idle_closed, lifetime_closed, HealthReport,
}
use netproject.Control.Service.{LoginResponse, UpdateResponse, NodeConfig, Peer}
use netproject.Control.Wire.{Json, WirePeer, WireUpdate, wire_peer, wire_update}

abbrev raised : List ℕ → List ℕ → List ℕ
raised [] rest = 0 ∷ rest
raised (n ∷ ns) rest = suc n ∷ raised ns rest

abbrev joined : List (List ℕ) → List ℕ
joined [] = []
joined (x ∷ xs) = raised x (joined xs)

abbrev push : ℕ → List (List ℕ) → List (List ℕ)
push n [] = []
push n (x ∷ xs) = (n ∷ x) ∷ xs

abbrev split : List ℕ → List (List ℕ)
split [] = []
split (zero ∷ rest) = [] ∷ split rest
split (suc n ∷ rest) = push n (split rest)

split-raised : (x rest : List ℕ) → split (raised x rest) ≡ x ∷ split rest
split-raised [] rest = refl
split-raised (n ∷ ns) rest = rw (split-raised ns rest) refl

split-joined : (xs : List (List ℕ)) → split (joined xs) ≡ xs
split-joined [] = refl
split-joined (x ∷ xs) = rw (split-raised x (joined xs), split-joined xs) refl

abbrev of_bool : Bool → ℕ
of_bool true = 1
of_bool false = 0

abbrev to_bool : ℕ → Bool
to_bool zero = false
to_bool (suc n) = true

pub to_bool-of_bool : (b : Bool) → to_bool (of_bool b) ≡ b
to_bool-of_bool true = refl
to_bool-of_bool false = refl

abbrev of_message : HealthMessage → ℕ
of_message healthy = 0
of_message heavy_load = 1
of_message many_waits = 2
of_message idle_closed = 3
of_message lifetime_closed = 4

abbrev to_message : ℕ → HealthMessage
to_message zero = healthy
to_message (suc zero) = heavy_load
to_message (suc (suc zero)) = many_waits
to_message (suc (suc (suc zero))) = idle_closed
to_message _ = lifetime_closed

pub to_message-of : (m : HealthMessage) → to_message (of_message m) ≡ m
to_message-of healthy = refl
to_message-of heavy_load = refl
to_message-of many_waits = refl
to_message-of idle_closed = refl
to_message-of lifetime_closed = refl

abbrev peers_lists : List Peer → List (List ℕ)
peers_lists [] = []
peers_lists (p ∷ ps) = (p.id ∷ []) ∷ p.ip ∷ marshal_text p.public_key ∷ peers_lists ps

abbrev config_lists : Option NodeConfig → List (List ℕ) → List (List ℕ)
config_lists none rest = rest
config_lists (some c) rest = (c.id ∷ []) ∷ c.ip ∷ c.prefix ∷ rest

abbrev has_config : Option NodeConfig → Bool
has_config none = false
has_config (some c) = true

abbrev read_peers : List (List ℕ) → List WirePeer
read_peers ((id ∷ []) ∷ ip ∷ key ∷ rest) =
    record { id = id; ip = ip; public_key = key ∷ [] } ∷ read_peers rest
read_peers _ = []

read_peers-lists : (ps : List Peer) → read_peers (peers_lists ps) ≡ map wire_peer ps
unfolding wire_peer
read_peers-lists [] = refl
read_peers-lists (p ∷ ps) = ap (◌∷◌ (wire_peer p)) (read_peers-lists ps)

abbrev read_update : List (List ℕ) → Option WireUpdate
read_update ((count ∷ zero ∷ []) ∷ rest) =
    some (record { config = none; peers = read_peers rest; peer_count = count })
read_update ((count ∷ suc n ∷ []) ∷ (id ∷ []) ∷ ip ∷ prefix ∷ rest) = some (record {
  config = some (record { id = id; ip = ip; prefix = prefix });
  peers = read_peers rest;
  peer_count = count;
})
read_update _ = none

abbrev sample_encode_update : UpdateResponse → List ℕ
sample_encode_update r = joined (
    (r.peer_count ∷ of_bool (has_config r.config) ∷ [])
    ∷ config_lists r.config (peers_lists r.peers))

read_update-lists :
    (config : Option NodeConfig) (ps : List Peer) (n : ℕ)
    → read_update ((n ∷ of_bool (has_config config) ∷ []) ∷ config_lists config (peers_lists ps))
      ≡ some (wire_update (record { config = config; peers = ps; peer_count = n }))
unfolding wire_update
read_update-lists none ps n = rw (read_peers-lists ps) refl
read_update-lists (some c) ps n = rw (read_peers-lists ps) refl

pub read_update-encode :
    (r : UpdateResponse) → read_update (split (sample_encode_update r)) ≡ some (wire_update r)
read_update-encode r =
    let lists : List (List ℕ) =
      (r.peer_count ∷ of_bool (has_config r.config) ∷ [])
      ∷ config_lists r.config (peers_lists r.peers) in
    rw (split-joined lists) (read_update-lists r.config r.peers r.peer_count)

abbrev read_login_update : List ℕ → Option (List (List ℕ) × Bool)
read_login_update [] = none
read_login_update (b ∷ key) = some (key ∷ [], to_bool b)

abbrev read_login_response : List ℕ → Option LoginResponse
read_login_response (b ∷ expiry ∷ []) = some (record { logged_in = to_bool b; key_expiry = expiry })
read_login_response _ = none

pub read_login_response-encode :
    (r : LoginResponse) (body : List ℕ)
    → some (of_bool r.logged_in ∷ r.key_expiry ∷ []) ≡ some body
    → read_login_response body ≡ some r
read_login_response-encode r body e = ground (arith, e, to_bool-of_bool r.logged_in)

abbrev read_health : List ℕ → Option HealthReport
read_health (m ∷ a ∷ b ∷ c ∷ d ∷ e ∷ f ∷ g ∷ []) = some (record {
  message = to_message m;
  stats = record {
    open_connections = a;
    in_use = b;
    idle = c;
    wait_count = d;
    wait_duration = e;
    max_idle_closed = f;
    max_lifetime_closed = g;
  };
})
read_health _ = none

module _ ⦃text : NetText⦄ where
  abbrev pub sample_json : Json
  sample_json = record {
    encode_login = λ r. marshal_text r.node_key;
    decode_login = λ body. some (body ∷ []);
    decode_login-encode = λ r. refl;
    encode_update = λ r. of_bool r.full_update ∷ marshal_text r.node_key;
    decode_update = read_login_update;
    decode_update-encode = λ r. rw (to_bool-of_bool r.full_update) refl;
    encode_login_response = λ r. some (of_bool r.logged_in ∷ r.key_expiry ∷ []);
    decode_login_response = read_login_response;
    decode_login_response-encode = read_login_response-encode;
    encode_update_response = sample_encode_update;
    decode_update_response = λ body. read_update (split body);
    decode_update_response-encode = λ r h. read_update-encode r;
    encode_health = λ r.
        of_message r.message
        ∷ r.stats.open_connections
        ∷ r.stats.in_use
        ∷ r.stats.idle
        ∷ r.stats.wait_count
        ∷ r.stats.wait_duration
        ∷ r.stats.max_idle_closed
        ∷ r.stats.max_lifetime_closed
        ∷ [];
    decode_health = read_health;
    decode_health-encode = λ r. rw (to_message-of r.message) refl;
  }
