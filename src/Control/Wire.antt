-- ===== src/Control/Wire.antt =====
-- types/models.go on the wire: `encoding/json` for the requests and answers of the control server.
-- A key is a text in JSON, and goes through the key's `MarshalText` and `UnmarshalText`. The rest
-- of the package is an interface, `Json`; a codec gives the texts that a body holds for a key in
-- their order, none where the field is absent.
pub mod Sample
use netproject.Shared.{ℕ, ◌≡◌, List, [], ◌∷◌, Bool, Option, none, some, map, All}
use netproject.Shared.{Outcome, ok, err, panic, ◌>>=◌}
use netproject.Netip.{Addr, Prefix, NetText}
use netproject.Keys.{PublicKey, IsArray, zero_key, marshal_text, unmarshal_text}
use netproject.Keys.Base64.{CorruptInput}
use netproject.Control.Database.Connection.{HealthReport}
use netproject.Control.Service.{
  LoginRequest, LoginResponse, UpdateRequest, UpdateResponse, NodeConfig, Peer,
}

pub data JsonError : Type 0 where
  invalid_json : JsonError
  invalid_key : CorruptInput → JsonError

-- A peer and an update with the keys as texts.
pub record WirePeer : Type 0 where
  pub id : ℕ
  pub ip : List ℕ
  pub public_key : List (List ℕ)

pub record WireUpdate : Type 0 where
  pub config : Option NodeConfig
  pub peers : List WirePeer
  pub peer_count : ℕ

unfoldable pub wire_peer : Peer → WirePeer
wire_peer p = record { id = p.id; ip = p.ip; public_key = marshal_text p.public_key ∷ [] }

unfoldable pub wire_update : UpdateResponse → WireUpdate
wire_update r = record {
  config = r.config;
  peers = map wire_peer r.peers;
  peer_count = r.peer_count;
}

module _ ⦃text : NetText⦄ where
  open text use {addr_text, prefix_text}

  -- The texts of an update are those of addresses and of a prefix.
  pub record ShowsAddresses (r : UpdateResponse) : Type 0 where
    pub config_shown :
        (c : NodeConfig)
        → r.config ≡ some c
        → (a : Addr) × (p : Prefix) × (c.ip ≡ addr_text a) × (c.prefix ≡ prefix_text p)
    pub peers_shown : All (λ p. (a : Addr) × (p.ip ≡ addr_text a)) r.peers

  -- An update that JSON carries unchanged.
  pub record IsCarried (r : UpdateResponse) : Type 0 where
    pub shown : ShowsAddresses r
    pub keys : All (λ p. IsArray p.public_key.k) r.peers

  -- `json.Marshal` and `json.Unmarshal`. What was written is read back; a time is written unless
  -- its year has more than four digits.
  pub record Json : Type 0 where
    pub encode_login : LoginRequest → List ℕ
    pub decode_login : List ℕ → Option (List (List ℕ))
    pub decode_login-encode :
        (r : LoginRequest) → decode_login (encode_login r) ≡ some (marshal_text r.node_key ∷ [])
    pub encode_update : UpdateRequest → List ℕ
    pub decode_update : List ℕ → Option (List (List ℕ) × Bool)
    pub decode_update-encode :
        (r : UpdateRequest)
        → decode_update (encode_update r) ≡ some (marshal_text r.node_key ∷ [], r.full_update)
    pub encode_login_response : LoginResponse → Option (List ℕ)
    pub decode_login_response : List ℕ → Option LoginResponse
    pub decode_login_response-encode :
        (r : LoginResponse) (body : List ℕ)
        → encode_login_response r ≡ some body
        → decode_login_response body ≡ some r
    pub encode_update_response : UpdateResponse → List ℕ
    pub decode_update_response : List ℕ → Option WireUpdate
    pub decode_update_response-encode :
        (r : UpdateResponse)
        → ShowsAddresses r
        → decode_update_response (encode_update_response r) ≡ some (wire_update r)
    pub encode_health : HealthReport → List ℕ
    pub decode_health : List ℕ → Option HealthReport
    pub decode_health-encode : (r : HealthReport) → decode_health (encode_health r) ≡ some r

-- The texts of one field, one after the other, into the field's key.
unfoldable pub unmarshal_keys : List (List ℕ) → PublicKey → Outcome JsonError PublicKey
unmarshal_keys [] key = ok key
unmarshal_keys (t ∷ ts) key = elim (unmarshal_text key t) [
  | ok key' ↦ unmarshal_keys ts key'
  | err e ↦ err (invalid_key e)
  | panic ↦ panic
]

unfoldable pub unmarshal_peers : List WirePeer → Outcome JsonError (List Peer)
unmarshal_peers [] = ok []
unmarshal_peers (p ∷ ps) = do
  key ← unmarshal_keys p.public_key zero_key
  peers ← unmarshal_peers ps
  ok (record { id = p.id; ip = p.ip; public_key = key } ∷ peers)

module _ ⦃text : NetText⦄ ⦃json : Json⦄ where
  open json use {decode_login, decode_update, decode_update_response}

  -- `json.Unmarshal` into a new `LoginRequest`.
  unfoldable pub unmarshal_login : List ℕ → Outcome JsonError LoginRequest
  unmarshal_login body = elim (decode_login body) [
    | none ↦ err invalid_json
    | some texts ↦ do key ← unmarshal_keys texts zero_key; ok (record { node_key = key })
  ]

  unfoldable pub unmarshal_update : List ℕ → Outcome JsonError UpdateRequest
  unmarshal_update body = elim (decode_update body) [
    | none ↦ err invalid_json
    | some (texts, full) ↦ do
      key ← unmarshal_keys texts zero_key
      ok (record { node_key = key; full_update = full })
  ]

  unfoldable pub unmarshal_update_response : List ℕ → Outcome JsonError UpdateResponse
  unmarshal_update_response body = elim (decode_update_response body) [
    | none ↦ err invalid_json
    | some wire ↦ do
      peers ← unmarshal_peers wire.peers
      ok (record { config = wire.config; peers = peers; peer_count = wire.peer_count })
  ]
