-- ===== src/Relay/Client.antt =====
-- node/relay.go: the client. The connection that `Dial` gives is a number; what the websocket
-- library answers is an argument. The read and write locks make each field access one step.
use netproject.Shared.{ℕ, List, ◌++◌, Bool, true, false, Option, none, some}
use netproject.Shared.{Outcome, ok, err, panic, nat_eq, ltb, if◌then◌else◌, length, drop}
use netproject.Bytes.{uint64_bytes, uint64_value}
use netproject.Keys.{PublicKey, encode_to_string}

pub record RelayClient : Type 0 where
  pub node_key : PublicKey
  pub conn : Option ℕ

pub data ClientError : Type 0 where
  not_connected dial_failed read_failed write_failed invalid_type too_short close_failed :
      ClientError

unfoldable pub new_relay_client : PublicKey → RelayClient
new_relay_client key = record { node_key = key; conn = none }

-- The `x-node-key` header of `Connect`.
unfoldable pub connect_header : RelayClient → List ℕ
connect_header c = encode_to_string c.node_key

-- `Connect`, by what `Dial` gives; a connection that the client already had is dropped.
unfoldable pub connect : Option ℕ → RelayClient → RelayClient × Outcome ClientError (Unit {0})
connect none c = (c, err dial_failed)
connect (some conn) c = (record c { conn = some conn }, ok tt)

-- `SendPacket`: the connection and the message that is written to it, where the write works.
unfoldable pub send_packet : Bool → ℕ → List ℕ → RelayClient → Outcome ClientError (ℕ × List ℕ)
send_packet writes dst payload c = elim c.conn [
  | none ↦ err not_connected
  | some conn ↦ if writes then ok (conn, uint64_bytes dst ++ payload) else err write_failed
]

-- What `conn.Read` gives: an error, or a message and whether it is binary.
pub data Received : Type 0 where
  failed : Received
  received : Bool → List ℕ → Received

unfoldable pub parse_packet : List ℕ → Outcome ClientError (ℕ × List ℕ)
parse_packet packet =
    if ltb (length packet) 8
    then err too_short
    else elim (uint64_value packet) [ none ↦ panic | some src ↦ ok (src, drop 8 packet) ]

unfoldable pub read_packet : Received → RelayClient → Outcome ClientError (ℕ × List ℕ)
unfolding parse_packet
read_packet r c = elim c.conn [
  | none ↦ err not_connected
  | some conn ↦ elim r [
    | failed ↦ err read_failed
    | received binary packet ↦ if binary then parse_packet packet else err invalid_type
  ]
]

-- `Close`: the connection is forgotten whether or not closing it works.
unfoldable pub close : Bool → RelayClient → RelayClient × Outcome ClientError (Unit {0})
close closes c = elim c.conn [
  | none ↦ (c, ok tt)
  | some conn ↦ (record c { conn = none }, if closes then ok tt else err close_failed)
]

unfoldable pub is_connected : RelayClient → Bool
is_connected c = elim c.conn [ none ↦ false | some _ ↦ true ]
