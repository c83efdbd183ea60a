-- ===== src/Relay/TestRelay.antt =====
-- testrelay/relayserver.go: a relay for two known keys. Its handler keeps the connections and
-- forwards packets with the same statements as the control server's, which are shared here.
use netproject.Shared.{ℕ, ◌≡◌, ◌≢◌, List, [], Bool, true, false, some, arith}
use netproject.Shared.{Outcome, ok, err, panic, ◌==◌, nat_eq, list_eq, list_beq_iff, if◌then◌else◌}
use netproject.Bytes.{Slice, peek_uint64}
use netproject.Netip.{NetText}
use netproject.Keys.{PublicKey, zero_key, key_eq, key_beq_iff, is_zero, decode_from_string}
use netproject.Control.Database.{Query}
use netproject.Control.Service.{Service, verify_node_for_relay}
use netproject.Relay.Server.{
  admit, admit_key, route, dropped, bad_destination, Relay, Read, Exit, Refusal, bad_request,
  no_websocket, enter, serve,
}

-- The two keys of `StartRelayTestServer`.
pub record TestKeys : Type 0 where
  pub key_1 : PublicKey
  pub key_2 : PublicKey

-- The id of a key; a key that is neither keeps Go's zero.
unfoldable pub node_id_of : TestKeys → PublicKey → ℕ
node_id_of keys key = if key == keys.key_2 then 2 else if key == keys.key_1 then 1 else 0

-- The handler up to the websocket.
unfoldable pub test_admit : TestKeys → List ℕ → Bool → Outcome Refusal ℕ
unfolding node_id_of
test_admit keys header accepts =
    if header == [] then err bad_request else elim (decode_from_string zero_key header) [
      | err _ ↦ err bad_request
      | panic ↦ panic
      | ok key ↦
          if is_zero key
          then err bad_request
          else if accepts
          then ok (node_id_of keys key)
          else err no_websocket
    ]

-- What a connection does in the end: its request is refused, or it is registered, and the packets
-- that its loop writes.
pub data Handled : Type 0 where
  refused : Outcome Refusal ℕ → Handled
  served : Relay → List (ℕ × Slice) × Exit → Handled

-- `relayHandler`, on the socket that `Accept` gives and what it reads, each with the relay then.
unfoldable pub test_relay_handler :
    TestKeys → List ℕ → Bool → ℕ → List (Relay × Read) → Relay → Handled
unfolding test_admit
test_relay_handler keys header accepts socket reads r = elim (test_admit keys header accepts) [
  | ok id ↦ served (enter id socket r).0 (serve id reads)
  | other ↦ refused other
]

-- A request whose key the control server verifies under the id that the test relay has for it is
-- admitted by both under that id, or refused by both in the same way.
pub test_admit_agrees :
    ⦃text : NetText⦄
    → (keys : TestKeys) (header : List ℕ) (query : Query) (now : ℕ) (accepts : Bool) (s : Service)
      (key : PublicKey)
    → decode_from_string zero_key header ≡ ok key
    → verify_node_for_relay query now key s ≡ ok (node_id_of keys key)
    → admit header query now accepts s ≡ test_admit keys header accepts
unfolding admit admit_key test_admit
test_admit_agrees keys header query now accepts s key d v = ground (arith, d, v)

-- The test relay admits every other key as node 0, which no packet can reach: the forwarding loop
-- drops what is sent to 0.
pub test_admit_unknown :
    (keys : TestKeys) (header : List ℕ) (key : PublicKey) (sender : ℕ) (packet : Slice) (r : Relay)
    → header ≢ []
    → decode_from_string zero_key header ≡ ok key
    → is_zero key ≡ false
    → key ≢ keys.key_1
    → key ≢ keys.key_2
    → peek_uint64 packet ≡ some 0
    → (test_admit keys header true ≡ ok 0) × (route sender true packet r ≡ dropped bad_destination)
unfolding test_admit node_id_of route
test_admit_unknown keys header key sender packet r nonempty d nz ne1 ne2 p = (
  ground (
    arith,
    d,
    nz,
    list_beq_iff header [],
    key_beq_iff key keys.key_1,
    key_beq_iff key keys.key_2,
  ),
  ground (arith, p),
)
