-- ===== src/Relay/EndToEnd.antt =====
-- The relay's client and server together: node/relay.go against control/server/routes.go.
use netproject.Shared.{ℕ, ◌+◌, ◌≡◌, ◌≢◌, refl, List, [], ◌∷◌, Bool, true, false, some, arith}
use netproject.Shared.{
  ok, err, ◌==◌, nat_eq, ltb, if◌then◌else◌, length, length-append, list_eq, list_beq,
}
use netproject.Bytes.{Slice, IsUint64, uint64_bytes, poke_uint64}
use netproject.Bytes.Laws.{uint64_value-bytes, length-uint64_bytes, drop-uint64_bytes}
use netproject.Netip.{NetText}
use netproject.Keys.{PublicKey, IsArray, encode_to_string, zero_key}
use netproject.Keys.Base64.{encode}
use netproject.Keys.Laws.{decode_from_string-encode_to_string}
use netproject.Control.Database.{Query, answers}
use netproject.Control.Service.{Service, Env, login_node, node_key_valid_for, err_node_key_expired}
use netproject.Control.Service.Login.{IsFirstLogin, verify-login}
use netproject.Relay.Server.{Relay, unauthorized, forwarded, admit, admit_key, resolve, route}
use netproject.Relay.Server.Routing.{frame, poke-frame, peek-frame}
use netproject.Relay.Client.{
  RelayClient, received, connect_header, send_packet, parse_packet, read_packet,
}

parse_packet-frame :
    (src : ℕ) (payload : List ℕ)
    → IsUint64 src
    → parse_packet (frame src payload) ≡ ok (src, payload)
unfolding parse_packet
parse_packet-frame src payload h = ground (
  arith,
  length-append (uint64_bytes src) payload,
  length-uint64_bytes src,
  uint64_value-bytes src payload h,
  drop-uint64_bytes src payload,
)

-- What one client sends to another through the relay arrives with its payload and the sender's id,
-- where the ids are unsigned 64-bit numbers, the destination is not 0 and not the sender, both
-- clients are connected and a live socket is registered for the destination.
pub relayed :
    (sender dst conn conn' socket : ℕ) (payload spare : List ℕ) (a b : RelayClient) (r : Relay)
    → IsUint64 sender
    → IsUint64 dst
    → dst ≢ 0
    → dst ≢ sender
    → a.conn ≡ some conn
    → b.conn ≡ some conn'
    → resolve r dst ≡ some socket
    → (message : List ℕ) × (out : Slice) × (send_packet true dst payload a ≡ ok (conn, message))
      × (route sender true (record { bytes = message; spare = spare }) r ≡ forwarded socket out)
      × (read_packet (received true out.bytes) b ≡ ok (sender, payload))
unfolding send_packet route
relayed sender dst conn conn' socket payload spare a b r hs hd nz ns ca cb res = (
  frame dst payload,
  poke_uint64 sender (record { bytes = frame dst payload; spare = spare }),
  ground (arith, ca),
  ground (arith, peek-frame dst payload spare hd, res),
  rw (poke-frame sender dst payload spare)
      (unfold read_packet in ground (arith, cb, parse_packet-frame sender payload hs)),
)

encode_nonempty : (k : List ℕ) → length k ≡ 32 → (encode k == []) ≡ false
unfolding encode list_beq
encode_nonempty [] h = absurd (omega arith)
encode_nonempty (a ∷ []) h = refl
encode_nonempty (a ∷ b ∷ []) h = refl
encode_nonempty (a ∷ b ∷ c ∷ rest) h = refl

header_nonempty : (key : PublicKey) → IsArray key.k → (encode_to_string key == []) ≡ false
unfolding encode_to_string
header_nonempty key h = encode_nonempty key.k h.0

zero_key-IsArray : IsArray zero_key.k
zero_key-IsArray = omega arith

module _ ⦃text : NetText⦄ (c : RelayClient) (h : IsArray c.node_key.k) where
  -- The header that a client sends is read as the client's key.
  pub admit-header :
      (query : Query) (now : ℕ) (accepts : Bool) (s : Service)
      → admit (connect_header c) query now accepts s ≡ admit_key c.node_key query now accepts s
  unfolding admit connect_header
  admit-header query now accepts s = ground (
    arith,
    header_nonempty c.node_key h,
    decode_from_string-encode_to_string c.node_key zero_key h zero_key-IsArray,
  )

  -- A client whose key was just registered is admitted by the relay under its new id until the key
  -- expires, and afterwards is refused as unauthorized.
  pub admit-login :
      (env : Env) (s : Service) (now : ℕ)
      → IsFirstLogin env (record { node_key = c.node_key }) s
      → admit
          (connect_header c)
          answers
          now
          true
          (login_node env (record { node_key = c.node_key }) s).0
        ≡ (if ltb (env.login_time + node_key_valid_for) now
            then err (unauthorized err_node_key_expired)
            else ok (s.db.last_id + 1))
  unfolding admit_key
  admit-login env s now f =
      rw admit-header
        (ground (arith, f.nonzero, verify-login env (record { node_key = c.node_key }) s now f))
