-- ===== src/Node/Mux.antt =====
-- node/udpmux.go: the socket that the peers of a node share, and its relay connection. A peer is a
-- number, its object. What the operating system and the STUN library answer are arguments.
pub mod Binding
pub mod Delivery
pub mod Tests
use netproject.Shared.{ℕ, List, [], ◌∷◌, ◌++◌, Bool, true, false, not, ◌||◌, Option, none, some}
use netproject.Shared.{
  Outcome, ok, err, panic, ◌==◌, nat_eq, ltb, if◌then◌else◌, take, drop, length,
}
use netproject.Shared.Map
use netproject.Shared.Map.{Map}
use netproject.Bytes.{uint64_bytes, uint64_value}
use netproject.Netip.{is_valid}
use netproject.Relay.Client.{
  RelayClient, ClientError, Received, connect, send_packet, read_packet, close,
}
use netproject.Node.Endpoint.{AddrPort, no_endpoint}

-- `conn` says whether the mux has a socket; the channel `closed` is never closed.
pub record Mux : Type 0 where
  pub node_id : ℕ
  pub conn : Bool
  pub peers : Map ℕ ℕ
  pub public_addr : AddrPort
  pub udp_port : ℕ
  pub unspecified_endpoints : List AddrPort
  pub bind_active : Bool
  pub relay_client : Option RelayClient

pub data MuxError : Type 0 where
  already_bound listen_failed no_bind bind_inactive socket_failed close_failed : MuxError
  net_closed : MuxError
  relay_failed : ClientError → MuxError

unfoldable pub new_mux : ℕ → ℕ → Option RelayClient → Mux
new_mux node_id port client = record {
  node_id = node_id;
  conn = false;
  peers = [];
  public_addr = no_endpoint;
  udp_port = port;
  unspecified_endpoints = [];
  bind_active = false;
  relay_client = client;
}

unfoldable pub register_peer : ℕ → ℕ → Mux → Mux
register_peer id peer m = record m { peers = Map.put id peer m.peers }

unfoldable pub deregister_peer : ℕ → Mux → Mux
deregister_peer id m = record m { peers = Map.delete id m.peers }

unfoldable pub get_endpoints : Mux → List AddrPort
get_endpoints m =
    if is_valid m.public_addr.addr
    then m.unspecified_endpoints ++ (m.public_addr ∷ [])
    else m.unspecified_endpoints

-- `doStun`, where the server's name resolves or not: whether a request is sent.
unfoldable pub do_stun : Bool → Mux → Outcome MuxError Bool
do_stun resolves m = if not resolves then ok false else if m.conn then ok true else panic

-- `Bind` once the socket is open: the endpoints, and then the relay by what `Dial` gives. Where the
-- relay fails, the socket is closed, but the bind is made active and the loops start all the same.
unfoldable pub bind_listening :
    AddrPort → (ℕ → List AddrPort) → Option ℕ → Mux → Mux × Outcome MuxError (Unit {0})
bind_listening here interfaces dial m =
    let endpoints =
      if m.udp_port == 0 then interfaces here.port else m.unspecified_endpoints ++ (here ∷ []) in
    elim m.relay_client [
      | none ↦ (record m { conn = true; unspecified_endpoints = endpoints }, panic)
      | some client ↦
          let (connected, result) = connect dial client in
          (
            record m {
              conn = elim result [ ok _ ↦ true | _ ↦ false ];
              unspecified_endpoints = endpoints;
              bind_active = true;
              relay_client = some connected;
            },
            ok tt,
          )
    ]

-- `Bind`, by the local address that `ListenPacket` gives and the addresses of the interfaces.
unfoldable pub bind :
    Option AddrPort → (ℕ → List AddrPort) → Option ℕ → Mux → Mux × Outcome MuxError (Unit {0})
unfolding bind_listening
bind listen interfaces dial m = if m.conn then (m, err already_bound) else elim listen [
  | none ↦ (m, err listen_failed)
  | some here ↦ bind_listening here interfaces dial m
]

-- `Unbind`, where the two calls of `Close` work or not; without a socket the first one panics.
unfoldable pub unbind : Bool → Bool → Mux → Mux × Outcome MuxError (Unit {0})
unbind closes relay_closes m =
    let stopped = record m { bind_active = false; conn = false } in
    if not m.bind_active
    then (m, err no_bind)
    else if not m.conn
    then (stopped, panic)
    else if not closes
    then (stopped, err close_failed)
    else elim m.relay_client [
      | none ↦ (stopped, panic)
      | some client ↦
          let (closed, result) = close relay_closes client in
          (
            record stopped { relay_client = some closed },
            elim result [ ok _ ↦ ok tt | err e ↦ err (relay_failed e) | panic ↦ panic ],
          )
    ]

-- `Write`: the datagram that is written, where the socket takes it; without a socket the type
-- assertion panics.
unfoldable pub write_packet : Bool → List ℕ → Mux → Outcome MuxError (List ℕ)
write_packet writes packet m =
    if not m.bind_active
    then err bind_inactive
    else if not m.conn
    then panic
    else if writes
    then ok (uint64_bytes m.node_id ++ packet)
    else err socket_failed

-- `WriteRelayPacket`: the relay connection and the message, or nothing where there is no relay.
unfoldable pub write_relay_packet : Bool → List ℕ → ℕ → Mux → Outcome MuxError (Option (ℕ × List ℕ))
write_relay_packet writes packet dst m = elim m.relay_client [
  | none ↦ ok none
  | some client ↦
      if not m.bind_active then err bind_inactive else elim (send_packet writes dst packet client) [
        | ok sent ↦ ok (some sent)
        | err e ↦ err (relay_failed e)
        | panic ↦ panic
      ]
]

-- Where a packet goes that one of the read loops has read; `stops` ends the loop.
pub data Dispatch : Type 0 where
  stops : Dispatch
  to_stun : List ℕ → Dispatch
  too_small no_peer_id unknown_peer : Dispatch
  to_peer : ℕ → List ℕ → Dispatch

unfoldable pub dispatch_id : ℕ → List ℕ → Mux → Dispatch
dispatch_id id packet m = elim (Map.get id m.peers) [
  | none ↦ unknown_peer
  | some peer ↦ to_peer peer packet
]

-- What the socket gives: a datagram, that it is closed, or another error.
pub data SocketRead : Type 0 where
  datagram : List ℕ → SocketRead
  socket_closed socket_error : SocketRead

-- The length of the buffer of `startReadLoop`.
abbrev pub read_buffer : ℕ
read_buffer = 1500

-- `read` into that buffer, to which a longer datagram is cut; `still_active` is the bind at the time of an error.
unfoldable pub mux_read : SocketRead → Bool → Mux → Outcome MuxError (List ℕ)
mux_read r still_active m = if not m.bind_active || not m.conn then err bind_inactive else elim r [
  | datagram bytes ↦ ok (take read_buffer bytes)
  | socket_closed ↦ err net_closed
  | socket_error ↦ if still_active then err socket_failed else err bind_inactive
]

-- Where `startReadLoop` sends a datagram; `stun.IsMessage` is the first argument.
unfoldable pub dispatch_datagram : (List ℕ → Bool) → List ℕ → Mux → Dispatch
unfolding dispatch_id
dispatch_datagram is_message bytes m =
    if is_message bytes
    then to_stun bytes
    else if ltb (length bytes) 8
    then too_small
    else elim (uint64_value bytes) [
      | none ↦ too_small
      | some id ↦ if id == 0 then no_peer_id else dispatch_id id (drop 8 bytes) m
    ]

-- One round of `startReadLoop`, on what the socket gives. Every error ends the loop.
unfoldable pub read_round : (List ℕ → Bool) → SocketRead → Bool → Mux → Dispatch
unfolding mux_read dispatch_datagram
read_round is_message r still_active m = elim (mux_read r still_active m) [
  | ok bytes ↦ dispatch_datagram is_message bytes m
  | _ ↦ stops
]

-- One round of `relayReadLoop`, on what the relay's socket gives.
unfoldable pub relay_round : Received → Mux → Dispatch
unfolding dispatch_id
relay_round incoming m = elim m.relay_client [
  | none ↦ stops
  | some client ↦ if not m.bind_active then stops else elim (read_packet incoming client) [
    | ok (id, packet) ↦ dispatch_id id packet m
    | _ ↦ stops
  ]
]

-- `handleStun`, by the address that the message is found to hold.
unfoldable pub handle_stun : Option AddrPort → Mux → Mux
handle_stun none m = m
handle_stun (some found) m = record m { public_addr = found }
