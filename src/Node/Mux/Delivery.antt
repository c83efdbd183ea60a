-- ===== src/Node/Mux/Delivery.antt =====
-- node/udpmux.go, the two writes and the two read loops: packets from one node's mux to another's.
use netproject.Shared.{
  ℕ, ◌+◌, ◌≡◌, ◌≢◌, ap, List, ◌++◌, Bool, true, false, some, arith, ok, ◌≤◌, nat_eq, length,
  take-all, length-append,
}
use netproject.Shared.Map
use netproject.Bytes.{IsUint64, Slice, uint64_bytes}
use netproject.Bytes.Laws.{uint64_value-bytes, length-uint64_bytes, drop-uint64_bytes}
use netproject.Relay.Client.{RelayClient, received}
use netproject.Relay.Server.{Relay, route, resolve, forwarded}
use netproject.Relay.EndToEnd.{relayed}
use netproject.Node.Mux.{
  Mux, write_relay_packet, mux_read, read_round, dispatch_datagram, dispatch_id, read_buffer,
  datagram, relay_round, to_peer,
}

mux_read-short :
    (bytes : List ℕ) (b : Mux)
    → length bytes ≤ read_buffer
    → b.bind_active ≡ true
    → b.conn ≡ true
    → mux_read (datagram bytes) true b ≡ ok bytes
unfolding mux_read
mux_read-short bytes b short active conn =
    rw (active, conn) (ap ok (take-all read_buffer bytes short))

framed_dispatched :
    (is_message : List ℕ → Bool) (packet : List ℕ) (id peer : ℕ) (b : Mux)
    → IsUint64 id
    → id ≢ 0
    → is_message (uint64_bytes id ++ packet) ≡ false
    → Map.get id b.peers ≡ some peer
    → dispatch_datagram is_message (uint64_bytes id ++ packet) b ≡ to_peer peer packet
unfolding dispatch_datagram dispatch_id
framed_dispatched is_message packet id peer b u nonzero plain registered = ground (
  arith,
  uint64_value-bytes id packet u,
  drop-uint64_bytes id packet,
  length-append (uint64_bytes id) packet,
  length-uint64_bytes id,
)

-- A datagram that one mux writes arrives, unless it looks like a STUN message or is longer than the
-- reader's buffer, at the peer that the other mux has registered for the writer, as the packet that
-- was written.
pub datagram_delivered :
    (is_message : List ℕ → Bool) (packet : List ℕ) (peer : ℕ) (a b : Mux)
    → IsUint64 a.node_id
    → a.node_id ≢ 0
    → length packet + 8 ≤ read_buffer
    → is_message (uint64_bytes a.node_id ++ packet) ≡ false
    → b.bind_active ≡ true
    → b.conn ≡ true
    → Map.get a.node_id b.peers ≡ some peer
    → read_round is_message (datagram (uint64_bytes a.node_id ++ packet)) true b
      ≡ to_peer peer packet
unfolding read_round
datagram_delivered is_message packet peer a b id nonzero short plain active conn registered =
    let framed = uint64_bytes a.node_id ++ packet in
    let fits : length framed ≤ read_buffer = omega (
      arith,
      short,
      length-append (uint64_bytes a.node_id) packet,
      length-uint64_bytes a.node_id,
    ) in
    rw (read_round, mux_read-short framed b fits active conn)
      (framed_dispatched is_message packet a.node_id peer b id nonzero plain registered)

-- A packet that one node's mux writes to the relay for another arrives, through the relay's
-- handler, at the peer that the other mux has registered for the writer, where the ids are
-- unsigned 64-bit numbers, the destination is not 0 and not the writer, both binds are active with
-- connected clients, and the relay has a live socket for the destination.
pub relay_packet_delivered :
    (sender dst socket conn conn' peer : ℕ) (packet spare : List ℕ) (x y : RelayClient) (a b : Mux)
    (r : Relay)
    → IsUint64 sender
    → IsUint64 dst
    → dst ≢ 0
    → dst ≢ sender
    → a.bind_active ≡ true
    → a.relay_client ≡ some x
    → x.conn ≡ some conn
    → b.bind_active ≡ true
    → b.relay_client ≡ some y
    → y.conn ≡ some conn'
    → resolve r dst ≡ some socket
    → Map.get sender b.peers ≡ some peer
    → (message : List ℕ) × (out : Slice) × (write_relay_packet true packet dst a
        ≡ ok (some (conn, message)))
      × (route sender true (record { bytes = message; spare = spare }) r ≡ forwarded socket out)
      × (relay_round (received true out.bytes) b ≡ to_peer peer packet)
unfolding write_relay_packet relay_round
relay_packet_delivered sender dst socket conn conn' peer packet spare x y a b r us ud nz ns aa ax xc
      ba by yc res reg =
    let r = relayed sender dst conn conn' socket packet spare x y r us ud nz ns xc yc res in
    (r.0, r.1, ground (arith, r.2), r.3, ground (arith, r.4))
