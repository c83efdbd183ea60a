-- ===== src/Node/DataPath.antt =====
-- node/controller.go, node/peer.go and node/udpmux.go together: a packet from the tunnel of one node
-- to the tunnel of another.
use netproject.Shared.{
  ℕ, ◌+◌, ◌≡◌, ◌≢◌, ◌≤◌, refl, ◌∙◌, ap, List, [], ◌∷◌, ◌++◌, Bool, true, false, some, arith, inl,
  inr, Bool-cases,
}
use netproject.Shared.{ok, ◌==◌, nat_eq, ltb, leb, length, drop, take-all, Option}
use netproject.Shared.Map
use netproject.Netip.{Addr, addr_eq, addr_beq_iff, in_prefix}
use netproject.Bytes.{IsUint64, uint64_bytes}
use netproject.Node.Endpoint.{
  AddrPort, EndpointsJson, is_endpoint, is_discovery_packet, is_magic_test_packet,
}
use netproject.Node.Peer.{
  Peer, Effect, to_udp, to_tun, seconds, since, write, write_direct, ping_all_locked,
  ping_endpoint_locked, inbound_packet, inbound_tun_packet,
}
use netproject.Node.Mux.{Mux, write_packet, read_buffer, read_round, datagram, to_peer}
use netproject.Node.Mux.Delivery.{datagram_delivered}
use netproject.Node.Controller.{
  Controller, ControllerConfig, to_object, tun_buffer, tun_dispatch, tun_read, tun_round,
}
use netproject.Node.Controller.Registered.{IsRegistered}

answered_recently :
    (now : ℕ) (p : Peer)
    → now ≤ p.last_active_addr_pong + seconds 10
    → ltb (seconds 10) (since now p.last_active_addr_pong) ≡ false
unfolding since
answered_recently now p answered = ground (arith, answered)

mux_writes :
    (packet : List ℕ) (a : Mux)
    → a.bind_active ≡ true
    → a.conn ≡ true
    → write_packet true packet a ≡ ok (uint64_bytes a.node_id ++ packet)
unfolding write_packet
mux_writes packet a active conn = rw (active, conn) refl

module _ (json : EndpointsJson) (ours : List AddrPort) where
  -- An active address that answered in the last ten seconds gets the data.
  write_answered :
      (now : ℕ) (b : List ℕ) (p : Peer)
      → is_endpoint p.active_addr ≡ true
      → now ≤ p.last_active_addr_pong + seconds 10
      → (control : List Effect) × ((write json ours now b p).1
          ≡ control ++ (to_udp b p.active_addr ∷ []))
  unfolding write write_direct
  write_answered now b p active answered =
      elim (Bool-cases (ltb (seconds 20) (since now p.last_full_check))) [
        | inl e ↦ rw (active, e) ((ping_all_locked now false p).1, refl)
        | inr e ↦ elim (Bool-cases (leb (seconds 9) (since now p.last_active_check))) [
          | inl f ↦ rw (active, e, f) (ping_endpoint_locked p.active_addr ∷ [], refl)
          | inr f ↦ rw (active, e, f, answered_recently now p answered) ([], refl)
        ]
      ]

tun_round-known :
    (parse_dst : List ℕ → Option Addr) (packet old : List ℕ) (dst : Addr)
    (config : ControllerConfig) (c : Controller) (object : ℕ)
    → length packet ≤ tun_buffer
    → parse_dst (packet ++ drop (length packet) old) ≡ some dst
    → dst ≢ config.node_ip
    → in_prefix config.node_prefix dst ≡ true
    → Map.get dst c.peers_by_ip ≡ some object
    → tun_round parse_dst (some packet) old config c ≡ to_object object packet
unfolding tun_round tun_read tun_dispatch
tun_round-known parse_dst packet old dst config c object short parsed ne inside known =
    let other : (dst == config.node_ip) ≡ false = ground (arith, addr_beq_iff dst config.node_ip) in
    ap (λ b. tun_read parse_dst b old config c) (take-all tun_buffer packet short)
    ∙ rw (tun_read, parsed, tun_dispatch, other, inside, known) refl

module _ (json : EndpointsJson) where
  -- A packet goes from tunnel to tunnel. Where a node, whose id is a 64-bit number and not 0,
  -- reads in its tunnel loop a packet of at most 1492 bytes for an address of the prefix other
  -- than its own, which is that of a peer whose active address answered in the last ten seconds,
  -- and the packet is neither a discovery packet nor the test packet: the loop gives it to that
  -- peer's object, which sends it last to the active address; the datagram that the bound mux
  -- writes for it, unless it looks like a STUN message, leads the other node's bound mux to the
  -- object of the first node, where its controller knows that node; and that object writes exactly
  -- the packet to its tunnel.
  pub tunnel_to_tunnel :
      (is_message : List ℕ → Bool) (ours theirs : List AddrPort) (t1 t2 : ℕ)
      (parse_dst : List ℕ → Option Addr) (packet old : List ℕ) (dst : Addr) (from : AddrPort)
      (config : ControllerConfig) (c d : Controller) (object object' : ℕ) (p q : Peer) (a : Mux)
      (h : IsRegistered d)
      → length packet + 8 ≤ read_buffer
      → parse_dst (packet ++ drop (length packet) old) ≡ some dst
      → dst ≢ config.node_ip
      → in_prefix config.node_prefix dst ≡ true
      → Map.get dst c.peers_by_ip ≡ some object
      → is_endpoint p.active_addr ≡ true
      → t1 ≤ p.last_active_addr_pong + seconds 10
      → IsUint64 a.node_id
      → a.node_id ≢ 0
      → a.bind_active ≡ true
      → a.conn ≡ true
      → h.mux.bind_active ≡ true
      → h.mux.conn ≡ true
      → Map.get a.node_id d.peers_by_id ≡ some object'
      → is_discovery_packet packet ≡ false
      → is_magic_test_packet packet ≡ false
      → is_message (uint64_bytes a.node_id ++ packet) ≡ false
      → (control : List Effect) × (sent : List ℕ) × (tun_round parse_dst (some packet) old config c
          ≡ to_object object packet)
        × ((inbound_tun_packet json ours t1 packet p).1
            ≡ control ++ (to_udp packet p.active_addr ∷ []))
        × (write_packet true packet a ≡ ok sent)
        × (read_round is_message (datagram sent) true h.mux ≡ to_peer object' packet)
        × (inbound_packet json theirs t2 packet from q ≡ ok (q, to_tun packet ∷ []))
  unfolding inbound_tun_packet inbound_packet
  tunnel_to_tunnel is_message ours theirs t1 t2 parse_dst packet old dst from config c d object
        object' p q a h short parsed ne inside known active answered id nonzero bind_a conn_a bind_b
        conn_b known' no_discovery plain no_stun =
      let (control, writes) = write_answered json ours t1 packet p active answered in
      let sent = uint64_bytes a.node_id ++ packet in
      let written : write_packet true packet a ≡ ok sent = mux_writes packet a bind_a conn_a in
      (
        control,
        sent,
        tun_round-known parse_dst packet old dst config c object (omega arith) parsed ne inside
            known,
        writes,
        written,
        datagram_delivered is_message packet object' a h.mux id nonzero short no_stun bind_b conn_b
            (h.same a.node_id ∙ known'),
        rw (no_discovery, plain) refl,
      )
