-- ===== src/Node/Peer/Inbound.antt =====
-- node/peer.go, `inboundPacket` and `inboundRelayPacket`: where a packet goes, and when it crashes.
use netproject.Shared.{
  ℕ, ◌<◌, ◌⊎◌, ◌≢◌, inl, inr, Bool-cases, ◌≡◌, ◌↔◌, refl, List, [], ◌∷◌, ◌++◌, true, false, none,
  some, arith,
}
use netproject.Shared.{ok, panic, nat_eq, All, All-append, length}
use netproject.Node.Endpoint.{
  AddrPort, addr_port_eq, EndpointsJson, decode_header, is_discovery_packet, is_magic_test_packet,
}
use netproject.Node.Peer.{
  Peer, Effect, to_udp, to_relay, to_tun, stun, write, send_endpoints, handle_endpoint_request,
  relay_discovery, udp_discovery, handle_ping, handle_pong, inbound_packet, inbound_relay_packet,
}
use netproject.Node.Peer.Writing.{IsPing, IsControl, write-Sends}

discovery_length :
    (b : List ℕ)
    → is_discovery_packet b ≡ true
    → ((length b ≡ 4) × (decode_header b ≡ none) × (is_magic_test_packet b ≡ false))
      ⊎ ((m : ℕ) × (decode_header b ≡ some m) × (4 < length b))
unfolding is_discovery_packet decode_header is_magic_test_packet
discovery_length [] h = absurd (ground arith)
discovery_length (a ∷ []) h = absurd (ground arith)
discovery_length (a ∷ c ∷ []) h = absurd (ground arith)
discovery_length (a ∷ c ∷ d ∷ []) h = absurd (ground arith)
discovery_length (a ∷ c ∷ d ∷ e ∷ []) h = inl (refl, refl, refl)
discovery_length (a ∷ c ∷ d ∷ e ∷ m ∷ b) h = inr (m, refl, omega arith)

module _ (json : EndpointsJson) where
  -- A packet from the relay crashes the node exactly when it is the four bytes of the discovery
  -- magic.
  pub inbound_relay_packet-panic :
      (ours : List AddrPort) (now : ℕ) (b : List ℕ) (p : Peer)
      → (inbound_relay_packet json ours now b p ≡ panic)
        ↔ ((is_discovery_packet b ≡ true) × (length b ≡ 4))
  unfolding inbound_relay_packet
  inbound_relay_packet-panic ours now b p = elim (Bool-cases (is_discovery_packet b)) [
    | inl e ↦ ground (arith, discovery_length b e)
    | inr e ↦ ground (arith, e)
  ]

-- What is sent to the network, rather than to the tunnel.
abbrev pub IsNetwork : Effect → Type 0
IsNetwork (to_udp b ep) = Unit
IsNetwork (to_relay b dst) = Unit
IsNetwork (to_tun b) = ⊥
IsNetwork stun = Unit

module _ (json : EndpointsJson) (ours : List AddrPort) where
  pings-IsNetwork : (es : List Effect) → All IsPing es → All IsNetwork es
  pings-IsNetwork [] h = tt
  pings-IsNetwork (to_udp b ep ∷ es) h = (tt, pings-IsNetwork es h.1)
  pings-IsNetwork (to_relay b dst ∷ es) h = absurd h.0
  pings-IsNetwork (to_tun b ∷ es) h = absurd h.0
  pings-IsNetwork (stun ∷ es) h = absurd h.0

  control-IsNetwork : (id : ℕ) (es : List Effect) → IsControl json ours id es → All IsNetwork es
  control-IsNetwork id es (inl e) = rw e (tt, (tt, tt))
  control-IsNetwork id es (inr h) = pings-IsNetwork es h

  write-IsNetwork : (now : ℕ) (b : List ℕ) (p : Peer) → All IsNetwork (write json ours now b p).1
  write-IsNetwork now b p =
      let sends = write-Sends json ours now b p in
      let control = control-IsNetwork p.id sends.control sends.only_control in
      let data_packet : All IsNetwork (sends.data_packet ∷ []) = elim sends.one_way [
        | inl e ↦ rw e (tt, tt)
        | inr e ↦ rw (e.0) (tt, tt)
      ] in
      rw (sends.in_order)
        (All-append IsNetwork sends.control (sends.data_packet ∷ []) control data_packet)

  relay_discovery-IsNetwork :
      (now msgtype : ℕ) (b : List ℕ) (p : Peer)
      → All IsNetwork (relay_discovery json ours now msgtype b p).1
  unfolding relay_discovery handle_endpoint_request send_endpoints
  relay_discovery-IsNetwork now msgtype b p = ground arith

  -- Whatever packet arrives through the relay, its length not 4, the peer writes nothing to the
  -- tunnel: it may answer on the network, and a data packet that the other side sent through the
  -- relay is dropped.
  pub inbound_relay_packet-IsNetwork :
      (now : ℕ) (b : List ℕ) (p : Peer)
      → length b ≢ 4
      → (q : Peer) × (effects : List Effect) × (inbound_relay_packet json ours now b p
          ≡ ok (q, effects))
        × All IsNetwork effects
  unfolding inbound_relay_packet
  inbound_relay_packet-IsNetwork now b p long = elim (Bool-cases (is_discovery_packet b)) [
    | inl e ↦ elim (discovery_length b e) [
      | inl h ↦ absurd (long h.0)
      | inr (m, decoded, _) ↦
          rw (e, decoded)
            (
              (relay_discovery json ours now m b p).0,
              (relay_discovery json ours now m b p).1,
              refl,
              relay_discovery-IsNetwork now m b p,
            )
    ]
    | inr e ↦ elim (Bool-cases (is_magic_test_packet b)) [
      | inl f ↦
          rw (e, f)
            (
              (write json ours now b p).0,
              (write json ours now b p).1,
              refl,
              write-IsNetwork now b p,
            )
      | inr f ↦ rw (e, f) (p, [], refl, tt)
    ]
  ]

  udp_discovery-IsNetwork :
      (now msgtype : ℕ) (ep : AddrPort) (p : Peer)
      → All IsNetwork (udp_discovery now msgtype ep p).1
  unfolding udp_discovery handle_ping handle_pong
  udp_discovery-IsNetwork now msgtype ep p = ground arith

  -- Every packet that arrives from UDP, is not the test packet and has not length 4 is written to
  -- the tunnel as it is, last and once, pings and pongs included.
  pub inbound_packet-to_tun :
      (now : ℕ) (b : List ℕ) (ep : AddrPort) (p : Peer)
      → length b ≢ 4
      → is_magic_test_packet b ≡ false
      → (q : Peer) × (control : List Effect) × (inbound_packet json ours now b ep p
          ≡ ok (q, control ++ (to_tun b ∷ [])))
        × All IsNetwork control
  unfolding inbound_packet
  inbound_packet-to_tun now b ep p long f = elim (Bool-cases (is_discovery_packet b)) [
    | inl e ↦ elim (discovery_length b e) [
      | inl h ↦ absurd (long h.0)
      | inr (m, decoded, _) ↦
          rw (f, e, decoded)
            (
              (udp_discovery now m ep p).0,
              (udp_discovery now m ep p).1,
              refl,
              udp_discovery-IsNetwork now m ep p,
            )
    ]
    | inr e ↦ rw (f, e) (p, [], refl, tt)
  ]
