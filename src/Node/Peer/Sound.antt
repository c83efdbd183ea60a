-- ===== src/Node/Peer/Sound.antt =====
-- node/peer.go: what holds of a peer at all times, whatever packets arrive and at what times.
use netproject.Shared.{
  ℕ, inl, inr, Bool-cases, Option-cases, subst, false, nat_eq, All-append, ◌≡◌, refl, List, [], ◌∷◌,
  ◌++◌, Bool, arith, Outcome, ok, err, panic, sym, ◌∙◌,
}
use netproject.Shared.{All, ◌==◌, drop}
use netproject.Shared.Map
use netproject.Shared.Map.{Map}
use netproject.Netip.{Addr}
use netproject.Node.Endpoint.{
  AddrPort, addr_port_eq, EndpointsJson, is_discovery_packet, is_magic_test_packet, decode_header,
}
use netproject.Node.Peer.{
  Peer, Candidate, Effect, since, pong_from, send_endpoints, to_udp, to_relay, to_tun, stun,
  new_peer, write, write_relayed, write_direct, ping_candidates, put_candidates,
  add_candidates_locked, handle_pong, handle_ping, re_evaluate, handle_endpoint_request,
  handle_endpoint_response, relay_discovery, udp_discovery, inbound_packet, inbound_relay_packet,
}
use netproject.Node.Peer.Writing.{IsPing, IsControl, write-Sends}
use netproject.Node.Peer.Keyed.{
  IsKeyed, put-IsKeyed, get-IsKeyed, put_candidates-IsKeyed, keep_candidates-IsKeyed,
  ping_candidates-IsKeyed,
}

-- The peer is still the peer of that node, and its candidates stand under their endpoints.
abbrev pub IsSound : ℕ → Addr → Peer → Type 0
IsSound id ip p = (p.id ≡ id) × (p.ip ≡ ip) × IsKeyed p.candidates

add_candidates_locked-IsSound :
    (id : ℕ) (ip : Addr) (es : List AddrPort) (p : Peer)
    → IsSound id ip p
    → IsSound id ip (add_candidates_locked es p)
unfolding add_candidates_locked
add_candidates_locked-IsSound id ip es p h = (
  h.0,
  h.1,
  keep_candidates-IsKeyed es (put_candidates es p.candidates)
      (put_candidates-IsKeyed es p.candidates h.2),
)

re_evaluate-same :
    (now : ℕ) (ep : AddrPort) (c : Candidate) (p : Peer)
    → ((re_evaluate now ep c p).id ≡ p.id)
      × ((re_evaluate now ep c p).ip ≡ p.ip)
      × ((re_evaluate now ep c p).candidates ≡ p.candidates)
unfolding re_evaluate
re_evaluate-same now ep c p = ground arith

pong_from-IsSound :
    (id now : ℕ) (ip : Addr) (ep : AddrPort) (c : Candidate) (p : Peer)
    → IsSound id ip p
    → c.endpoint ≡ ep
    → IsSound id ip (pong_from now ep c p).0
unfolding pong_from
pong_from-IsSound id now ip ep c p h e =
    let answered : Candidate = record c { received_pong = now; rtt = since now c.last_ping } in
    let same =
      re_evaluate-same now ep answered
        (record p { candidates = Map.put ep answered p.candidates }) in
    let keyed = put-IsKeyed ep answered p.candidates e h.2 in
    elim (Bool-cases (c.received_pong == 0)) [
      | inl f ↦
          rw f (h.0, h.1, put-IsKeyed ep (record answered { last_ping = now }) p.candidates e h.2)
      | inr f ↦ rw f (same.0 ∙ h.0, same.1 ∙ h.1, subst IsKeyed (sym same.2) keyed)
    ]

-- The packets that the effects put on the relay are all for one node.
abbrev pub IsFor : ℕ → Effect → Type 0
IsFor id (to_udp b ep) = Unit
IsFor id (to_relay b dst) = dst ≡ id
IsFor id (to_tun b) = Unit
IsFor id stun = Unit

pong_from-IsFor :
    (id now : ℕ) (ep : AddrPort) (c : Candidate) (p : Peer)
    → All (IsFor id) (pong_from now ep c p).1
unfolding pong_from
pong_from-IsFor id now ep c p = ground arith

-- What a handler gives: a sound peer, and packets for its node alone.
abbrev pub IsSoundStep : ℕ → Addr → Peer × List Effect → Type 0
IsSoundStep id ip r = IsSound id ip r.0 × All (IsFor id) r.1

abbrev pub IsSoundOutcome : ℕ → Addr → Outcome (Unit {0}) (Peer × List Effect) → Type 0
IsSoundOutcome id ip (ok r) = IsSoundStep id ip r
IsSoundOutcome id ip (err _) = Unit
IsSoundOutcome id ip panic = Unit

handle_pong-IsSoundStep :
    (id now : ℕ) (ip : Addr) (ep : AddrPort) (p : Peer)
    → IsSound id ip p
    → IsSoundStep id ip (handle_pong now ep p)
unfolding handle_pong
handle_pong-IsSoundStep id now ip ep p h = elim (Option-cases (Map.get ep p.candidates)) [
  | inl e ↦ rw (handle_pong, e) (h, tt)
  | inr (c, e) ↦
      rw (handle_pong, e)
        (
          pong_from-IsSound id now ip ep c p h (get-IsKeyed ep c p.candidates h.2 e),
          pong_from-IsFor id now ep c p,
        )
]

ping_candidates-IsFor :
    (id now : ℕ) (force : Bool) (m : Map AddrPort Candidate)
    → All (IsFor id) (ping_candidates now force m).1
unfolding ping_candidates
ping_candidates-IsFor id now force [] = tt
ping_candidates-IsFor id now force ((ep, c) ∷ m) =
    ground (arith, ping_candidates-IsFor id now force m)

udp_discovery-IsSoundStep :
    (id now msgtype : ℕ) (ip : Addr) (ep : AddrPort) (p : Peer)
    → IsSound id ip p
    → IsSoundStep id ip (udp_discovery now msgtype ep p)
unfolding udp_discovery handle_ping
udp_discovery-IsSoundStep id now msgtype ip ep p h =
    ground (arith, handle_pong-IsSoundStep id now ip ep p h)

module _ (json : EndpointsJson) (ours : List AddrPort) where
  write-IsSound :
      (id now : ℕ) (ip : Addr) (b : List ℕ) (p : Peer)
      → IsSound id ip p
      → IsSound id ip (write json ours now b p).0
  unfolding write write_relayed write_direct
  write-IsSound id now ip b p h = ground (arith, ping_candidates-IsKeyed now false p.candidates h.2)

  pings-IsFor : (id : ℕ) (es : List Effect) → All IsPing es → All (IsFor id) es
  pings-IsFor id [] h = tt
  pings-IsFor id (to_udp b ep ∷ es) h = (tt, pings-IsFor id es h.1)
  pings-IsFor id (to_relay b dst ∷ es) h = absurd h.0
  pings-IsFor id (to_tun b ∷ es) h = absurd h.0
  pings-IsFor id (stun ∷ es) h = absurd h.0

  control-IsFor : (id : ℕ) (es : List Effect) → IsControl json ours id es → All (IsFor id) es
  control-IsFor id es (inl e) = rw e (tt, (refl, tt))
  control-IsFor id es (inr h) = pings-IsFor id es h

  write-IsFor : (now : ℕ) (b : List ℕ) (p : Peer) → All (IsFor p.id) (write json ours now b p).1
  write-IsFor now b p =
      let sends = write-Sends json ours now b p in
      let control = control-IsFor p.id sends.control sends.only_control in
      let data_packet : All (IsFor p.id) (sends.data_packet ∷ []) = elim sends.one_way [
        | inl e ↦ rw e (refl, tt)
        | inr e ↦ rw (e.0) (tt, tt)
      ] in
      rw (sends.in_order)
        (All-append (IsFor p.id) sends.control (sends.data_packet ∷ []) control data_packet)

  write-IsSoundStep :
      (id now : ℕ) (ip : Addr) (b : List ℕ) (p : Peer)
      → IsSound id ip p
      → IsSoundStep id ip (write json ours now b p)
  write-IsSoundStep id now ip b p h = (
    write-IsSound id now ip b p h,
    subst (λ i. All (IsFor i) (write json ours now b p).1) h.0 (write-IsFor now b p),
  )

  relay_discovery-IsSoundStep :
      (id now msgtype : ℕ) (ip : Addr) (b : List ℕ) (p : Peer)
      → IsSound id ip p
      → IsSoundStep id ip (relay_discovery json ours now msgtype b p)
  unfolding relay_discovery handle_endpoint_request handle_endpoint_response send_endpoints
  relay_discovery-IsSoundStep id now msgtype ip b p h =
      let added =
        add_candidates_locked-IsSound id ip (json.unmarshal (drop 5 b))
          (record p { last_endpoint_sync = now }) h in
      ground (arith, added)

  inbound_packet-IsSoundOutcome :
      (id now : ℕ) (ip : Addr) (b : List ℕ) (ep : AddrPort) (p : Peer)
      → IsSound id ip p
      → IsSoundOutcome id ip (inbound_packet json ours now b ep p)
  unfolding inbound_packet
  inbound_packet-IsSoundOutcome id now ip b ep p h = elim (Bool-cases (is_magic_test_packet b)) [
    | inl e ↦ rw (inbound_packet, e) (write-IsSoundStep id now ip b p h)
    | inr e ↦ elim (Bool-cases (is_discovery_packet b)) [
      | inl f ↦ elim (Option-cases (decode_header b)) [
        | inl g ↦ rw (inbound_packet, e, f, g) tt
        | inr (m, g) ↦
            let step = udp_discovery-IsSoundStep id now m ip ep p h in
            rw (inbound_packet, e, f, g)
              (
                step.0,
                All-append (IsFor id) (udp_discovery now m ep p).1 (to_tun b ∷ []) step.1 (tt, tt),
              )
      ]
      | inr f ↦ rw (inbound_packet, e, f) (h, (tt, tt))
    ]
  ]

  inbound_relay_packet-IsSoundOutcome :
      (id now : ℕ) (ip : Addr) (b : List ℕ) (p : Peer)
      → IsSound id ip p
      → IsSoundOutcome id ip (inbound_relay_packet json ours now b p)
  unfolding inbound_relay_packet
  inbound_relay_packet-IsSoundOutcome id now ip b p h = elim (Bool-cases (is_discovery_packet b)) [
    | inl e ↦ elim (Option-cases (decode_header b)) [
      | inl g ↦ rw (inbound_relay_packet, e, g) tt
      | inr (m, g) ↦ rw (inbound_relay_packet, e, g) (relay_discovery-IsSoundStep id now m ip b p h)
    ]
    | inr e ↦ elim (Bool-cases (is_magic_test_packet b)) [
      | inl f ↦ rw (inbound_relay_packet, e, f) (write-IsSoundStep id now ip b p h)
      | inr f ↦ rw (inbound_relay_packet, e, f) (h, tt)
    ]
  ]

module _ (json : EndpointsJson) where
  -- The life of a peer: what its node writes to it, and what arrives, at any times. The node's own
  -- endpoints, `ours`, are those of the time: an answer of STUN changes them.
  pub data Event (p : Peer) : Peer × List Effect → Type 0 where
    written : (ours : List AddrPort) (now : ℕ) (b : List ℕ) → Event p (write json ours now b p)
    from_udp :
        (ours : List AddrPort) (now : ℕ) (b : List ℕ) (ep : AddrPort) (r : Peer × List Effect)
        → inbound_packet json ours now b ep p ≡ ok r
        → Event p r
    from_relay :
        (ours : List AddrPort) (now : ℕ) (b : List ℕ) (r : Peer × List Effect)
        → inbound_relay_packet json ours now b p ≡ ok r
        → Event p r

  pub data Life (id : ℕ) (ip : Addr) : Peer → List Effect → Type 0 where
    born : Life id ip (new_peer id ip) []
    lives :
        {p : Peer} {sent : List Effect} {r : Peer × List Effect}
        → Life id ip p sent
        → Event p r
        → Life id ip r.0 (sent ++ r.1)

  Event-IsSoundStep :
      (id : ℕ) (ip : Addr) (p : Peer) (r : Peer × List Effect)
      → IsSound id ip p
      → Event p r
      → IsSoundStep id ip r
  Event-IsSoundStep id ip p r h (written ours now b) = write-IsSoundStep json ours id now ip b p h
  Event-IsSoundStep id ip p r h (from_udp ours now b ep r' e) =
      subst (IsSoundOutcome id ip) e (inbound_packet-IsSoundOutcome json ours id now ip b ep p h)
  Event-IsSoundStep id ip p r h (from_relay ours now b r' e) =
      subst (IsSoundOutcome id ip) e (inbound_relay_packet-IsSoundOutcome json ours id now ip b p h)

  -- At all times in the life of a peer, whatever is written to it and whatever arrives, and
  -- whatever the node's own endpoints are at each of these times, it has the node and the address
  -- that it was made with, each candidate stands under its own endpoint, and everything that it
  -- has put on the relay was for its node.
  pub Life-IsSound :
      (id : ℕ) (ip : Addr) (p : Peer) (sent : List Effect)
      → Life id ip p sent
      → IsSound id ip p × All (IsFor id) sent
  unfolding new_peer
  Life-IsSound id ip p sent born = ((refl, refl, tt), tt)
  Life-IsSound id ip p sent (lives {p = q} {sent = before} {r = r} life event) =
      let old = Life-IsSound id ip q before life in
      let step = Event-IsSoundStep id ip q r old.0 event in
      (step.0, All-append (IsFor id) before r.1 old.1 step.1)
