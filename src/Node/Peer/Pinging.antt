-- ===== src/Node/Peer/Pinging.antt =====
-- node/peer.go: pings, pongs and writes, one step at a time, on the way to a direct path.
use mathlib.Core.List.{Mem, mem-cons_self, mem-append_right}
use netproject.Shared.{
  ℕ, ◌+◌, ◌≡◌, ◌≢◌, ◌≤◌, ◌<◌, refl, List, [], ◌∷◌, ◌++◌, true, false, some, arith, inl, inr,
  Bool-cases,
}
use netproject.Shared.{ok, ◌==◌, nat_eq, leb, ltb, length}
use netproject.Shared.Map
use netproject.Shared.Map.{Map}
use netproject.Bytes.{uint32_bytes, uint32_value}
use netproject.Node.Endpoint.{
  AddrPort, addr_port_eq, addr_port_beq_iff, is_endpoint, EndpointsJson, encode_header,
  decode_header, is_discovery_packet, is_magic_test_packet, ping, pong, endpoints_request,
}
use netproject.Node.Peer.{
  Peer, Candidate, Effect, to_udp, to_relay, to_tun, stun, fresh, seconds, since, write,
  write_relayed, write_direct, ping_candidates, ping_all_locked, ping_endpoint_locked,
  maybe_prune_candidate, handle_ping, reply_to_ping_locked, handle_pong, pong_from, re_evaluate,
  udp_discovery, inbound_packet,
}

-- A candidate after its first ping.
abbrev pub pinged : ℕ → AddrPort → Candidate
pinged now ep = record { endpoint = ep; last_ping = now; received_pong = 0; rtt = 0; attempts = 1 }

fresh-pinged :
    (now : ℕ) (ep : AddrPort)
    → seconds 5 ≤ now
    → (maybe_prune_candidate now (fresh ep) ≡ false)
      × (leb (seconds 5) (since now (fresh ep).last_ping) ≡ true)
unfolding maybe_prune_candidate since fresh
fresh-pinged now ep late = ground arith

ping_candidates-first :
    (now : ℕ) (ep : AddrPort) (m : Map AddrPort Candidate)
    → seconds 5 ≤ now
    → ping_candidates now false ((ep, fresh ep) ∷ m) ≡ (
      (ep, pinged now ep) ∷ (ping_candidates now false m).0,
      to_udp (encode_header ping) ep ∷ (ping_candidates now false m).1,
    )
unfolding ping_candidates ping_endpoint_locked fresh
ping_candidates-first now ep m late =
    let (alive, due) = fresh-pinged now ep late in rw (alive, due) refl

-- The ping that a candidate may get, before those of the others.
ping_candidates-rest :
    (now : ℕ) (e : AddrPort) (c : Candidate) (m : Map AddrPort Candidate)
    → (c' : Candidate) × (es : List Effect) × (ping_candidates now false ((e, c) ∷ m)
        ≡ ((e, c') ∷ (ping_candidates now false m).0, es ++ (ping_candidates now false m).1))
unfolding ping_candidates
ping_candidates-rest now e c m = elim (Bool-cases (maybe_prune_candidate now c)) [
  | inl dead ↦ rw dead (c, [], refl)
  | inr alive ↦ elim (Bool-cases (leb (seconds 5) (since now c.last_ping))) [
    | inl late ↦
        rw (alive, late)
          (
            record c { last_ping = now; attempts = c.attempts + 1 },
            ping_endpoint_locked e ∷ [],
            refl,
          )
    | inr soon ↦ rw (alive, soon) (c, [], refl)
  ]
]

pub ping_candidates-fresh :
    (now : ℕ) (ep : AddrPort) (m : Map AddrPort Candidate)
    → seconds 5 ≤ now
    → Map.get ep m ≡ some (fresh ep)
    → (Map.get ep (ping_candidates now false m).0 ≡ some (pinged now ep))
      × Mem (to_udp (encode_header ping) ep) (ping_candidates now false m).1
unfolding Map.get
ping_candidates-fresh now ep [] late h = absurd (ground arith)
ping_candidates-fresh now ep ((e, c) ∷ m) late h = elim (Bool-cases (e == ep)) [
  | inl same ↦
      let same_c : c ≡ fresh ep = ground (arith, same, h) in
      rw ((addr_port_beq_iff e ep).0 same, same_c, ping_candidates-first now ep m late)
        (ground (arith, addr_port_beq_iff ep ep), mem-cons_self)
  | inr other ↦
      let (c', es, step) = ping_candidates-rest now e c m in
      let (got, sent) = ping_candidates-fresh now ep m late (ground (arith, other, h)) in
      rw step (ground (arith, other, got), mem-append_right es sent)
]

module _ (json : EndpointsJson) (ours : List AddrPort) where
  -- A ping that arrives from a known endpoint is answered, and nothing changes.
  pub inbound_ping :
      (now : ℕ) (ep : AddrPort) (c : Candidate) (p : Peer)
      → Map.get ep p.candidates ≡ some c
      → inbound_packet json ours now (encode_header ping) ep p
        ≡ ok (p, to_udp (encode_header pong) ep ∷ to_tun (encode_header ping) ∷ [])
  unfolding inbound_packet udp_discovery handle_ping reply_to_ping_locked is_magic_test_packet
      is_discovery_packet decode_header encode_header uint32_bytes uint32_value
  inbound_ping now ep c p h = ground arith

  pub inbound_pong :
      (now : ℕ) (ep : AddrPort) (c : Candidate) (p : Peer)
      → Map.get ep p.candidates ≡ some c
      → inbound_packet json ours now (encode_header pong) ep p
        ≡ ok (
          (pong_from now ep c p).0,
          (pong_from now ep c p).1 ++ (to_tun (encode_header pong) ∷ []),
        )
  unfolding inbound_packet udp_discovery handle_pong is_magic_test_packet is_discovery_packet
      decode_header encode_header uint32_bytes uint32_value
  inbound_pong now ep c p h = ground arith

  -- The first pong of a candidate: it is pinged again.
  pub first_pong :
      (t3 t4 : ℕ) (ep : AddrPort) (p : Peer)
      → let answered : Candidate = record (pinged t3 ep) {
        received_pong = t4;
        rtt = since t4 t3;
        last_ping = t4;
      } in
        pong_from t4 ep (pinged t3 ep) p ≡ (
          record p { candidates = Map.put ep answered p.candidates },
          to_udp (encode_header ping) ep ∷ [],
        )
  unfolding pong_from ping_endpoint_locked fresh
  first_pong t3 t4 ep p = refl

  -- A later pong of a candidate, where no address is active.
  pub second_pong :
      (now : ℕ) (ep : AddrPort) (c : Candidate) (p : Peer)
      → c.received_pong ≢ 0
      → is_endpoint p.active_addr ≡ false
      → pong_from now ep c p ≡ (
        record p {
          candidates =
              Map.put ep
                (record c { received_pong = now; rtt = since now c.last_ping })
                p.candidates;
          active_addr = ep;
          active_addr_rtt = since now c.last_ping;
        },
        [],
      )
  unfolding pong_from re_evaluate
  second_pong now ep c p before inactive =
      let again : (c.received_pong == 0) ≡ false = ground (arith, before) in
      rw (again, inactive) refl

  pub write_request :
      (now : ℕ) (b : List ℕ) (p : Peer)
      → is_endpoint p.active_addr ≡ false
      → length p.candidates ≡ 0
      → write json ours now b p ≡ (
        record p { last_endpoint_sync = now },
        stun
            ∷ to_relay (encode_header endpoints_request ++ json.marshal ours) p.id
            ∷ to_relay b p.id
            ∷ [],
      )
  unfolding write write_relayed
  write_request now b p inactive unknown = rw (inactive, unknown) refl

  pub write_pings :
      (now : ℕ) (b : List ℕ) (p : Peer)
      → is_endpoint p.active_addr ≡ false
      → length p.candidates ≢ 0
      → now ≤ p.last_endpoint_sync + seconds 300
      → p.last_full_check + seconds 10 < now
      → write json ours now b p ≡ (
        (ping_all_locked now false p).0,
        (ping_all_locked now false p).1 ++ (to_relay b p.id ∷ []),
      )
  unfolding write write_relayed since
  write_pings now b p inactive known recent due =
      let some_known : (length p.candidates == 0) ≡ false = ground (arith, known) in
      let fresh_enough : ltb (seconds 300) (since now p.last_endpoint_sync) ≡ false =
        ground (arith, recent) in
      let check : ltb (seconds 10) (since now p.last_full_check) ≡ true = ground (arith, due) in
      rw (inactive, some_known, fresh_enough, check) refl

  pub write_checks :
      (now : ℕ) (b : List ℕ) (p : Peer)
      → is_endpoint p.active_addr ≡ true
      → now ≤ p.last_full_check + seconds 20
      → p.last_active_check + seconds 9 ≤ now
      → (write json ours now b p).1
        ≡ to_udp (encode_header ping) p.active_addr ∷ to_udp b p.active_addr ∷ []
  unfolding write write_direct since ping_endpoint_locked
  write_checks now b p active full check = ground arith
