-- ===== src/Node/Peer/Path.antt =====
-- node/peer.go: how two peers find a direct path, from the request for endpoints to the first data
-- packet that does not go through the relay.
use mathlib.Core.List.{Mem}
use netproject.Shared.{
  ℕ, ◌+◌, ◌≡◌, ◌≢◌, ◌≤◌, ◌<◌, refl, List, [], ◌∷◌, ◌++◌, true, false, some, arith,
}
use netproject.Shared.{ok, nat_eq, contains, length}
use netproject.Shared.Map
use netproject.Shared.Map.{Map}
use netproject.Node.Endpoint.{
  AddrPort, addr_port_eq, is_endpoint, EndpointsJson, encode_header, ping, pong, endpoints_request,
  endpoints_response,
}
use netproject.Node.Peer.Discovery.{get-add_candidates_locked, inbound_request, inbound_response}
use netproject.Node.Peer.{
  Peer, Candidate, Effect, to_udp, to_relay, to_tun, stun, fresh, seconds, since, write,
  ping_all_locked, inbound_packet, inbound_relay_packet, add_candidates_locked,
}
use netproject.Node.Peer.Pinging.{
  pinged, ping_candidates-fresh, inbound_ping, inbound_pong, first_pong, second_pong, write_request,
  write_pings, write_checks,
}

get-length :
    (ep : AddrPort) (c : Candidate) (m : Map AddrPort Candidate)
    → Map.get ep m ≡ some c
    → length m ≢ 0
unfolding Map.get
get-length ep c [] h = absurd (ground arith)
get-length ep c (x ∷ m) h = ground arith

module _ (json : EndpointsJson) where
  -- Two pongs from a candidate that was pinged make it the active address.
  answered_twice :
      (ours : List AddrPort) (t3 t4 t5 t6 : ℕ) (b : List ℕ) (ep : AddrPort) (p : Peer)
      → is_endpoint ep ≡ true
      → is_endpoint p.active_addr ≡ false
      → Map.get ep p.candidates ≡ some (pinged t3 ep)
      → t4 ≢ 0
      → t6 ≤ p.last_full_check + seconds 20
      → p.last_active_check + seconds 9 ≤ t6
      → (p4 p5 : Peer) × (inbound_packet json ours t4 (encode_header pong) ep p
          ≡ ok (p4, to_udp (encode_header ping) ep ∷ to_tun (encode_header pong) ∷ []))
        × (inbound_packet json ours t5 (encode_header pong) ep p4
            ≡ ok (p5, to_tun (encode_header pong) ∷ []))
        × (p5.active_addr ≡ ep)
        × ((write json ours t6 b p5).1 ≡ to_udp (encode_header ping) ep ∷ to_udp b ep ∷ [])
  answered_twice ours t3 t4 t5 t6 b ep p valid inactive cand some_time full check =
      let c4 : Candidate = record (pinged t3 ep) {
        received_pong = t4;
        rtt = since t4 t3;
        last_ping = t4;
      } in
      let p4 : Peer = record p { candidates = Map.put ep c4 p.candidates } in
      let p5 : Peer = record p4 {
        candidates = Map.put ep (record c4 { received_pong = t5; rtt = since t5 t4 }) p4.candidates;
        active_addr = ep;
        active_addr_rtt = since t5 t4;
      } in
      (
        p4,
        p5,
        rw (inbound_pong json ours t4 ep (pinged t3 ep) p cand, first_pong json ours t3 t4 ep p)
            refl,
        rw
            (
              inbound_pong json ours t5 ep c4 p4 (Map.get-put_self ep c4 p.candidates),
              second_pong json ours t5 ep c4 p4 some_time inactive,
            )
            refl,
        refl,
        write_checks json ours t6 b p5 valid full check,
      )

  -- Two peers find a direct path. The write of a peer without candidates and active address asks
  -- for the other's endpoints through the relay. Where each side has an endpoint that the other's
  -- packets come from, both know it after the answer; a write more than ten seconds after the last
  -- full check and within five minutes of the answer pings it; the other side answers every ping;
  -- after two pongs the endpoint is the active address; and a write nine seconds after the last
  -- check of an active address, and within twenty of the pings, sends its data there and nothing
  -- to the relay.
  pub path_found :
      (ours theirs : List AddrPort) (home away : AddrPort) (t0 t1 t2 t3 t4 t5 t6 : ℕ)
      (b0 b3 b6 : List ℕ) (p q : Peer)
      → contains ours home ≡ true
      → contains theirs away ≡ true
      → is_endpoint away ≡ true
      → is_endpoint p.active_addr ≡ false
      → length p.candidates ≡ 0
      → p.last_full_check + seconds 10 < t3
      → t3 ≤ t2 + seconds 300
      → t3 ≤ t4
      → t6 ≤ t3 + seconds 20
      → p.last_active_check + seconds 9 ≤ t6
      → (request response : List ℕ) × (pings : List Effect) × (p2 p3 p4 p5 q1 : Peer) × ((write json
            ours t0 b0 p).1
          ≡ stun ∷ to_relay request p.id ∷ to_relay b0 p.id ∷ [])
        × (inbound_relay_packet json theirs t1 request q
            ≡ ok (q1, stun ∷ to_relay response q.id ∷ []))
        × (inbound_relay_packet json ours t2 response (write json ours t0 b0 p).0 ≡ ok (p2, []))
        × (write json ours t3 b3 p2 ≡ (p3, pings ++ (to_relay b3 p.id ∷ [])))
        × Mem (to_udp (encode_header ping) away) pings
        × ((t : ℕ)
            → inbound_packet json theirs t (encode_header ping) home q1
              ≡ ok (q1, to_udp (encode_header pong) home ∷ to_tun (encode_header ping) ∷ []))
        × (inbound_packet json ours t4 (encode_header pong) away p3
            ≡ ok (p4, to_udp (encode_header ping) away ∷ to_tun (encode_header pong) ∷ []))
        × (inbound_packet json ours t5 (encode_header pong) away p4
            ≡ ok (p5, to_tun (encode_header pong) ∷ []))
        × (p5.active_addr ≡ away)
        × ((write json ours t6 b6 p5).1 ≡ to_udp (encode_header ping) away ∷ to_udp b6 away ∷ [])
  unfolding add_candidates_locked ping_all_locked
  path_found ours theirs home away t0 t1 t2 t3 t4 t5 t6 b0 b3 b6 p q has_home has_away valid
        inactive unknown due recent order full check =
      let p1 : Peer = record p { last_endpoint_sync = t0 } in
      let p2 : Peer = add_candidates_locked theirs (record p1 { last_endpoint_sync = t2 }) in
      let q1 : Peer = add_candidates_locked ours (record q { last_endpoint_sync = t1 }) in
      let p3 : Peer = (ping_all_locked t3 false p2).0 in
      let asked = write_request json ours t0 b0 p inactive unknown in
      let cand : Map.get away p2.candidates ≡ some (fresh away) =
        rw (get-add_candidates_locked away theirs (record p1 { last_endpoint_sync = t2 }), has_away)
          refl in
      let home_known : Map.get home q1.candidates ≡ some (fresh home) =
        rw (get-add_candidates_locked home ours (record q { last_endpoint_sync = t1 }), has_home)
          refl in
      let (cand3, pinged_away) =
        ping_candidates-fresh t3 away p2.candidates (omega (arith, due)) cand in
      let (p4, p5, answer, again, active, direct) =
        answered_twice ours t3 t4 t5 t6 b6 away p3 valid inactive cand3 (omega (arith, due, order))
          full check in
      (
        encode_header endpoints_request ++ json.marshal ours,
        encode_header endpoints_response ++ json.marshal theirs,
        (ping_all_locked t3 false p2).1,
        p2,
        p3,
        p4,
        p5,
        q1,
        rw asked refl,
        inbound_request json theirs ours t1 q,
        rw asked (inbound_response json ours theirs t2 p1),
        write_pings json ours t3 b3 p2 inactive (get-length away (fresh away) p2.candidates cand)
            recent due,
        pinged_away,
        λ t. inbound_ping json theirs t home (fresh home) q1 home_known,
        answer,
        again,
        active,
        direct,
      )
