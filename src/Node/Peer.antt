-- ===== src/Node/Peer.antt =====
-- node/peer.go: one peer of a node. A handler takes the peer and gives it back with what it sends,
-- in order. A handler reads the clock once, as `now`: nanoseconds, of which 0 is `time.Time{}`.
-- The calls of the mux and the tunnel are `Effect`s; the endpoints that the mux has are an argument.
pub mod Writing
pub mod Discovery
pub mod Inbound
pub mod Keyed
pub mod Pinging
pub mod Path
pub mod Sound
pub mod Tests
use netproject.Shared.{
  ℕ, ◌+◌, ◌-◌, ◌*◌, ◌^◌, List, [], ◌∷◌, ◌++◌, Bool, true, false, ◌&&◌, ◌||◌, not, Option, none,
  some,
}
use netproject.Shared.{
  Outcome, ok, err, panic, ◌==◌, nat_eq, ltb, leb, if◌then◌else◌, contains, drop, length,
}
use netproject.Shared.Map
use netproject.Shared.Map.{Map}
use netproject.Netip.{Addr}
use netproject.Bytes.{uint64_bytes}
use netproject.Node.Endpoint.{
  AddrPort, addr_port_eq, no_endpoint, is_endpoint, ping, pong, endpoints_request,
  endpoints_response, test_data_packet_magic, encode_header, decode_header, is_discovery_packet,
  is_magic_test_packet, EndpointsJson,
}

pub record Candidate : Type 0 where
  pub endpoint : AddrPort
  pub last_ping : ℕ
  pub received_pong : ℕ  -- 0 means that no pong was received
  pub rtt : ℕ
  pub attempts : ℕ

pub record Peer : Type 0 where
  pub id : ℕ
  pub ip : Addr
  pub active_addr : AddrPort
  pub active_addr_rtt : ℕ
  pub last_active_addr_pong : ℕ
  pub candidates : Map AddrPort Candidate
  pub last_full_check : ℕ
  pub last_active_check : ℕ
  pub last_endpoint_sync : ℕ

pub data Effect : Type 0 where
  to_udp : List ℕ → AddrPort → Effect
  to_relay : List ℕ → ℕ → Effect
  to_tun : List ℕ → Effect
  stun : Effect

unfoldable pub new_peer : ℕ → Addr → Peer
new_peer id ip = record {
  id = id;
  ip = ip;
  active_addr = no_endpoint;
  active_addr_rtt = 0;
  last_active_addr_pong = 0;
  candidates = [];
  last_full_check = 0;
  last_active_check = 0;
  last_endpoint_sync = 0;
}

-- A number of seconds, in nanoseconds.
abbrev pub seconds : ℕ → ℕ
seconds n = n * 1000000000

-- `time.Since`, which stops at the largest duration.
unfoldable pub since : ℕ → ℕ → ℕ
since now t = if ltb (now - t) (2 ^ 63) then now - t else 2 ^ 63 - 1

unfoldable pub ping_endpoint_locked : AddrPort → Effect
ping_endpoint_locked ep = to_udp (encode_header ping) ep

unfoldable pub maybe_prune_candidate : ℕ → Candidate → Bool
maybe_prune_candidate now c =
    leb (since now c.last_ping) (seconds 5)
    && (c.received_pong == 0 || ltb (seconds 20) (since now c.received_pong))
    && leb 3 c.attempts

-- The loop of `pingAllLocked`. The list of candidates to prune that the code collects is dropped
-- there, so nothing is pruned.
unfoldable pub ping_candidates :
    ℕ → Bool → Map AddrPort Candidate → Map AddrPort Candidate × List Effect
unfolding ping_endpoint_locked
ping_candidates now force [] = ([], [])
ping_candidates now force ((ep, c) ∷ m) =
    let rest = ping_candidates now force m in
    if maybe_prune_candidate now c
    then ((ep, c) ∷ rest.0, rest.1)
    else if leb (seconds 5) (since now c.last_ping) || force
    then (
      (ep, record c { last_ping = now; attempts = c.attempts + 1 }) ∷ rest.0,
      ping_endpoint_locked ep ∷ rest.1,
    )
    else ((ep, c) ∷ rest.0, rest.1)

unfoldable pub ping_all_locked : ℕ → Bool → Peer → Peer × List Effect
ping_all_locked now force p =
    let (m, effects) = ping_candidates now force p.candidates in
    (record p { last_full_check = now; candidates = m }, effects)

-- The pong handler's last part: the answer of a candidate that has answered before.
unfoldable pub re_evaluate : ℕ → AddrPort → Candidate → Peer → Peer
re_evaluate now ep c p =
    if not (is_endpoint p.active_addr)
    then record p { active_addr = ep; active_addr_rtt = c.rtt }
    else if not (ep == p.active_addr)
    then (if ltb c.rtt p.active_addr_rtt && not (p.active_addr_rtt == 0)
        then record p {
          active_addr = ep;
          active_addr_rtt = c.rtt;
          last_active_check = now;
          last_active_addr_pong = now;
        }
        else p)
    else record p { active_addr_rtt = since now p.last_active_check; last_active_addr_pong = now }

-- Nothing in the program calls it.
unfoldable ping_all_with_punch_locked : ℕ → Peer → Peer × List Effect
unfolding ping_all_locked
ping_all_with_punch_locked now p = ping_all_locked now true p

unfoldable pub reply_to_ping_locked : AddrPort → Effect
reply_to_ping_locked ep = to_udp (encode_header pong) ep

unfoldable pub handle_ping : AddrPort → Peer → Peer × List Effect
unfolding reply_to_ping_locked
handle_ping ep p = elim (Map.get ep p.candidates) [
  | none ↦ (p, [])
  | some _ ↦ (p, reply_to_ping_locked ep ∷ [])
]

-- The candidate as the pong leaves it; after a first pong it is pinged again.
unfoldable pub pong_from : ℕ → AddrPort → Candidate → Peer → Peer × List Effect
unfolding re_evaluate ping_endpoint_locked
pong_from now ep c p =
    let answered : Candidate = record c { received_pong = now; rtt = since now c.last_ping } in
    if c.received_pong == 0
    then (
      record p { candidates = Map.put ep (record answered { last_ping = now }) p.candidates },
      ping_endpoint_locked c.endpoint ∷ [],
    )
    else (
      re_evaluate now ep answered (record p { candidates = Map.put ep answered p.candidates }),
      [],
    )

unfoldable pub handle_pong : ℕ → AddrPort → Peer → Peer × List Effect
unfolding pong_from
handle_pong now ep p = elim (Map.get ep p.candidates) [
  | none ↦ (p, [])
  | some c ↦ pong_from now ep c p
]

-- `addCandidatesLocked`: a new candidate for each endpoint, then the others are deleted.
unfoldable pub fresh : AddrPort → Candidate
fresh ep = record { endpoint = ep; last_ping = 0; received_pong = 0; rtt = 0; attempts = 0 }

unfoldable pub put_candidates : List AddrPort → Map AddrPort Candidate → Map AddrPort Candidate
unfolding fresh
put_candidates [] m = m
put_candidates (e ∷ es) m = put_candidates es (Map.put e (fresh e) m)

unfoldable pub keep_candidates : List AddrPort → Map AddrPort Candidate → Map AddrPort Candidate
keep_candidates es [] = []
keep_candidates es ((ep, c) ∷ m) =
    if not (contains es ep) then keep_candidates es m else (ep, c) ∷ keep_candidates es m

unfoldable pub add_candidates_locked : List AddrPort → Peer → Peer
unfolding put_candidates keep_candidates
add_candidates_locked es p = record p {
  candidates = keep_candidates es (put_candidates es p.candidates);
}

unfoldable pub udp_discovery : ℕ → ℕ → AddrPort → Peer → Peer × List Effect
unfolding handle_ping handle_pong
udp_discovery now msgtype ep p =
    if msgtype == ping
    then handle_ping ep p
    else if msgtype == pong
    then handle_pong now ep p
    else (p, [])

module _ (json : EndpointsJson) (ours : List AddrPort) where
  open json use {marshal, unmarshal}

  unfoldable pub send_endpoints : ℕ → Peer → List Effect
  send_endpoints msgtype p = stun ∷ to_relay (encode_header msgtype ++ marshal ours) p.id ∷ []

  unfoldable pub send_endpoint_request_locked : ℕ → Peer → Peer × List Effect
  unfolding send_endpoints
  send_endpoint_request_locked now p =
      (record p { last_endpoint_sync = now }, send_endpoints endpoints_request p)

  -- `write` with no active address: the data goes through the relay.
  unfoldable pub write_relayed : ℕ → List ℕ → Peer → Peer × List Effect
  unfolding send_endpoint_request_locked ping_all_locked
  write_relayed now b p =
      let (q, effects) : Peer × List Effect =
        if length p.candidates == 0 || ltb (seconds 300) (since now p.last_endpoint_sync)
        then send_endpoint_request_locked now p
        else if ltb (seconds 10) (since now p.last_full_check)
        then ping_all_locked now false p
        else (p, []) in
      (q, effects ++ (to_relay b p.id ∷ []))

  -- `write` with an active address: the data goes there, unless no pong came from it for too long.
  unfoldable pub write_direct : ℕ → List ℕ → Peer → Peer × List Effect
  unfolding ping_all_locked ping_endpoint_locked
  write_direct now b p =
      if ltb (seconds 20) (since now p.last_full_check)
      then (
        (ping_all_locked now false p).0,
        (ping_all_locked now false p).1 ++ (to_udp b p.active_addr ∷ []),
      )
      else if leb (seconds 9) (since now p.last_active_check)
      then (
        record p { last_active_check = now },
        ping_endpoint_locked p.active_addr ∷ to_udp b p.active_addr ∷ [],
      )
      else if ltb (seconds 10) (since now p.last_active_addr_pong)
      then (record p { active_addr = no_endpoint; active_addr_rtt = 0 }, to_relay b p.id ∷ [])
      else (p, to_udp b p.active_addr ∷ [])

  unfoldable pub write : ℕ → List ℕ → Peer → Peer × List Effect
  unfolding write_relayed write_direct
  write now b p =
      if not (is_endpoint p.active_addr) then write_relayed now b p else write_direct now b p

  unfoldable pub send_magic_test_packet : ℕ → Peer → Peer × List Effect
  unfolding write
  send_magic_test_packet now p = write now (uint64_bytes test_data_packet_magic) p

  unfoldable pub handle_endpoint_response : ℕ → List ℕ → Peer → Peer
  unfolding add_candidates_locked
  handle_endpoint_response now b p =
      add_candidates_locked (unmarshal (drop 5 b)) (record p { last_endpoint_sync = now })

  unfoldable pub handle_endpoint_request : ℕ → List ℕ → Peer → Peer × List Effect
  unfolding handle_endpoint_response send_endpoints
  handle_endpoint_request now b p =
      (handle_endpoint_response now b p, send_endpoints endpoints_response p)

  -- A packet from the mux. Discovery packets, too, are written to the tunnel.
  unfoldable pub inbound_packet :
      ℕ → List ℕ → AddrPort → Peer → Outcome (Unit {0}) (Peer × List Effect)
  unfolding udp_discovery write
  inbound_packet now b ep p =
      if is_magic_test_packet b
      then ok (write now b p)
      else if is_discovery_packet b
      then elim (decode_header b) [
        | none ↦ panic
        | some msgtype ↦ ok (
          (udp_discovery now msgtype ep p).0,
          (udp_discovery now msgtype ep p).1 ++ (to_tun b ∷ []),
        )
      ]
      else ok (p, to_tun b ∷ [])

  unfoldable pub relay_discovery : ℕ → ℕ → List ℕ → Peer → Peer × List Effect
  unfolding handle_endpoint_request handle_endpoint_response
  relay_discovery now msgtype b p =
      if msgtype == endpoints_request
      then handle_endpoint_request now b p
      else if msgtype == endpoints_response
      then (handle_endpoint_response now b p, [])
      else (p, [])

  -- A packet from the relay.
  unfoldable pub inbound_relay_packet : ℕ → List ℕ → Peer → Outcome (Unit {0}) (Peer × List Effect)
  unfolding relay_discovery write
  inbound_relay_packet now b p =
      if is_discovery_packet b
      then elim (decode_header b) [
        | none ↦ panic
        | some msgtype ↦ ok (relay_discovery now msgtype b p)
      ]
      else if is_magic_test_packet b
      then ok (write now b p)
      else ok (p, [])

  unfoldable pub inbound_tun_packet : ℕ → List ℕ → Peer → Peer × List Effect
  unfolding write
  inbound_tun_packet now b p = write now b p
