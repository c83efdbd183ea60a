-- ===== src/Node/Peer/Discovery.antt =====
-- node/peer.go, `addCandidatesLocked` and the endpoint messages.
use netproject.Shared.{ℕ, ap, ◌≡◌, refl, List, [], ◌∷◌, ◌++◌, true, none, some, arith}
use netproject.Shared.{ok, nat_eq, if◌then◌else◌, contains, drop}
use netproject.Shared.Map
use netproject.Shared.Map.{Map}
use netproject.Bytes.{uint32_bytes, uint32_value}
use netproject.Node.Endpoint.{
  AddrPort, addr_port_eq, addr_port_beq_iff, EndpointsJson, encode_header, decode_header,
  endpoints_request, endpoints_response, is_discovery_packet,
}
use netproject.Node.Peer.{
  Peer, Candidate, to_relay, stun, put_candidates, keep_candidates, add_candidates_locked, fresh,
  send_endpoint_request_locked, handle_endpoint_request, handle_endpoint_response, relay_discovery,
  inbound_relay_packet,
}

get-put_candidates :
    (ep : AddrPort) (es : List AddrPort) (m : Map AddrPort Candidate)
    → Map.get ep (put_candidates es m) ≡ (if contains es ep then some (fresh ep) else Map.get ep m)
unfolding put_candidates contains
get-put_candidates ep [] m = refl
get-put_candidates ep (e ∷ es) m = ground (
  arith,
  get-put_candidates ep es (Map.put e (fresh e) m),
  Map.get-put e ep (fresh e) m,
  addr_port_beq_iff e ep,
)

get-keep_candidates :
    (ep : AddrPort) (es : List AddrPort) (m : Map AddrPort Candidate)
    → Map.get ep (keep_candidates es m) ≡ (if contains es ep then Map.get ep m else none)
unfolding keep_candidates Map.get
get-keep_candidates ep es [] = ground arith
get-keep_candidates ep es ((e, c) ∷ m) =
    ground (arith, get-keep_candidates ep es m, addr_port_beq_iff e ep)

-- After the endpoints of the other side are added, the candidates are exactly those endpoints,
-- each as new: what was known of an endpoint before, its pongs and its round-trip time, is gone.
pub get-add_candidates_locked :
    (ep : AddrPort) (es : List AddrPort) (p : Peer)
    → Map.get ep (add_candidates_locked es p).candidates
      ≡ (if contains es ep then some (fresh ep) else none)
unfolding add_candidates_locked
get-add_candidates_locked ep es p = ground (
  arith,
  get-keep_candidates ep es (put_candidates es p.candidates),
  get-put_candidates ep es p.candidates,
)

-- A discovery packet and its message.
header_lem :
    (msgtype : ℕ) (b : List ℕ)
    → (is_discovery_packet (encode_header msgtype ++ b) ≡ true)
      × (decode_header (encode_header msgtype ++ b) ≡ some msgtype)
      × (drop 5 (encode_header msgtype ++ b) ≡ b)
unfolding is_discovery_packet encode_header decode_header uint32_bytes uint32_value
header_lem msgtype b = (ground arith, refl, refl)

module _ (json : EndpointsJson) where
  handle_endpoint_response_body :
      (ours theirs : List AddrPort) (now msgtype : ℕ) (p : Peer)
      → handle_endpoint_response json ours now (encode_header msgtype ++ json.marshal theirs) p
        ≡ add_candidates_locked theirs (record p { last_endpoint_sync = now })
  unfolding handle_endpoint_response encode_header uint32_bytes
  handle_endpoint_response_body ours theirs now msgtype p =
      ap (λ es. add_candidates_locked es (record p { last_endpoint_sync = now }))
        (json.unmarshal-marshal theirs)

  pub inbound_request :
      (ours theirs : List AddrPort) (now : ℕ) (p : Peer)
      → inbound_relay_packet json ours now
          (encode_header endpoints_request ++ json.marshal theirs)
          p
        ≡ ok (
          add_candidates_locked theirs (record p { last_endpoint_sync = now }),
          stun ∷ to_relay (encode_header endpoints_response ++ json.marshal ours) p.id ∷ [],
        )
  unfolding inbound_relay_packet relay_discovery handle_endpoint_request
  inbound_request ours theirs now p =
      rw
        (
          (header_lem endpoints_request (json.marshal theirs)).0,
          (header_lem endpoints_request (json.marshal theirs)).1,
        )
        (ap
          (λ q.
            ok (
              q,
              stun ∷ to_relay (encode_header endpoints_response ++ json.marshal ours) p.id ∷ [],
            ))
          (handle_endpoint_response_body ours theirs now endpoints_request p))

  pub inbound_response :
      (ours theirs : List AddrPort) (now : ℕ) (p : Peer)
      → inbound_relay_packet json ours now
          (encode_header endpoints_response ++ json.marshal theirs)
          p
        ≡ ok (add_candidates_locked theirs (record p { last_endpoint_sync = now }), [])
  unfolding inbound_relay_packet relay_discovery
  inbound_response ours theirs now p =
      rw
        (
          (header_lem endpoints_response (json.marshal theirs)).0,
          (header_lem endpoints_response (json.marshal theirs)).1,
        )
        (ap (λ q. ok (q, [])) (handle_endpoint_response_body ours theirs now endpoints_response p))

  -- A request and its answer, each delivered to the other side: both then know exactly the
  -- endpoints of the other, and nothing more is sent.
  endpoints_exchanged :
      (ours theirs : List AddrPort) (t1 t2 t3 : ℕ) (p q : Peer)
      → (request response : List ℕ) × (p1 q1 : Peer) × ((send_endpoint_request_locked json ours t1
            p).1
          ≡ stun ∷ to_relay request p.id ∷ [])
        × (inbound_relay_packet json theirs t2 request q
            ≡ ok (q1, stun ∷ to_relay response q.id ∷ []))
        × (inbound_relay_packet json ours t3 response
              (send_endpoint_request_locked json ours t1 p).0
            ≡ ok (p1, []))
        × ((ep : AddrPort)
            → (Map.get ep p1.candidates ≡ (if contains theirs ep then some (fresh ep) else none))
              × (Map.get ep q1.candidates ≡ (if contains ours ep then some (fresh ep) else none)))
  unfolding send_endpoint_request_locked
  endpoints_exchanged ours theirs t1 t2 t3 p q = (
    encode_header endpoints_request ++ json.marshal ours,
    encode_header endpoints_response ++ json.marshal theirs,
    add_candidates_locked theirs (record p { last_endpoint_sync = t3 }),
    add_candidates_locked ours (record q { last_endpoint_sync = t2 }),
    refl,
    inbound_request theirs ours t2 q,
    inbound_response ours theirs t3 (record p { last_endpoint_sync = t1 }),
    λ ep. (
      get-add_candidates_locked ep theirs (record p { last_endpoint_sync = t3 }),
      get-add_candidates_locked ep ours (record q { last_endpoint_sync = t2 }),
    ),
  )
