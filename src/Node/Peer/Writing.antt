-- ===== src/Node/Peer/Writing.antt =====
-- node/peer.go, `write` and `pingAllLocked`: how a data packet leaves.
use netproject.Shared.{
  ℕ, ◌+◌, ◌≡◌, ◌≢◌, ◌≤◌, ◌<◌, ◌⊎◌, inl, inr, refl, ◌∙◌, List, [], ◌∷◌, ◌++◌, Bool, true, false,
  ◌||◌, some, arith,
}
use netproject.Shared.{◌==◌, nat_eq, ltb, leb, All, Bool-cases, length, ap}
use netproject.Shared.Map
use netproject.Shared.Map.{Map}
use netproject.Node.Endpoint.{
  AddrPort, addr_port_eq, no_endpoint, is_endpoint, EndpointsJson, encode_header, ping,
  endpoints_request,
}
use netproject.Node.Peer.{
  Peer, Candidate, Effect, to_udp, to_relay, to_tun, stun, seconds, since, write, write_relayed,
  write_direct, ping_candidates, ping_all_locked, handle_pong, re_evaluate,
}

abbrev pub IsPing : Effect → Type 0
IsPing (to_udp b ep) = b ≡ encode_header ping
IsPing (to_relay b dst) = ⊥
IsPing (to_tun b) = ⊥
IsPing stun = ⊥

module _ (json : EndpointsJson) (ours : List AddrPort) where
  -- What `write` may send before the data: a STUN request and a request for endpoints, each once,
  -- or nothing but pings.
  abbrev pub IsControl : ℕ → List Effect → Type 0
  IsControl id es =
      (es ≡ stun ∷ to_relay (encode_header endpoints_request ++ json.marshal ours) id ∷ [])
      ⊎ All IsPing es

  -- How a write sends its data: last, once, through the relay or to the active address.
  pub record Sends (b : List ℕ) (p : Peer) (result : Peer × List Effect) : Type 0 where
    pub control : List Effect
    pub data_packet : Effect
    pub in_order : result.1 ≡ control ++ (data_packet ∷ [])
    pub one_way :
        (data_packet ≡ to_relay b p.id)
        ⊎ ((data_packet ≡ to_udp b p.active_addr) × (is_endpoint p.active_addr ≡ true))
    pub only_control : IsControl p.id control
    pub same_id : result.0.id ≡ p.id

  ping_candidates-IsPing :
      (now : ℕ) (force : Bool) (m : Map AddrPort Candidate)
      → All IsPing (ping_candidates now force m).1
  unfolding ping_candidates
  ping_candidates-IsPing now force [] = tt
  ping_candidates-IsPing now force ((ep, c) ∷ m) =
      ground (arith, ping_candidates-IsPing now force m)

  write_relayed-Sends :
      (now : ℕ) (b : List ℕ) (p : Peer) → Sends b p (write_relayed json ours now b p)
  unfolding write_relayed
  write_relayed-Sends now b p =
      elim (Bool-cases
        (length p.candidates == 0 || ltb (seconds 300) (since now p.last_endpoint_sync))) [
          | inl e ↦ rw e (record {
            control =
                stun ∷ to_relay (encode_header endpoints_request ++ json.marshal ours) p.id ∷ [];
            data_packet = to_relay b p.id;
            in_order = refl;
            one_way = inl refl;
            only_control = inl refl;
            same_id = refl;
          })
          | inr e ↦ elim (Bool-cases (ltb (seconds 10) (since now p.last_full_check))) [
            | inl f ↦
                rw (e, f)
                  (record {
                    control = (ping_candidates now false p.candidates).1;
                    data_packet = to_relay b p.id;
                    in_order = refl;
                    one_way = inl refl;
                    only_control = inr (ping_candidates-IsPing now false p.candidates);
                    same_id = refl;
                  })
            | inr f ↦
                rw (e, f)
                  (record {
                    control = [];
                    data_packet = to_relay b p.id;
                    in_order = refl;
                    one_way = inl refl;
                    only_control = inr tt;
                    same_id = refl;
                  })
          ]
        ]

  write_direct-Sends :
      (now : ℕ) (b : List ℕ) (p : Peer)
      → is_endpoint p.active_addr ≡ true
      → Sends b p (write_direct json ours now b p)
  unfolding write_direct
  write_direct-Sends now b p active =
      elim (Bool-cases (ltb (seconds 20) (since now p.last_full_check))) [
        | inl e ↦ rw e (record {
          control = (ping_candidates now false p.candidates).1;
          data_packet = to_udp b p.active_addr;
          in_order = refl;
          one_way = inr (refl, active);
          only_control = inr (ping_candidates-IsPing now false p.candidates);
          same_id = refl;
        })
        | inr e ↦ elim (Bool-cases (leb (seconds 9) (since now p.last_active_check))) [
          | inl f ↦
              rw (e, f)
                (record {
                  control = to_udp (encode_header ping) p.active_addr ∷ [];
                  data_packet = to_udp b p.active_addr;
                  in_order = refl;
                  one_way = inr (refl, active);
                  only_control = inr (refl, tt);
                  same_id = refl;
                })
          | inr f ↦ elim (Bool-cases (ltb (seconds 10) (since now p.last_active_addr_pong))) [
            | inl g ↦
                rw (e, f, g)
                  (record {
                    control = [];
                    data_packet = to_relay b p.id;
                    in_order = refl;
                    one_way = inl refl;
                    only_control = inr tt;
                    same_id = refl;
                  })
            | inr g ↦
                rw (e, f, g)
                  (record {
                    control = [];
                    data_packet = to_udp b p.active_addr;
                    in_order = refl;
                    one_way = inr (refl, active);
                    only_control = inr tt;
                    same_id = refl;
                  })
          ]
        ]
      ]

  -- Every write sends its data exactly once and last, through the relay to the peer or to the
  -- active address if there is one, and before it only pings, or else one STUN request and then
  -- one request for endpoints to the peer through the relay; the peer's id stays.
  pub write-Sends : (now : ℕ) (b : List ℕ) (p : Peer) → Sends b p (write json ours now b p)
  unfolding write
  write-Sends now b p = elim (Bool-cases (is_endpoint p.active_addr)) [
    | inl e ↦ rw e (write_direct-Sends now b p e)
    | inr e ↦ rw e (write_relayed-Sends now b p)
  ]

-- The endpoints that a peer knows, and how often it pinged them since they were told to it.
abbrev pub known : Map AddrPort Candidate → List AddrPort
known [] = []
known ((ep, c) ∷ m) = ep ∷ known m

abbrev pub pings_sent : Map AddrPort Candidate → ℕ
pings_sent [] = 0
pings_sent ((ep, c) ∷ m) = c.attempts + pings_sent m

ping_candidates-known :
    (now : ℕ) (force : Bool) (m : Map AddrPort Candidate)
    → (known (ping_candidates now force m).0 ≡ known m)
      × (pings_sent (ping_candidates now force m).0
          ≡ pings_sent m + length (ping_candidates now force m).1)
unfolding ping_candidates
ping_candidates-known now force [] = (refl, refl)
ping_candidates-known now force ((ep, c) ∷ m) = ground (arith, ping_candidates-known now force m)

-- A full check counts each ping that it sends, and forgets no endpoint: a candidate that is found
-- to be dead stays.
pub ping_all_locked-known :
    (now : ℕ) (force : Bool) (p : Peer)
    → (known (ping_all_locked now force p).0.candidates ≡ known p.candidates)
      × (pings_sent (ping_all_locked now force p).0.candidates
          ≡ pings_sent p.candidates + length (ping_all_locked now force p).1)
unfolding ping_all_locked
ping_all_locked-known now force p = ping_candidates-known now force p.candidates

handle_pong_first :
    (now : ℕ) (ep : AddrPort) (c : Candidate) (p : Peer)
    → Map.get ep p.candidates ≡ some c
    → c.received_pong ≢ 0
    → is_endpoint p.active_addr ≡ false
    → ((handle_pong now ep p).0.active_addr ≡ ep)
      × ((handle_pong now ep p).0.last_full_check ≡ p.last_full_check)
      × ((handle_pong now ep p).0.last_active_check ≡ p.last_active_check)
      × ((handle_pong now ep p).0.last_active_addr_pong ≡ p.last_active_addr_pong)
      × ((handle_pong now ep p).0.id ≡ p.id)
unfolding handle_pong re_evaluate
handle_pong_first now ep c p h first inactive = ground arith

module _ (json : EndpointsJson) (ours : List AddrPort) where
  write_first :
      (now : ℕ) (b : List ℕ) (p : Peer)
      → is_endpoint p.active_addr ≡ true
      → now ≤ p.last_full_check + seconds 20
      → p.last_active_check + seconds 9 ≤ now
      → (write json ours now b p).0 ≡ record p { last_active_check = now }
  unfolding write write_direct since
  write_first now b p active full check = ground arith

  write_lost :
      (now : ℕ) (b : List ℕ) (p : Peer)
      → is_endpoint p.active_addr ≡ true
      → now ≤ p.last_full_check + seconds 20
      → now < p.last_active_check + seconds 9
      → p.last_active_addr_pong + seconds 10 < now
      → ((write json ours now b p).0.active_addr ≡ no_endpoint)
        × ((write json ours now b p).1 ≡ to_relay b p.id ∷ [])
  unfolding write write_direct since
  write_lost now b p active full check stale = ground arith

  write_twice :
      (t1 t2 : ℕ) (b1 b2 : List ℕ) (p : Peer)
      → is_endpoint p.active_addr ≡ true
      → p.last_active_addr_pong ≡ 0
      → p.last_active_check + seconds 9 ≤ t1
      → seconds 10 < t1
      → t1 ≤ t2
      → t2 < t1 + seconds 9
      → t2 ≤ p.last_full_check + seconds 20
      → ((write json ours t2 b2 (write json ours t1 b1 p).0).0.active_addr ≡ no_endpoint)
        × ((write json ours t2 b2 (write json ours t1 b1 p).0).1 ≡ to_relay b2 p.id ∷ [])
  write_twice t1 t2 b1 b2 p active no_pong check late order soon full =
      rw (write_first t1 b1 p active (omega arith) (omega arith))
        (write_lost t2 b2 (record p { last_active_check = t1 }) active full soon (omega arith))

  -- The first active address is given up before its check can be answered: after a first write,
  -- which pings it, a second one within nine seconds goes through the relay and clears the
  -- address, where no pong of an active address came before and the last full check is recent.
  pub first_active_addr_lost :
      (t0 t1 t2 : ℕ) (b1 b2 : List ℕ) (ep : AddrPort) (c : Candidate) (p : Peer)
      → Map.get ep p.candidates ≡ some c
      → c.received_pong ≢ 0
      → is_endpoint p.active_addr ≡ false
      → is_endpoint ep ≡ true
      → p.last_active_addr_pong ≡ 0
      → p.last_active_check + seconds 9 ≤ t1
      → seconds 10 < t1
      → t1 ≤ t2
      → t2 < t1 + seconds 9
      → t2 ≤ p.last_full_check + seconds 20
      → ((handle_pong t0 ep p).0.active_addr ≡ ep)
        × ((write json ours t2 b2 (write json ours t1 b1 (handle_pong t0 ep p).0).0).0.active_addr
            ≡ no_endpoint)
        × ((write json ours t2 b2 (write json ours t1 b1 (handle_pong t0 ep p).0).0).1
            ≡ to_relay b2 p.id ∷ [])
  first_active_addr_lost t0 t1 t2 b1 b2 ep c p h first inactive valid no_pong check late order soon
        full =
      let facts = handle_pong_first t0 ep c p h first inactive in
      let lost =
        write_twice t1 t2 b1 b2 (handle_pong t0 ep p).0 (rw (facts.0) valid) (omega (arith, facts))
          (omega (arith, facts)) late order soon (omega (arith, facts)) in
      (facts.0, lost.0, lost.1 ∙ ap (λ i. to_relay b2 i ∷ []) facts.4)
