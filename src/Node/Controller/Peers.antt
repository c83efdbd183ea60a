-- ===== src/Node/Controller/Peers.antt =====
-- node/controller.go, `ProcessPeerUpdate`: what the controller and its mux know of the peers.
use netproject.Shared.{
  ℕ, ◌+◌, ◌≡◌, ◌≢◌, refl, ◌∙◌, List, [], ◌∷◌, Bool, true, false, none, some, arith, inl, inr,
  Bool-cases, Option-cases,
}
use netproject.Shared.{All, ap, ◌==◌, nat_eq, if◌then◌else◌}
use netproject.Shared.Map
use netproject.Shared.Map.{Map}
use netproject.Netip.{addr_eq, NetText}
use netproject.Control.Service.{Peer}
use netproject.Node.Mux.{Mux, register_peer}
use netproject.Node.Controller.{Controller, new_peers, add_peer, add_peers, process_peer_update}

-- Whether the controller knows a peer of this id.
abbrev pub knows : ℕ → Controller → Bool
knows id c = elim (Map.get id c.peers_by_id) [ none ↦ false | some _ ↦ true ]

new_peers-others :
    (known : Map ℕ ℕ) (ps : List Peer) (id peer : ℕ)
    → Map.get id known ≡ some peer
    → All (λ p. p.id ≢ id) (new_peers known ps)
unfolding new_peers
new_peers-others known [] id peer h = tt
new_peers-others known (p ∷ ps) id peer h = elim (Option-cases (Map.get p.id known)) [
  | inl e ↦
      rw (new_peers, e)
        (
          (λ same. absurd (ground (arith, e, h, ap (λ i. Map.get i known) same))),
          new_peers-others known ps id peer h,
        )
  | inr (q, e) ↦ rw (new_peers, e) (new_peers-others known ps id peer h)
]

new_peers-All :
    (P : ℕ → Type 0) (ps : List Peer) (c : Controller)
    → ((id : ℕ) → knows id c ≡ true → P id)
    → All (λ p. P p.id) (new_peers c.peers_by_id ps)
    → All (λ p. P p.id) ps
unfolding new_peers
new_peers-All P [] c old h = tt
new_peers-All P (p ∷ ps) c old h = elim (Option-cases (Map.get p.id c.peers_by_id)) [
  | inl e ↦
      let both : P p.id × All (λ p. P p.id) (new_peers c.peers_by_id ps) = ground (arith, e, h) in
      (both.0, new_peers-All P ps c old both.1)
  | inr (q, e) ↦ (old p.id (ground (arith, e)), new_peers-All P ps c old (ground (arith, e, h)))
]

module _ ⦃text : NetText⦄ where
  add_peer-get :
      (p : Peer) (c c' : Controller) (id : ℕ)
      → add_peer p c ≡ some c'
      → Map.get id c'.peers_by_id ≡ (if p.id == id then some c.made else Map.get id c.peers_by_id)
  unfolding add_peer
  add_peer-get p c c' id e = ground (arith, e, Map.get-put p.id id c.made c.peers_by_id)

  add_peers-get :
      (ps : List Peer) (c c' : Controller) (id : ℕ)
      → add_peers ps c ≡ some c'
      → All (λ p. p.id ≢ id) ps
      → Map.get id c'.peers_by_id ≡ Map.get id c.peers_by_id
  unfolding add_peers
  add_peers-get [] c c' id e h = ground (arith, e)
  add_peers-get (p ∷ ps) c c' id e h = elim (Option-cases (add_peer p c)) [
    | inl f ↦ absurd (ground (arith, f))
    | inr (d, f) ↦
        ground
          (arith, add_peers-get ps d c' id (ground (arith, f, e)) h.1, add_peer-get p c d id f, h.0)
  ]

  -- An update never forgets or replaces a peer: an id that the controller knows keeps its object,
  -- whether the update names it or not.
  pub process_peer_update-get :
      (update : List Peer) (count id peer : ℕ) (c c' : Controller)
      → Map.get id c.peers_by_id ≡ some peer
      → process_peer_update update count c ≡ some c'
      → Map.get id c'.peers_by_id ≡ some peer
  unfolding process_peer_update
  process_peer_update-get update count id peer c c' known e = elim (Bool-cases (count == 0)) [
    | inl f ↦ ground (arith, f, e, known)
    | inr f ↦ elim (Bool-cases c.up) [
      | inl g ↦
          add_peers-get (new_peers c.peers_by_id update) c c' id (ground (arith, f, g, e))
            (new_peers-others c.peers_by_id update id peer known)
          ∙ known
      | inr g ↦ ground (arith, f, g, e, known)
    ]
  ]

  add_peers-knows :
      (ps : List Peer) (c c' : Controller) (id : ℕ)
      → add_peers ps c ≡ some c'
      → knows id c ≡ true
      → knows id c' ≡ true
  unfolding add_peers
  add_peers-knows [] c c' id e h = ground (arith, e, h)
  add_peers-knows (p ∷ ps) c c' id e h = elim (Option-cases (add_peer p c)) [
    | inl f ↦ absurd (ground (arith, f))
    | inr (d, f) ↦
        add_peers-knows ps d c' id (ground (arith, f, e))
          (ground (arith, add_peer-get p c d id f, h))
  ]

  add_peers-learns :
      (ps : List Peer) (c c' : Controller)
      → add_peers ps c ≡ some c'
      → All (λ p. knows p.id c' ≡ true) ps
  unfolding add_peers
  add_peers-learns [] c c' e = tt
  add_peers-learns (p ∷ ps) c c' e = elim (Option-cases (add_peer p c)) [
    | inl f ↦ absurd (ground (arith, f))
    | inr (d, f) ↦ (
      add_peers-knows ps d c' p.id (ground (arith, f, e))
          (ground (arith, add_peer-get p c d p.id f)),
      add_peers-learns ps d c' (ground (arith, f, e)),
    )
  ]

  -- The addresses of the peers parse.
  abbrev pub HaveAddresses : List Peer → Type 0
  HaveAddresses ps =
      All (λ p. elim (text.parse_addr p.ip) [ none ↦ false | some _ ↦ true ] ≡ true) ps

  new_peers-HaveAddresses :
      (known : Map ℕ ℕ) (ps : List Peer) → HaveAddresses ps → HaveAddresses (new_peers known ps)
  unfolding new_peers
  new_peers-HaveAddresses known [] h = tt
  new_peers-HaveAddresses known (p ∷ ps) h = ground (arith, new_peers-HaveAddresses known ps h.1)

  add_peer-returns :
      (p : Peer) (c : Controller) (m : Mux)
      → c.mux ≡ some m
      → elim (text.parse_addr p.ip) [ none ↦ false | some _ ↦ true ] ≡ true
      → (d : Controller) × (m' : Mux) × (add_peer p c ≡ some d) × (d.mux ≡ some m')
  unfolding add_peer
  add_peer-returns p c m e h = elim (Option-cases (text.parse_addr p.ip)) [
    | inl f ↦ absurd (ground (arith, f, h))
    | inr (ip, f) ↦ (
      record c {
        mux = some (register_peer p.id c.made m);
        peers_by_id = Map.put p.id c.made c.peers_by_id;
        peers_by_ip = Map.put ip c.made c.peers_by_ip;
        made = c.made + 1;
      },
      register_peer p.id c.made m,
      ground (arith, f, e),
      refl,
    )
  ]

  add_peers-returns :
      (ps : List Peer) (c : Controller) (m : Mux)
      → c.mux ≡ some m
      → HaveAddresses ps
      → (d : Controller) × (add_peers ps c ≡ some d)
  unfolding add_peers
  add_peers-returns [] c m e h = (c, refl)
  add_peers-returns (p ∷ ps) c m e h =
      let (d, m', added, f) = add_peer-returns p c m e h.0 in
      let (d', rest) = add_peers-returns ps d m' f h.1 in (d', ground (arith, added, rest))

  -- A controller that is up processes an update whose addresses parse, and then knows every peer
  -- of it.
  pub process_peer_update-learns :
      (update : List Peer) (count : ℕ) (c : Controller) (m : Mux)
      → c.up ≡ true
      → c.mux ≡ some m
      → count ≢ 0
      → HaveAddresses update
      → (c' : Controller) × (process_peer_update update count c ≡ some c')
        × All (λ p. knows p.id c' ≡ true) update
  unfolding process_peer_update
  process_peer_update-learns update count c m g e n h =
      let (d, added) =
        add_peers-returns (new_peers c.peers_by_id update) c m e
          (new_peers-HaveAddresses c.peers_by_id update h) in
      (
        d,
        ground (arith, g, n, added),
        new_peers-All (λ id. knows id d ≡ true) update c
            (λ id k. add_peers-knows (new_peers c.peers_by_id update) c d id added k)
            (add_peers-learns (new_peers c.peers_by_id update) c d added),
      )
