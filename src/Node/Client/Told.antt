-- ===== src/Node/Client/Told.antt =====
-- node/node.go on node/client.go: what a node makes of its client's results and of the peers that
-- the control server names.
use netproject.Shared.{
  ℕ, ◌≡◌, ◌⊎◌, ◌≢◌, refl, List, [], ◌∷◌, Bool, true, false, Option, none, some, arith, Outcome, ok,
  inl, inr, All, nat_eq, ◌==◌, length, Bool-cases,
}
use netproject.Netip.{NetText}
use netproject.Control.Database.{Node}
use netproject.Control.Database.Readable.{IsReadable}
use netproject.Control.Service.{Service, Peer, peers_except}
use netproject.Control.Wire.{Json}
use netproject.Control.Http.{Ambient, Request, Response, handle}
use netproject.Node.Client.{ClientError}
use netproject.Node.Client.Answers.{answer_of}
use netproject.Node.Controller.Peers.{HaveAddresses}

-- What `Login` and `Up` see of the client's result.
abbrev pub reply {ℓ} : {A : Type ℓ} → Outcome ClientError A → Option A
reply (ok a) = some a
reply _ = none

abbrev pub works {ℓ} : {A : Type ℓ} → Outcome ClientError A → Bool
works (ok _) = true
works _ = false

module _ ⦃text : NetText⦄ where
  pub peers_except-HaveAddresses :
      (id : ℕ) (nodes : List Node) → All IsReadable nodes → HaveAddresses (peers_except id nodes)
  unfolding peers_except
  peers_except-HaveAddresses id [] h = tt
  peers_except-HaveAddresses id (n ∷ nodes) h =
      let rest = peers_except-HaveAddresses id nodes h.1 in
      elim (Bool-cases (n.id == id)) [
        | inl e ↦ rw e rest
        | inr e ↦ rw e (ground (arith, text.parse_addr-text n.ip h.0.ip_valid), rest)
      ]

  -- What holds of the ids of all peers holds of the ids of all nodes but the one itself.
  pub peers-All :
      (P : ℕ → Type 0) (id : ℕ) (nodes : List Node)
      → All (λ p. P p.id) (peers_except id nodes)
      → All (λ m. (m.id ≡ id) ⊎ P m.id) nodes
  unfolding peers_except
  peers-All P id [] h = tt
  peers-All P id (n ∷ nodes) h = elim (Bool-cases (n.id == id)) [
    | inl e ↦ (inl (ground (arith, e)), peers-All P id nodes (rw e at h))
    | inr e ↦ let (known, rest) = rw e at h in (inr known, peers-All P id nodes rest)
  ]

-- A count of peers that is their number.
pub counted : (ps : List Peer) → (length ps ≢ 0) ⊎ (ps ≡ [])
counted [] = inr refl
counted (p ∷ ps) = inl (λ e. absurd (omega arith))

module _ ⦃text : NetText⦄ ⦃json : Json⦄ where
  -- A client against a server: how it asks for what happens to a request.
  abbrev pub asks : Ambient → Service → Request → Option Response
  asks w s r = answer_of (handle w r s).1
