-- ===== src/Node/Controller/Registered.antt =====
-- node/controller.go, `ProcessPeerUpdate`: the peers of the controller and of its mux.
use netproject.Shared.{
  ℕ, ◌+◌, ◌≡◌, refl, List, [], ◌∷◌, some, arith, inl, inr, Bool-cases, Option-cases,
}
use netproject.Shared.{subst, ◌==◌, nat_eq}
use netproject.Shared.Map
use netproject.Shared.Map.{Map}
use netproject.Netip.{Addr, addr_eq, NetText}
use netproject.Control.Service.{Peer}
use netproject.Node.Mux.{Mux, register_peer}
use netproject.Node.Controller.{Controller, new_peers, add_peer, add_peers, process_peer_update}

-- The controller's mux has the controller's peers: each id leads to the same object in both.
pub record IsRegistered (c : Controller) : Type 0 where
  pub mux : Mux
  pub is_mux : c.mux ≡ some mux
  pub same : (id : ℕ) → Map.get id mux.peers ≡ Map.get id c.peers_by_id

put-same :
    (id v : ℕ) (m n : Map ℕ ℕ)
    → ((j : ℕ) → Map.get j m ≡ Map.get j n)
    → (j : ℕ) → Map.get j (Map.put id v m) ≡ Map.get j (Map.put id v n)
put-same id v m n h j = rw (Map.get-put id j v m, Map.get-put id j v n, h j) refl

module _ ⦃text : NetText⦄ where
  add_peer-IsRegistered :
      (p : Peer) (c c' : Controller) → IsRegistered c → add_peer p c ≡ some c' → IsRegistered c'
  unfolding add_peer register_peer
  add_peer-IsRegistered p c c' h e = elim (Option-cases (text.parse_addr p.ip)) [
    | inl f ↦ absurd (ground (arith, f))
    | inr (ip, f) ↦ subst IsRegistered (added ip f) (record {
      mux = register_peer p.id c.made h.mux;
      is_mux = refl;
      same = put-same p.id c.made h.mux.peers c.peers_by_id h.same;
    })
  ]
    where
      added :
          (ip : Addr)
          → text.parse_addr p.ip ≡ some ip
          → record c {
            mux = some (register_peer p.id c.made h.mux);
            peers_by_id = Map.put p.id c.made c.peers_by_id;
            peers_by_ip = Map.put ip c.made c.peers_by_ip;
            made = c.made + 1;
          }
            ≡ c'
      added ip f = ground (arith, f, h.is_mux, e)

  add_peers-IsRegistered :
      (ps : List Peer) (c c' : Controller)
      → IsRegistered c
      → add_peers ps c ≡ some c'
      → IsRegistered c'
  unfolding add_peers
  add_peers-IsRegistered [] c c' h e = subst IsRegistered (ground (arith, e)) h
  add_peers-IsRegistered (p ∷ ps) c c' h e = elim (Option-cases (add_peer p c)) [
    | inl f ↦ absurd (ground (arith, f))
    | inr (d, f) ↦
        add_peers-IsRegistered ps d c' (add_peer-IsRegistered p c d h f) (ground (arith, f, e))
  ]

  -- After every update that does not crash, the mux delivers to the peers that the controller
  -- knows and to no others, if that was so before.
  pub process_peer_update-IsRegistered :
      (update : List Peer) (count : ℕ) (c c' : Controller)
      → IsRegistered c
      → process_peer_update update count c ≡ some c'
      → IsRegistered c'
  unfolding process_peer_update
  process_peer_update-IsRegistered update count c c' h e = elim (Bool-cases (count == 0)) [
    | inl f ↦ subst IsRegistered (ground (arith, f, e)) h
    | inr f ↦ elim (Bool-cases c.up) [
      | inl g ↦
          add_peers-IsRegistered (new_peers c.peers_by_id update) c c' h (ground (arith, f, g, e))
      | inr g ↦ subst IsRegistered (ground (arith, f, g, e)) h
    ]
  ]
