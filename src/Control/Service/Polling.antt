-- ===== src/Control/Service/Polling.antt =====
-- control/control_service/service.go, `Update`: what a node that polls is told.
use mathlib.Core.List.{Mem, mem-cons_self, mem-cons_of_mem}
use netproject.Shared.{
  ℕ, suc, ◌-◌, ◌≡◌, ◌≢◌, ◌⊎◌, List, [], ◌∷◌, true, false, none, some, arith, inl, inr,
}
use netproject.Shared.{◌==◌, nat_eq, All, Bool-cases, length, ap, ◌∙◌, ok}
use netproject.Shared.Map
use netproject.Shared.Map.{Map}
use netproject.Netip.{NetText}
use netproject.Keys.{is_zero, key_eq, key_beq_iff}
use netproject.Control.Database.{Node, Query, answers, get_node, get_nodes}
use netproject.Control.Service.{
  Service, UpdateRequest, Peer, answers_with, waits, peers_except, get_peers_of_node, update,
  update_checked, update_signalled, get_notify_chan, node_key_expired,
}
use netproject.Control.Service.Notify.{signalled, get_notify_chan_lem}

db-get_notify_chan : (id : ℕ) (s : Service) → (get_notify_chan id s).db ≡ s.db
unfolding get_notify_chan
db-get_notify_chan id s = ground arith

module _ ⦃text : NetText⦄ where
  open text use {addr_text, prefix_text}

  abbrev pub peer_of : Node → Peer
  peer_of n = record { id = n.id; ip = addr_text n.ip; public_key = n.node_key }

  -- A list of peers for a node: all the other nodes, and not itself.
  pub record ArePeersOf (id : ℕ) (nodes : List Node) (peers : List Peer) : Type 0 where
    pub not_self : All (λ p. p.id ≢ id) peers
    pub all_others : All (λ n. (n.id ≡ id) ⊎ Mem (peer_of n) peers) nodes

  others-weaken :
      (id : ℕ) (p : Peer) (nodes : List Node) (peers : List Peer)
      → All (λ n. (n.id ≡ id) ⊎ Mem (peer_of n) peers) nodes
      → All (λ n. (n.id ≡ id) ⊎ Mem (peer_of n) (p ∷ peers)) nodes
  others-weaken id p [] peers h = tt
  others-weaken id p (n ∷ nodes) peers (inl e, h) = (inl e, others-weaken id p nodes peers h)
  others-weaken id p (n ∷ nodes) peers (inr m, h) =
      (inr (mem-cons_of_mem p m), others-weaken id p nodes peers h)

  pub peers_except-ArePeersOf :
      (id : ℕ) (nodes : List Node) → ArePeersOf id nodes (peers_except id nodes)
  unfolding peers_except
  peers_except-ArePeersOf id [] = record { not_self = tt; all_others = tt }
  peers_except-ArePeersOf id (n ∷ nodes) =
      let rest = peers_except-ArePeersOf id nodes in
      elim (Bool-cases (n.id == id)) [
        | inl e ↦ rw e (record {
          not_self = rest.not_self;
          all_others = (inl (ground (arith, e)), rest.all_others);
        })
        | inr e ↦ rw e (record {
          not_self = (ground (arith, e), rest.not_self);
          all_others = (inr mem-cons_self, others-weaken id (peer_of n) nodes _ rest.all_others);
        })
      ]

  module _ (req : UpdateRequest) (s : Service) (node : Node) (now : ℕ) where
    -- The request passes the checks of `Update`.
    pub record IsAdmitted : Type 0 where
      pub nonzero : is_zero req.node_key ≡ false
      pub found : get_node answers req.node_key s.db ≡ ok node
      pub same_key : req.node_key ≡ node.node_key
      pub current : node_key_expired now node.node_key_expiry ≡ false

    update_admitted :
        (list : Query) → IsAdmitted → update answers list now req s ≡ update_checked list node req s
    unfolding update
    update_admitted list h = ground (
      arith,
      h.nonzero,
      h.found,
      h.current,
      (key_beq_iff req.node_key node.node_key).1 h.same_key,
    )

    pub update_full_peers :
        (nodes : List Node)
        → IsAdmitted
        → req.full_update ≡ true
        → get_nodes answers s.db ≡ ok nodes
        → update answers answers now req s ≡ (
          s,
          answers_with (
              ok (record {
                config = some (record {
                  id = node.id;
                  ip = addr_text node.ip;
                  prefix = prefix_text node.prefix;
                });
                peers = peers_except node.id nodes;
                peer_count = length (peers_except node.id nodes);
              })),
        )
    unfolding update_checked get_peers_of_node
    update_full_peers nodes h full g = rw (update_admitted answers h) (ground (arith, full, g))

    -- A full update answers at once, with the node's own configuration and exactly the other nodes.
    pub update_full :
        (nodes : List Node)
        → IsAdmitted
        → req.full_update ≡ true
        → get_nodes answers s.db ≡ ok nodes
        → (peers : List Peer) × (update answers answers now req s ≡ (
          s,
          answers_with (
              ok (record {
                config = some (record {
                  id = node.id;
                  ip = addr_text node.ip;
                  prefix = prefix_text node.prefix;
                });
                peers = peers;
                peer_count = length peers;
              })),
        ))
          × ArePeersOf node.id nodes peers
    update_full nodes h full g = (
      peers_except node.id nodes,
      update_full_peers nodes h full g,
      peers_except-ArePeersOf node.id nodes,
    )

    -- Any other update waits on the node's channel, which it makes where the node has none.
    pub update_waits :
        (list : Query)
        → IsAdmitted
        → req.full_update ≡ false
        → update answers list now req s ≡ (get_notify_chan node.id s, waits node.id)
    unfolding update_checked
    update_waits list h partial = rw (update_admitted list h) (ground (arith, partial))

  update_signalled-some :
      (a q : ℕ) (s : Service) (nodes : List Node)
      → Map.get a s.notify_chans ≡ some (suc q)
      → get_nodes answers s.db ≡ ok nodes
      → update_signalled answers a s
        ≡ some (
          record s { notify_chans = Map.put a q s.notify_chans },
          ok (record {
            config = none;
            peers = peers_except a nodes;
            peer_count = length (peers_except a nodes);
          }),
        )
  unfolding update_signalled get_peers_of_node
  update_signalled-some a q s nodes e g = ground (arith, e, g)

  -- When a node polls for the first time, every node that has a channel can leave its wait, and is
  -- told of exactly the other nodes of the database.
  pub first_poll_wakes :
      (a b p : ℕ) (s : Service) (nodes : List Node)
      → a ≢ b
      → Map.get a s.notify_chans ≡ some p
      → Map.get b s.notify_chans ≡ none
      → get_nodes answers s.db ≡ ok nodes
      → let s' = get_notify_chan b s in
        let peers = peers_except a nodes in
        (q : ℕ) × (update_signalled answers a s'
          ≡ some (
            record s' { notify_chans = Map.put a q s'.notify_chans },
            ok (record { config = none; peers = peers; peer_count = length peers }),
          ))
        × (suc q ≡ signalled p)
        × ArePeersOf a nodes peers
  first_poll_wakes a b p s nodes ne ga gb g = (
    signalled p - 1,
    update_signalled-some a (signalled p - 1) (get_notify_chan b s) nodes (bumped ∙ ap some pending)
        (rw (db-get_notify_chan b s) g),
    ground arith,
    peers_except-ArePeersOf a nodes,
  )
    where
      pending : signalled p ≡ suc (signalled p - 1)
      pending = ground arith

      bumped : Map.get a (get_notify_chan b s).notify_chans ≡ some (signalled p)
      bumped = ground (arith, get_notify_chan_lem b a s, gb, ga)
