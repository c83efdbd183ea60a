-- ===== src/Node/Controller/Restart.antt =====
-- node/controller.go, `Up` and `Down`: what is left of the peers, and failures.
use netproject.Shared.{ℕ, ◌≡◌, List, [], Bool, true, false, some, arith}
use netproject.Shared.{ok, err, nat_eq}
use netproject.Shared.Map
use netproject.Netip.{NetText}
use netproject.Control.Service.{Peer}
use netproject.Relay.Client.{connect, new_relay_client}
use netproject.Node.Endpoint.{AddrPort}
use netproject.Node.Mux.{
  Mux, no_bind, close_failed, bind, bind_listening, unbind, new_mux, dispatch_id, unknown_peer,
}
use netproject.Node.Controller.{
  Controller, ControllerConfig, mux_failed, already_running, Start, bring_up, bring_down, up_bound,
  new_peers, add_peers, process_peer_update,
}

-- A controller whose socket fails to close stays up for ever: its bind is no longer active, so
-- that every further `Down` fails, and `Up` finds it running.
pub bring_down_stuck :
    (closes relay_closes : Bool) (s : Start) (c : Controller) (m : Mux)
    → c.up ≡ true
    → c.mux ≡ some m
    → m.bind_active ≡ true
    → m.conn ≡ true
    → let stuck = (bring_down false relay_closes c).0 in
      ((bring_down false relay_closes c).1 ≡ err (mux_failed close_failed))
      × (bring_down closes relay_closes stuck ≡ (stuck, err (mux_failed no_bind)))
      × (bring_up s stuck ≡ (stuck, err already_running))
unfolding bring_down bring_up unbind
bring_down_stuck closes relay_closes s c m u e a b = ground (arith, u, e, a, b)

-- A start in which everything works.
pub record Works (s : Start) : Type 0 where
  pub here : AddrPort
  pub socket : ℕ
  pub listens : s.listen ≡ some here
  pub dials : s.dial ≡ some socket
  pub opens : s.tun_opens ≡ true
  pub is_set : s.address_is_set ≡ true

pub bring_up-Works :
    (s : Start) (config : ControllerConfig) (c : Controller)
    → Works s
    → c.up ≡ false
    → c.config ≡ some config
    → (m : Mux) × (bring_up s c ≡ (record c { mux = some m; has_tun = true; up = true }, ok tt))
      × (m.peers ≡ [])
unfolding bring_up up_bound bind bind_listening connect new_mux
bring_up-Works s config c w down e = (
  (bind s.listen s.interfaces s.dial
      (new_mux config.node_id config.udp_port (some (new_relay_client config.node_public)))).0,
  ground (arith, down, e, w.listens, w.dials, w.opens, w.is_set),
  ground (arith, w.listens, w.dials),
)

-- A controller that is brought up again, where everything that the start meets works, has a new
-- mux, in which the peers that it already knows are never registered: after an update that names
-- only those, every packet for the node is dropped.
pub restart_loses_peers :
    ⦃text : NetText⦄
    → (s : Start) (config : ControllerConfig) (id count : ℕ) (packet : List ℕ) (update : List Peer)
      (c : Controller)
    → Works s
    → c.up ≡ false
    → c.config ≡ some config
    → new_peers c.peers_by_id update ≡ []
    → (m : Mux) × ((bring_up s c).1 ≡ ok tt)
      × (process_peer_update update count (bring_up s c).0 ≡ some (bring_up s c).0)
      × ((bring_up s c).0.mux ≡ some m)
      × (dispatch_id id packet m ≡ unknown_peer)
unfolding process_peer_update add_peers dispatch_id Map.get
restart_loses_peers s config id count packet update c works down e known =
    let (m, started, empty) = bring_up-Works s config c works down e in
    (
      m,
      ground (arith, started),
      ground (arith, started, known),
      ground (arith, started),
      ground (arith, empty),
    )
