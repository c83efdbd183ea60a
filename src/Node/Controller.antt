-- ===== src/Node/Controller.antt =====
-- node/controller.go: the mux, the tunnel and the peers of a node. A peer object is a number,
-- given in the order of their making. What the operating system answers is an argument.
pub mod Registered
pub mod Peers
pub mod Restart
pub mod Tests
use netproject.Shared.{ℕ, ◌+◌, List, [], ◌∷◌, ◌++◌, Bool, true, false, not, Option, none, some}
use netproject.Shared.{Outcome, ok, err, panic, ◌==◌, nat_eq, if◌then◌else◌, length, take, drop}
use netproject.Shared.Map
use netproject.Shared.Map.{Map}
use netproject.Netip.{Addr, addr_eq, Prefix, in_prefix, NetText}
use netproject.Keys.{PublicKey}
use netproject.Control.Service.{Peer}
use netproject.Relay.Client.{new_relay_client}
use netproject.Node.Endpoint.{AddrPort}
use netproject.Node.Mux.{Mux, MuxError, new_mux, bind, unbind, register_peer}

pub record ControllerConfig : Type 0 where
  pub node_id : ℕ
  pub node_ip : Addr
  pub node_prefix : Prefix
  pub udp_port : ℕ
  pub node_public : PublicKey

-- `has_tun` says whether `tun` is set; `made` is how many peer objects were made.
pub record Controller : Type 0 where
  pub peers_by_ip : Map Addr ℕ
  pub peers_by_id : Map ℕ ℕ
  pub mux : Option Mux
  pub has_tun : Bool
  pub config : Option ControllerConfig
  pub up : Bool
  pub made : ℕ

pub data ControllerError : Type 0 where
  already_running not_up tun_failed address_failed : ControllerError
  mux_failed : MuxError → ControllerError

unfoldable pub new_controller : Controller
new_controller = record {
  peers_by_ip = [];
  peers_by_id = [];
  mux = none;
  has_tun = false;
  config = none;
  up = false;
  made = 0;
}

unfoldable pub set_config : ControllerConfig → Controller → Controller
set_config config c = record c { config = some config }

-- What a start meets: `ListenPacket`, the interfaces, the relay, the tunnel, and the two calls of
-- `Close` where it has to be undone.
pub record Start : Type 0 where
  pub listen : Option AddrPort
  pub interfaces : ℕ → List AddrPort
  pub dial : Option ℕ
  pub tun_opens : Bool
  pub address_is_set : Bool
  pub closes : Bool
  pub relay_closes : Bool

-- `fail` in `Up` once the mux is bound, by what its `Unbind` gives; its error is ignored.
unfoldable pub fail_bound :
    ControllerError
    → Mux × Outcome MuxError (Unit {0})
    → Controller
    → Controller × Outcome ControllerError (Unit {0})
fail_bound e (m, panic) c = (record c { mux = some m }, panic)
fail_bound e (m, ok _) c = (record c { mux = none; has_tun = false }, err e)
fail_bound e (m, err _) c = (record c { mux = none; has_tun = false }, err e)

-- `Up` on what `Bind` gave.
unfoldable pub up_bound :
    Start
    → Mux × Outcome MuxError (Unit {0})
    → Controller
    → Controller × Outcome ControllerError (Unit {0})
unfolding fail_bound
up_bound s (m, err e) c = (record c { mux = some m }, err (mux_failed e))
up_bound s (m, panic) c = (record c { mux = some m }, panic)
up_bound s (m, ok _) c =
    if not s.tun_opens
    then fail_bound tun_failed (unbind s.closes s.relay_closes m) c
    else if not s.address_is_set
    then fail_bound address_failed (unbind s.closes s.relay_closes m) (record c { has_tun = true })
    else (record c { mux = some m; has_tun = true; up = true }, ok tt)

-- `Up`; without a configuration it panics.
unfoldable pub bring_up : Start → Controller → Controller × Outcome ControllerError (Unit {0})
unfolding up_bound
bring_up s c = if c.up then (c, err already_running) else elim c.config [
  | none ↦ (c, panic)
  | some config ↦
      up_bound s
        (bind s.listen s.interfaces s.dial
          (new_mux config.node_id config.udp_port (some (new_relay_client config.node_public))))
        c
]

-- `Down`; where `Unbind` fails it returns at once.
unfoldable pub bring_down :
    Bool → Bool → Controller → Controller × Outcome ControllerError (Unit {0})
bring_down closes relay_closes c = if not c.up then (c, err not_up) else elim c.mux [
  | none ↦ (c, panic)
  | some m ↦
      let (unbound, result) = unbind closes relay_closes m in
      elim result [
        | ok _ ↦ (record c { mux = none; has_tun = false; up = false }, ok tt)
        | err e ↦ (record c { mux = some unbound }, err (mux_failed e))
        | panic ↦ (record c { mux = some unbound }, panic)
      ]
]

-- The first loop of `ProcessPeerUpdate`: the peers that are not known.
unfoldable pub new_peers : Map ℕ ℕ → List Peer → List Peer
new_peers known [] = []
new_peers known (p ∷ ps) = elim (Map.get p.id known) [
  | none ↦ p ∷ new_peers known ps
  | some _ ↦ new_peers known ps
]

module _ ⦃text : NetText⦄ where
  -- `AddPeer`; an address that does not parse panics, and so does a missing mux.
  unfoldable pub add_peer : Peer → Controller → Option Controller
  add_peer p c = elim (text.parse_addr p.ip) [
    | none ↦ none
    | some ip ↦ elim c.mux [
      | none ↦ none
      | some m ↦ some (record c {
        mux = some (register_peer p.id c.made m);
        peers_by_id = Map.put p.id c.made c.peers_by_id;
        peers_by_ip = Map.put ip c.made c.peers_by_ip;
        made = c.made + 1;
      })
    ]
  ]

  unfoldable pub add_peers : List Peer → Controller → Option Controller
  unfolding add_peer
  add_peers [] c = some c
  add_peers (p ∷ ps) c = elim (add_peer p c) [ none ↦ none | some c' ↦ add_peers ps c' ]

  -- `ProcessPeerUpdate`; `none` is a panic. `DeletePeer` and `UpdatePeer` do nothing.
  unfoldable pub process_peer_update : List Peer → ℕ → Controller → Option Controller
  unfolding add_peers new_peers
  process_peer_update update count c =
      if count == 0
      then some c
      else if not c.up
      then some c
      else add_peers (new_peers c.peers_by_id update) c

-- The length of the buffer of `startTunLoop`.
abbrev pub tun_buffer : ℕ
tun_buffer = 1500

-- What a round of the tunnel's loop does: it ends the loop, drops what was read, or gives the
-- packet to a peer object.
pub data TunRound : Type 0 where
  tun_stops tun_drops : TunRound
  to_object : ℕ → List ℕ → TunRound

-- The loop of `startTunLoop` by the destination of a packet.
unfoldable pub tun_dispatch : Addr → List ℕ → ControllerConfig → Controller → TunRound
tun_dispatch dst packet config c =
    if dst == config.node_ip
    then tun_drops
    else if not (in_prefix config.node_prefix dst)
    then tun_drops
    else elim (Map.get dst c.peers_by_ip) [
      | none ↦ tun_drops
      | some object ↦ to_object object packet
    ]

-- A packet that was read, over the old contents of the buffer; `parse_dst` is the destination that
-- `ipv4.ParseHeader` finds, which gets the whole buffer.
unfoldable pub tun_read :
    (List ℕ → Option Addr) → List ℕ → List ℕ → ControllerConfig → Controller → TunRound
unfolding tun_dispatch
tun_read parse_dst packet old config c = elim (parse_dst (packet ++ drop (length packet) old)) [
  | none ↦ tun_drops
  | some dst ↦ tun_dispatch dst packet config c
]

-- One round, on what `Read` gives, `none` for an error, and the old contents of the buffer.
unfoldable pub tun_round :
    (List ℕ → Option Addr) → Option (List ℕ) → List ℕ → ControllerConfig → Controller → TunRound
unfolding tun_read
tun_round parse_dst none old config c = tun_stops
tun_round parse_dst (some read) old config c =
    tun_read parse_dst (take tun_buffer read) old config c
