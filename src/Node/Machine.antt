-- ===== src/Node/Machine.antt =====
-- node/controller.go, `Up` on a machine: the mux takes its endpoints from the interfaces, the tunnel
-- its address from commands, and a route that fails ends the program.
pub mod Started
use netproject.Shared.{ℕ, List, Bool, true, false, Option, none, some}
use netproject.Shared.{Outcome, ok, err, panic, Process, continues, exits, if◌then◌else◌}
use netproject.Netip.{NetText}
use netproject.Relay.Client.{new_relay_client}
use netproject.Node.Endpoint.{AddrPort}
use netproject.Node.Interfaces.{Interface, bind_interfaces}
use netproject.Node.Tunnel.{Tun, TunError, Os, Command, new_tun, configure_ip_address}
use netproject.Node.Mux.{Mux, MuxError, new_mux, bind, unbind}
use netproject.Node.Controller.{
  Controller, ControllerConfig, ControllerError, already_running, tun_failed, address_failed,
  mux_failed, Start, fail_bound,
}

-- What `Up` meets: which commands work, the name of the device that the library makes, the local
-- address of the socket, the interfaces, and what the relay answers; the last two are the calls of
-- `Close` where the start has to be undone.
pub record Machine : Type 0 where
  pub os : Os
  pub works : Command → Bool
  pub device : Option (List ℕ)
  pub listen : Option AddrPort
  pub interfaces : Option (List Interface)
  pub dial : Option ℕ
  pub closes : Bool
  pub relay_closes : Bool

-- Whether `ConfigureIPAddress` returned without an error.
unfoldable is_set : Process (Outcome TunError (Unit {0})) → Bool
is_set (continues (ok _)) = true
is_set _ = false

module _ ⦃text : NetText⦄ where
  -- `Up` on the end of `ConfigureIPAddress`.
  unfoldable up_configured :
      Machine
      → Mux
      → Process (Outcome TunError (Unit {0}))
      → Controller
      → Process (Controller × Outcome ControllerError (Unit {0}))
  up_configured m mux exits c = exits
  up_configured m mux (continues (ok _)) c =
      continues (record c { mux = some mux; has_tun = true; up = true }, ok tt)
  up_configured m mux (continues (err _)) c =
      continues (
        fail_bound address_failed (unbind m.closes m.relay_closes mux)
          (record c { has_tun = true }))
  up_configured m mux (continues panic) c =
      continues (record c { mux = some mux; has_tun = true }, panic)

  -- `Up` once the mux is bound, on what `NewTun` gives.
  unfoldable up_with_tun :
      Machine
      → ControllerConfig
      → Mux
      → Outcome TunError Tun
      → Controller
      → Process (Controller × Outcome ControllerError (Unit {0}))
  unfolding up_configured
  up_with_tun m config mux (err _) c =
      continues (fail_bound tun_failed (unbind m.closes m.relay_closes mux) c)
  up_with_tun m config mux panic c = continues (record c { mux = some mux }, panic)
  up_with_tun m config mux (ok tun) c =
      up_configured m mux
        (configure_ip_address m.os m.works config.node_ip config.node_prefix tun).1 c

  -- `Up` on what `Bind` gave.
  unfoldable up_on_bound :
      Machine
      → ControllerConfig
      → Mux × Outcome MuxError (Unit {0})
      → Controller
      → Process (Controller × Outcome ControllerError (Unit {0}))
  unfolding up_with_tun
  up_on_bound m config (mux, err e) c = continues (record c { mux = some mux }, err (mux_failed e))
  up_on_bound m config (mux, panic) c = continues (record c { mux = some mux }, panic)
  up_on_bound m config (mux, ok _) c = up_with_tun m config mux (new_tun m.device) c

  -- `Up`, from the machine.
  unfoldable pub bring_up_on :
      Machine → Controller → Process (Controller × Outcome ControllerError (Unit {0}))
  unfolding up_on_bound
  bring_up_on m c = if c.up then continues (c, err already_running) else elim c.config [
    | none ↦ continues (c, panic)
    | some config ↦
        up_on_bound m config
          (bind m.listen (bind_interfaces m.interfaces) m.dial
            (new_mux config.node_id config.udp_port (some (new_relay_client config.node_public))))
          c
  ]

  -- The answers that the machine gives to a start with this configuration.
  unfoldable pub start_of : Machine → ControllerConfig → Start
  unfolding is_set
  start_of m config = record {
    listen = m.listen;
    interfaces = bind_interfaces m.interfaces;
    dial = m.dial;
    tun_opens = elim m.device [ none ↦ false | some _ ↦ true ];
    address_is_set = elim m.device [
      | none ↦ false
      | some name ↦
          is_set
            (configure_ip_address m.os m.works config.node_ip config.node_prefix
              (record { name = name })).1
    ];
    closes = m.closes;
    relay_closes = m.relay_closes;
  }
