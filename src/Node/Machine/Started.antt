-- ===== src/Node/Machine/Started.antt =====
-- node/controller.go, `Up` on a machine: what it comes to.
use netproject.Shared.{
  ℕ, ◌≡◌, ◌≢◌, ◌↔◌, ◌⊎◌, refl, ◌∙◌, ap, sym, List, [], ◌∷◌, ◌++◌, Bool, true, false, Option, some,
  arith, inl, inr, All, Bool-cases, Option-cases,
}
use netproject.Shared.{
  Outcome, ok, err, panic, Process, continues, exits, Process-cases, Outcome-cases,
}
use netproject.Netip.{Addr, Prefix, NetText}
use netproject.Relay.Client.{RelayClient, new_relay_client}
use netproject.Node.Endpoint.{AddrPort}
use netproject.Node.Interfaces.{bind_interfaces}
use netproject.Node.Tunnel.{
  Tun, TunError, Os, other_os, Command, new_tun, device_commands, route_command,
  configure_ip_address, configure_ip_address_lem, run_commands, on_failure,
}
use netproject.Node.Mux.{Mux, MuxError, new_mux, bind, bind_listening, unbind}
use netproject.Node.Controller.{
  Controller, ControllerConfig, ControllerError, address_failed, bring_up, up_bound, fail_bound,
}
use netproject.Node.Machine.{
  Machine, is_set, up_configured, up_with_tun, up_on_bound, bring_up_on, start_of,
}

new_mux-bind :
    (here : AddrPort) (interfaces : ℕ → List AddrPort) (dial : Option ℕ) (id port : ℕ)
    (client : RelayClient)
    → (mux : Mux) × (bind (some here) interfaces dial (new_mux id port (some client))
        ≡ (mux, ok tt))
unfolding bind bind_listening new_mux
new_mux-bind here interfaces dial id port client = (_, refl)

on_failure-return : (c : Command) → on_failure c ≢ continues panic
unfolding on_failure
on_failure-return c e = ground (arith, e)

fail_bound-not-ok :
    (e : ControllerError) (b : Mux × Outcome MuxError (Unit {0})) (c c' : Controller)
    → continues (fail_bound e b c) ≢ continues (c', ok tt)
unfolding fail_bound
fail_bound-not-ok e (m, ok _) c c' h = ground (arith, h)
fail_bound-not-ok e (m, err _) c c' h = ground (arith, h)
fail_bound-not-ok e (m, panic) c c' h = ground (arith, h)

run_commands-return :
    (works : Command → Bool) (cs : List Command) → (run_commands works cs).1 ≢ continues panic
unfolding run_commands
run_commands-return works [] = λ e. ground (arith, e)
run_commands-return works (c ∷ cs) = elim (Bool-cases (works c)) [
  | inl w ↦ rw w (run_commands-return works cs)
  | inr w ↦ rw w (on_failure-return c)
]

module _ ⦃text : NetText⦄ where
  up_configured-exits :
      (m : Machine) (mux : Mux) (r : Process (Outcome TunError (Unit {0}))) (c : Controller)
      → (up_configured m mux r c ≡ exits) ↔ (r ≡ exits)
  unfolding up_configured
  up_configured-exits m mux exits c = ((λ e. refl), (λ e. refl))
  up_configured-exits m mux (continues (ok _)) c = ground arith
  up_configured-exits m mux (continues (err _)) c = ground arith
  up_configured-exits m mux (continues panic) c = ground arith

  up_configured-ok :
      (m : Machine) (mux : Mux) (r : Process (Outcome TunError (Unit {0}))) (c : Controller)
      → ((c' : Controller) × (up_configured m mux r c ≡ continues (c', ok tt)))
        ↔ (r ≡ continues (ok tt))
  unfolding up_configured
  up_configured-ok m mux exits c = ((λ h. ground (arith, h.1)), (λ e. absurd (ground (arith, e))))
  up_configured-ok m mux (continues (ok _)) c = ((λ h. refl), (λ e. (_, refl)))
  up_configured-ok m mux (continues (err _)) c = (
    (λ h. absurd (
        fail_bound-not-ok address_failed (unbind m.closes m.relay_closes mux)
          (record c { has_tun = true }) h.0 h.1)),
    (λ e. absurd (ground (arith, e))),
  )
  up_configured-ok m mux (continues panic) c =
      ((λ h. absurd (ground (arith, h.1))), (λ e. absurd (ground (arith, e))))

  configure_ip_address-return :
      (os : Os) (works : Command → Bool) (addr : Addr) (prefix : Prefix) (tun : Tun)
      → (configure_ip_address os works addr prefix tun).1 ≢ continues panic
  unfolding configure_ip_address
  configure_ip_address-return other_os works addr prefix tun = λ e. ground (arith, e)
  configure_ip_address-return os works addr prefix tun =
      run_commands-return works (device_commands os tun addr ++ (route_command os addr prefix ∷ []))

  -- The two ways of a bound mux.
  up_on_bound-up_bound :
      (m : Machine) (config : ControllerConfig) (mux : Mux) (c : Controller)
      → (up_on_bound m config (mux, ok tt) c ≡ exits)
        ⊎ (up_on_bound m config (mux, ok tt) c
            ≡ continues (up_bound (start_of m config) (mux, ok tt) c))
  unfolding up_on_bound up_with_tun up_configured up_bound start_of is_set new_tun
  up_on_bound-up_bound m config mux c = elim (Option-cases m.device) [
    | inl e ↦ rw e (inr refl)
    | inr (name, e) ↦
        let tun : Tun = record { name = name } in
        let set = configure_ip_address m.os m.works config.node_ip config.node_prefix tun in
        elim (Process-cases set.1) [
          | inr x ↦ rw (e, x) (inl refl)
          | inl (r, x) ↦ elim (Outcome-cases r) [
            | inl (_, y) ↦ rw (e, x, y) (inr refl)
            | inr (inl (_, y)) ↦ rw (e, x, y) (inr refl)
            | inr (inr y) ↦ absurd (
                configure_ip_address-return m.os m.works config.node_ip config.node_prefix tun
                  (x ∙ ap continues y))
          ]
        ]
  ]

  -- A start whose socket opens and whose device is made goes on with the commands.
  bring_up_on-up_configured :
      (m : Machine) (config : ControllerConfig) (here : AddrPort) (name : List ℕ) (c : Controller)
      → c.up ≡ false
      → c.config ≡ some config
      → m.listen ≡ some here
      → m.device ≡ some name
      → let tun : Tun = record { name = name } in
        (mux : Mux) × (bring_up_on m c
          ≡ up_configured m mux
              (configure_ip_address m.os m.works config.node_ip config.node_prefix tun).1
              c)
        × ((bring_up_on m c ≡ exits)
            ⊎ (bring_up_on m c ≡ continues (bring_up (start_of m config) c)))
  unfolding bring_up_on up_on_bound up_with_tun new_tun bring_up start_of
  bring_up_on-up_configured m config here name c down configured listens device =
      let (mux, b) =
        new_mux-bind here (bind_interfaces m.interfaces) m.dial config.node_id config.udp_port
          (new_relay_client config.node_public) in
      (
        mux,
        simp (down, configured, listens, b, device),
        elim (up_on_bound-up_bound m config mux c) [
          | inl e ↦ inl (simp (down, configured, listens, b, e))
          | inr e ↦ inr (simp (down, configured, listens, b, e))
        ],
      )

  -- `Up` of a controller that is down and has a configuration, on a system with tunnels where the
  -- socket opens and the device is made: it ends the whole program exactly where all commands of
  -- the device work and the route fails, it succeeds exactly where all commands work, and where it
  -- does not end the program it is `bring_up` on the answers that the machine gives.
  pub bring_up_on_lem :
      (m : Machine) (config : ControllerConfig) (here : AddrPort) (name : List ℕ) (c : Controller)
      → c.up ≡ false
      → c.config ≡ some config
      → m.os ≢ other_os
      → m.listen ≡ some here
      → m.device ≡ some name
      → let tun : Tun = record { name = name } in
        let before = device_commands m.os tun config.node_ip in
        let route = route_command m.os config.node_ip config.node_prefix in
        ((bring_up_on m c ≡ exits) ↔ (All (λ k. m.works k ≡ true) before × (m.works route ≡ false)))
        × (((c' : Controller) × (bring_up_on m c ≡ continues (c', ok tt)))
            ↔ All (λ k. m.works k ≡ true) (before ++ (route ∷ [])))
        × ((bring_up_on m c ≡ exits)
            ⊎ (bring_up_on m c ≡ continues (bring_up (start_of m config) c)))
  bring_up_on_lem m config here name c down configured os listens device =
      let (mux, runs, refines) =
        bring_up_on-up_configured m config here name c down configured listens device in
      let tun : Tun = record { name = name } in
      let set = configure_ip_address m.os m.works config.node_ip config.node_prefix tun in
      let (works, fails) =
        configure_ip_address_lem m.os m.works config.node_ip config.node_prefix tun os in
      let (exit_there, exit_back) = up_configured-exits m mux set.1 c in
      let (ok_there, ok_back) = up_configured-ok m mux set.1 c in
      (
        ((λ e. fails.0 (exit_there (sym runs ∙ e))), (λ h. runs ∙ exit_back (fails.1 h))),
        (
          (λ h. works.0 (ok_there (h.0, sym runs ∙ h.1))),
          (λ h. let (c', e) = ok_back (works.1 h) in (c', runs ∙ e)),
        ),
        refines,
      )
