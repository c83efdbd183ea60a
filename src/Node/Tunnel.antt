-- ===== src/Node/Tunnel.antt =====
-- node/tun.go and node/tun_nix.go: the tunnel device. The device itself is the library's; modelled
-- is how it is made and how its address is set, by commands of the operating system.
use netproject.Shared.{
  ℕ, ◌≡◌, ◌≢◌, ◌↔◌, refl, List, [], ◌∷◌, ◌++◌, Bool, true, false, Option, none, some, arith, inl,
  inr, All, Bool-cases,
}
use netproject.Shared.{Outcome, ok, err, Process, continues, exits, if◌then◌else◌, nat_eq}
use netproject.Netip.{Addr, Prefix, NetText}

abbrev pub mtu : ℕ
mtu = 1300

-- The MTU that the commands set.
abbrev command_mtu : ℕ
command_mtu = 1400

-- `NixTun` is the library's device, by its name.
pub record Tun : Type 0 where
  pub name : List ℕ

pub data TunError : Type 0 where
  no_device ip_link_failed ip_addr_failed ifconfig_failed no_tun_support : TunError

-- `NewTun`, by the name of the device that `water.New` makes.
unfoldable pub new_tun : Option (List ℕ) → Outcome TunError Tun
new_tun none = err no_device
new_tun (some name) = ok (record { name = name })

unfoldable pub tun_mtu : Tun → ℕ
tun_mtu tun = mtu

pub data Os : Type 0 where
  linux darwin other_os : Os

-- The commands, with their arguments in the order of the command line.
pub data Command : Type 0 where
  ip_link_mtu : List ℕ → ℕ → Command
  ip_addr_add : List ℕ → List ℕ → Command
  ip_link_up : List ℕ → Command
  ip_route_add : List ℕ → List ℕ → Command
  ifconfig : List ℕ → ℕ → List ℕ → List ℕ → Command
  route_add : List ℕ → List ℕ → Command

-- A command whose failure the function returns; a route's failure ends the program.
unfoldable pub on_failure : Command → Process (Outcome TunError (Unit {0}))
on_failure (ip_link_mtu _ _) = continues (err ip_link_failed)
on_failure (ip_addr_add _ _) = continues (err ip_addr_failed)
on_failure (ip_link_up _) = continues (err ip_link_failed)
on_failure (ip_route_add _ _) = exits
on_failure (ifconfig _ _ _ _) = continues (err ifconfig_failed)
on_failure (route_add _ _) = exits

-- The commands one after the other, up to the first that fails: those that were run, and the end.
unfoldable pub run_commands :
    (Command → Bool) → List Command → List Command × Process (Outcome TunError (Unit {0}))
unfolding on_failure
run_commands works [] = ([], continues (ok tt))
run_commands works (c ∷ cs) =
    let rest = run_commands works cs in
    if works c then (c ∷ rest.0, rest.1) else (c ∷ [], on_failure c)

-- "/32".
abbrev host_bits : List ℕ
host_bits = b'/' ∷ b'3' ∷ b'2' ∷ []

on_failure-not-ok : (c : Command) → on_failure c ≢ continues (ok tt)
unfolding on_failure
on_failure-not-ok c e = ground (arith, e)

run_commands-ok :
    (works : Command → Bool) (cs : List Command)
    → ((run_commands works cs).1 ≡ continues (ok tt)) ↔ All (λ c. works c ≡ true) cs
unfolding run_commands
run_commands-ok works [] = ((λ e. tt), (λ h. refl))
run_commands-ok works (c ∷ cs) =
    let (there, back) = run_commands-ok works cs in
    elim (Bool-cases (works c)) [
      | inl e ↦ rw e ((λ r. (refl, there r)), (λ h. back h.1))
      | inr e ↦ rw e ((λ r. absurd (on_failure-not-ok c r)), (λ h. absurd (ground (arith, h.0))))
    ]

-- Where of the commands only the last may end the program, it does so exactly where all before it
-- work and it does not.
run_commands-exits :
    (works : Command → Bool) (cs : List Command) (last : Command)
    → All (λ c. on_failure c ≢ exits) cs
    → on_failure last ≡ exits
    → ((run_commands works (cs ++ (last ∷ []))).1 ≡ exits)
      ↔ (All (λ c. works c ≡ true) cs × (works last ≡ false))
unfolding run_commands
run_commands-exits works [] last h l = elim (Bool-cases (works last)) [
  | inl w ↦ rw w ((λ e. absurd (ground (arith, e))), (λ g. absurd (ground (arith, g.1))))
  | inr w ↦ rw w ((λ e. (tt, refl)), (λ g. l))
]
run_commands-exits works (c ∷ cs) last h l =
    let (there, back) = run_commands-exits works cs last h.1 l in
    elim (Bool-cases (works c)) [
      | inl w ↦ rw w ((λ e. ((refl, (there e).0), (there e).1)), (λ g. back (g.0.1, g.1)))
      | inr w ↦ rw w ((λ e. absurd (h.0 e)), (λ g. absurd (ground (arith, g.0.0))))
    ]

module _ ⦃text : NetText⦄ where
  open text use {addr_text, prefix_text}

  -- The commands before the route, and the route.
  unfoldable pub device_commands : Os → Tun → Addr → List Command
  device_commands linux tun addr =
      ip_link_mtu tun.name command_mtu
      ∷ ip_addr_add (addr_text addr ++ host_bits) tun.name
      ∷ ip_link_up tun.name
      ∷ []
  device_commands darwin tun addr =
      ifconfig tun.name command_mtu (addr_text addr) (addr_text addr) ∷ []
  device_commands other_os tun addr = []

  unfoldable pub route_command : Os → Addr → Prefix → Command
  route_command darwin addr prefix = route_add (prefix_text prefix) (addr_text addr)
  route_command _ addr prefix = ip_route_add (prefix_text prefix) (addr_text addr)

  -- `ConfigureIPAddress`, by which commands work.
  unfoldable pub configure_ip_address :
      Os
      → (Command → Bool)
      → Addr
      → Prefix
      → Tun
      → List Command × Process (Outcome TunError (Unit {0}))
  unfolding run_commands device_commands route_command
  configure_ip_address other_os works addr prefix tun = ([], continues (err no_tun_support))
  configure_ip_address os works addr prefix tun =
      run_commands works (device_commands os tun addr ++ (route_command os addr prefix ∷ []))

  device_commands-return :
      (os : Os) (tun : Tun) (addr : Addr)
      → All (λ c. on_failure c ≢ exits) (device_commands os tun addr)
  unfolding device_commands on_failure
  device_commands-return linux tun addr = (
    (λ e. absurd (ground (arith, e))),
    ((λ e. absurd (ground (arith, e))), ((λ e. absurd (ground (arith, e))), tt)),
  )
  device_commands-return darwin tun addr = ((λ e. absurd (ground (arith, e))), tt)
  device_commands-return other_os tun addr = tt

  route_command-exits :
      (os : Os) (addr : Addr) (prefix : Prefix) → on_failure (route_command os addr prefix) ≡ exits
  unfolding route_command on_failure
  route_command-exits os addr prefix = ground arith

  -- On a system with tunnels, setting the address succeeds exactly where every command works, and
  -- ends the program exactly where all but the route work.
  pub configure_ip_address_lem :
      (os : Os) (works : Command → Bool) (addr : Addr) (prefix : Prefix) (tun : Tun)
      → os ≢ other_os
      → let result = (configure_ip_address os works addr prefix tun).1 in
        ((result ≡ continues (ok tt)) ↔ (
          All
            (λ c. works c ≡ true)
            (device_commands os tun addr ++ (route_command os addr prefix ∷ []))))
        × ((result ≡ exits) ↔ (
            All (λ c. works c ≡ true) (device_commands os tun addr)
            × (works (route_command os addr prefix) ≡ false)))
  unfolding configure_ip_address
  configure_ip_address_lem other_os works addr prefix tun h = absurd (h refl)
  configure_ip_address_lem os works addr prefix tun h = (
    run_commands-ok works (device_commands os tun addr ++ (route_command os addr prefix ∷ [])),
    run_commands-exits works (device_commands os tun addr) (route_command os addr prefix)
        (device_commands-return os tun addr) (route_command-exits os addr prefix),
  )
