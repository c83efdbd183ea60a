-- ===== src/Node/Interfaces.antt =====
-- node/udpmux.go, `getEndpointsForUnspecified`: the addresses of the machine's interfaces. What
-- package `net` answers is an argument; an IP is a slice of bytes, as there.
use netproject.Shared.{
  ℕ, ◌+◌, ◌*◌, ◌≡◌, refl, List, [], ◌∷◌, ◌++◌, Bool, true, false, not, ◌&&◌, Option, none, some,
  arith, inl, inr, All, All-append, Bool-cases, Option-cases, ◌⊎◌, subst, sym,
}
use netproject.Shared.{
  Outcome, ok, err, ◌==◌, nat_eq, list_eq, list_beq, if◌then◌else◌, length, take, drop,
}
use netproject.Netip.{Addr, ip4, ip6, addr_eq}
use netproject.Node.Endpoint.{AddrPort, no_endpoint}

-- `net.Addr` as the function tells its types apart.
pub data IfaceAddr : Type 0 where
  udp_addr ip_addr ip_net : List ℕ → IfaceAddr
  other_addr : IfaceAddr

-- An interface: its flags, its name, and its addresses or an error.
pub record Interface : Type 0 where
  pub is_up : Bool
  pub is_loopback : Bool
  pub name : List ℕ
  pub addrs : Option (List IfaceAddr)

pub data InterfaceError : Type 0 where
  no_interfaces : InterfaceError

-- `strings.Contains(name, "tun")`.
unfoldable pub contains_tun : List ℕ → Bool
contains_tun [] = false
contains_tun (c ∷ cs) =
    if take 3 (c ∷ cs) == (b't' ∷ b'u' ∷ b'n' ∷ []) then true else contains_tun cs

abbrev big_endian : List ℕ → ℕ → ℕ
big_endian [] n = n
big_endian (b ∷ bs) n = big_endian bs (n * 256 + b)

-- The twelve bytes before an IPv4 address that is written as an IPv6 address.
abbrev v4_in_v6 : List ℕ
v4_in_v6 = 0 ∷ 0 ∷ 0 ∷ 0 ∷ 0 ∷ 0 ∷ 0 ∷ 0 ∷ 0 ∷ 0 ∷ 255 ∷ 255 ∷ []

-- `IP.To4`.
unfoldable pub to4 : List ℕ → Option (List ℕ)
to4 ip =
    if length ip == 4
    then some ip
    else if length ip == 16 && take 12 ip == v4_in_v6
    then some (drop 12 ip)
    else none

-- `netip.AddrFromSlice` and `Unmap`.
unfoldable pub addr_from_slice : List ℕ → Option Addr
addr_from_slice ip =
    if length ip == 4
    then some (ip4 (big_endian ip 0))
    else if length ip == 16
    then some (ip6 (big_endian ip 0))
    else none

unfoldable pub unmap_slice : List ℕ → Option Addr
unfolding addr_from_slice
unmap_slice ip =
    if length ip == 16 && take 12 ip == v4_in_v6
    then some (ip4 (big_endian (drop 12 ip) 0))
    else addr_from_slice ip

-- The closure `parse`.
unfoldable pub parse_ip : ℕ → List ℕ → AddrPort
unfolding unmap_slice
parse_ip port ip = elim (unmap_slice ip) [
  | none ↦ no_endpoint
  | some a ↦ record { addr = a; port = port }
]

unfoldable pub endpoint_of_ip : ℕ → List ℕ → List AddrPort
unfolding to4 parse_ip
endpoint_of_ip port ip = elim (to4 ip) [ none ↦ [] | some _ ↦ parse_ip port ip ∷ [] ]

unfoldable pub endpoints_of_addrs : ℕ → List IfaceAddr → List AddrPort
unfolding endpoint_of_ip
endpoints_of_addrs port [] = []
endpoints_of_addrs port (udp_addr ip ∷ rest) =
    endpoint_of_ip port ip ++ endpoints_of_addrs port rest
endpoints_of_addrs port (ip_addr ip ∷ rest) = endpoint_of_ip port ip ++ endpoints_of_addrs port rest
endpoints_of_addrs port (ip_net ip ∷ rest) = endpoint_of_ip port ip ++ endpoints_of_addrs port rest
endpoints_of_addrs port (other_addr ∷ rest) = endpoints_of_addrs port rest

-- The interfaces that the loop does not skip.
unfoldable pub is_used : Interface → Bool
unfolding contains_tun
is_used i = i.is_up && not i.is_loopback && not (contains_tun i.name)

unfoldable pub endpoints_of_interfaces : ℕ → List Interface → List AddrPort
unfolding is_used endpoints_of_addrs
endpoints_of_interfaces port [] = []
endpoints_of_interfaces port (i ∷ rest) =
    if not (is_used i) then endpoints_of_interfaces port rest else elim i.addrs [
      | none ↦ endpoints_of_interfaces port rest
      | some addrs ↦ endpoints_of_addrs port addrs ++ endpoints_of_interfaces port rest
    ]

-- `getEndpointsForUnspecified`, on what `net.Interfaces` gives.
unfoldable pub get_endpoints_for_unspecified :
    Option (List Interface) → ℕ → Outcome InterfaceError (List AddrPort)
unfolding endpoints_of_interfaces
get_endpoints_for_unspecified none port = err no_interfaces
get_endpoints_for_unspecified (some interfaces) port = ok (endpoints_of_interfaces port interfaces)

-- What `Bind` keeps of it.
unfoldable pub bind_interfaces : Option (List Interface) → ℕ → List AddrPort
unfolding get_endpoints_for_unspecified
bind_interfaces answer port = elim (get_endpoints_for_unspecified answer port) [
  | ok endpoints ↦ endpoints
  | _ ↦ []
]

-- The endpoint of an IPv4 address with the port.
abbrev pub IsIpv4At : ℕ → AddrPort → Type 0
IsIpv4At port e = (n : ℕ) × (e ≡ record { addr = ip4 n; port = port })

endpoint_of_ip-IsIpv4At : (port : ℕ) (ip : List ℕ) → All (IsIpv4At port) (endpoint_of_ip port ip)
unfolding endpoint_of_ip to4 parse_ip unmap_slice addr_from_slice
endpoint_of_ip-IsIpv4At port ip = elim (Bool-cases (length ip == 4)) [
  | inl e ↦
      let found : endpoint_of_ip port ip
          ≡ record { addr = ip4 (big_endian ip 0); port = port } ∷ [] =
        ground (arith, e) in
      subst (All (IsIpv4At port)) (sym found) ((big_endian ip 0, refl), tt)
  | inr e ↦ elim (Bool-cases (length ip == 16 && take 12 ip == v4_in_v6)) [
    | inl f ↦
        let found : endpoint_of_ip port ip
            ≡ record { addr = ip4 (big_endian (drop 12 ip) 0); port = port } ∷ [] =
          ground (arith, e, f) in
        subst (All (IsIpv4At port)) (sym found) ((big_endian (drop 12 ip) 0, refl), tt)
    | inr f ↦
        let found : endpoint_of_ip port ip ≡ [] = ground (arith, e, f) in
        subst (All (IsIpv4At port)) (sym found) tt
  ]
]

endpoints_of_addrs-IsIpv4At :
    (port : ℕ) (addrs : List IfaceAddr) → All (IsIpv4At port) (endpoints_of_addrs port addrs)
unfolding endpoints_of_addrs
endpoints_of_addrs-IsIpv4At port [] = tt
endpoints_of_addrs-IsIpv4At port (udp_addr ip ∷ rest) =
    All-append _ (endpoint_of_ip port ip) _ (endpoint_of_ip-IsIpv4At port ip)
      (endpoints_of_addrs-IsIpv4At port rest)
endpoints_of_addrs-IsIpv4At port (ip_addr ip ∷ rest) =
    All-append _ (endpoint_of_ip port ip) _ (endpoint_of_ip-IsIpv4At port ip)
      (endpoints_of_addrs-IsIpv4At port rest)
endpoints_of_addrs-IsIpv4At port (ip_net ip ∷ rest) =
    All-append _ (endpoint_of_ip port ip) _ (endpoint_of_ip-IsIpv4At port ip)
      (endpoints_of_addrs-IsIpv4At port rest)
endpoints_of_addrs-IsIpv4At port (other_addr ∷ rest) = endpoints_of_addrs-IsIpv4At port rest

-- An interface that is down, loops back, or has "tun" in its name.
abbrev pub IsSkipped : Interface → Type 0
IsSkipped i =
    (i.is_up ≡ false)
    ⊎ ((i.is_loopback ≡ true)
        ⊎ ((before after : List ℕ) × (i.name ≡ before ++ (b't' ∷ b'u' ∷ b'n' ∷ after))))

contains_tun-append :
    (before after : List ℕ) → contains_tun (before ++ (b't' ∷ b'u' ∷ b'n' ∷ after)) ≡ true
unfolding contains_tun list_beq
contains_tun-append [] after = refl
contains_tun-append (c ∷ before) after = ground (arith, contains_tun-append before after)

skipped-unused : (i : Interface) → IsSkipped i → is_used i ≡ false
unfolding is_used
skipped-unused i (inl down) = ground (arith, down)
skipped-unused i (inr (inl loopback)) = ground (arith, loopback)
skipped-unused i (inr (inr (before, after, named))) =
    let tunnel : contains_tun i.name ≡ true = rw named (contains_tun-append before after) in
    ground (arith, tunnel)

endpoints_of_interfaces-IsIpv4At :
    (port : ℕ) (interfaces : List Interface)
    → All (IsIpv4At port) (endpoints_of_interfaces port interfaces)
unfolding endpoints_of_interfaces
endpoints_of_interfaces-IsIpv4At port [] = tt
endpoints_of_interfaces-IsIpv4At port (i ∷ rest) =
    let more = endpoints_of_interfaces-IsIpv4At port rest in
    elim (Bool-cases (is_used i)) [
      | inl u ↦ elim (Option-cases i.addrs) [
        | inl e ↦ rw (u, e) more
        | inr (addrs, e) ↦
            rw (u, e)
              (All-append _ (endpoints_of_addrs port addrs) _
                (endpoints_of_addrs-IsIpv4At port addrs) more)
      ]
      | inr u ↦ rw u more
    ]

endpoints_of_interfaces-skipped :
    (port : ℕ) (before after : List Interface) (i : Interface)
    → IsSkipped i
    → endpoints_of_interfaces port (before ++ (i ∷ after))
      ≡ endpoints_of_interfaces port (before ++ after)
unfolding endpoints_of_interfaces
endpoints_of_interfaces-skipped port [] after i h = rw (skipped-unused i h) refl
endpoints_of_interfaces-skipped port (j ∷ before) after i h =
    ground (arith, endpoints_of_interfaces-skipped port before after i h)

-- Whatever the machine's interfaces are, the endpoints that `Bind` keeps are IPv4 addresses with
-- the port of the socket, and an interface that is down, loops back or has "tun" in its name adds
-- nothing to them, wherever it stands.
pub bind_interfaces-IsIpv4At :
    (answer : Option (List Interface)) (port : ℕ) (before after : List Interface) (i : Interface)
    → IsSkipped i
    → All (IsIpv4At port) (bind_interfaces answer port)
      × (bind_interfaces (some (before ++ (i ∷ after))) port
          ≡ bind_interfaces (some (before ++ after)) port)
unfolding bind_interfaces get_endpoints_for_unspecified
bind_interfaces-IsIpv4At none port before after i h =
    (tt, endpoints_of_interfaces-skipped port before after i h)
bind_interfaces-IsIpv4At (some interfaces) port before after i h = (
  endpoints_of_interfaces-IsIpv4At port interfaces,
  endpoints_of_interfaces-skipped port before after i h,
)
