-- ===== src/Node/Mux/Binding.antt =====
-- node/udpmux.go, `Bind` and `Unbind`: the socket, the relay connection and the flag of the bind.
use netproject.Shared.{ℕ, ◌≡◌, ◌≢◌, List, [], ◌∷◌, Bool, true, false, Option, none, some, arith}
use netproject.Shared.{ok, panic, nat_eq}
use netproject.Relay.Client.{RelayClient, connect, close}
use netproject.Node.Endpoint.{AddrPort}
use netproject.Node.Mux.{
  Mux, bind, bind_listening, unbind, do_stun, write_packet, register_peer, deregister_peer,
  handle_stun,
}

-- `Bind` where the relay cannot be reached reports success, and then everything that uses the
-- socket crashes the node: a STUN request, a write, and `Unbind`.
pub bind_dial_fails :
    (here : AddrPort) (interfaces : ℕ → List AddrPort) (client : RelayClient) (packet : List ℕ)
    (writes closes relay_closes : Bool) (m : Mux)
    → m.conn ≡ false
    → m.relay_client ≡ some client
    → ((bind (some here) interfaces none m).1 ≡ ok tt)
      × (do_stun true (bind (some here) interfaces none m).0 ≡ panic)
      × (write_packet writes packet (bind (some here) interfaces none m).0 ≡ panic)
      × ((unbind closes relay_closes (bind (some here) interfaces none m).0).1 ≡ panic)
unfolding bind bind_listening connect do_stun write_packet unbind
bind_dial_fails here interfaces client packet writes closes relay_closes m unbound c = ground arith

-- A bind that reaches the relay, and an unbind whose calls work, succeed, and leave the mux ready
-- to bind again, with its peers.
pub unbind-bind :
    (here : AddrPort) (interfaces : ℕ → List AddrPort) (socket : ℕ) (client : RelayClient) (m : Mux)
    → m.conn ≡ false
    → m.relay_client ≡ some client
    → let bound = (bind (some here) interfaces (some socket) m).0 in
      let unbound = (unbind true true bound).0 in
      ((unbind true true bound).1 ≡ ok tt)
      × (unbound.conn ≡ false)
      × (unbound.bind_active ≡ false)
      × (unbound.peers ≡ m.peers)
      × (unbound.relay_client ≡ some (record client { conn = none }))
      × ((bind (some here) interfaces (some socket) unbound).1 ≡ ok tt)
unfolding bind bind_listening connect unbind close
unbind-bind here interfaces socket client m unbound c = ground arith

-- A call of the mux in which a relay that is dialled is reached.
pub data Call : Type 0 where
  binds : Option AddrPort → (ℕ → List AddrPort) → ℕ → Call
  unbinds : Bool → Bool → Call
  registers : ℕ → ℕ → Call
  deregisters : ℕ → Call
  is_told : Option AddrPort → Call

unfoldable pub perform : Call → Mux → Mux
unfolding bind unbind register_peer deregister_peer handle_stun
perform (binds listen interfaces socket) m = (bind listen interfaces (some socket) m).0
perform (unbinds closes relay_closes) m = (unbind closes relay_closes m).0
perform (registers id peer) m = register_peer id peer m
perform (deregisters id) m = deregister_peer id m
perform (is_told found) m = handle_stun found m

unfoldable pub perform_all : List Call → Mux → Mux
unfolding perform
perform_all [] m = m
perform_all (c ∷ cs) m = perform_all cs (perform c m)

-- The mux has a relay client, and a socket exactly while its bind is active.
abbrev pub IsCoherent : Mux → Type 0
IsCoherent m =
    (elim m.relay_client [ none ↦ false | some _ ↦ true ] ≡ true) × (m.conn ≡ m.bind_active)

perform-IsCoherent : (c : Call) (m : Mux) → IsCoherent m → IsCoherent (perform c m)
unfolding perform bind bind_listening connect unbind close register_peer deregister_peer handle_stun
perform-IsCoherent (binds none interfaces socket) m h = ground (arith, h)
perform-IsCoherent (binds (some here) interfaces socket) m h = ground (arith, h)
perform-IsCoherent (unbinds closes relay_closes) m h = ground (arith, h)
perform-IsCoherent (registers id peer) m h = h
perform-IsCoherent (deregisters id) m h = h
perform-IsCoherent (is_told none) m h = h
perform-IsCoherent (is_told (some found)) m h = h

perform_all-IsCoherent : (cs : List Call) (m : Mux) → IsCoherent m → IsCoherent (perform_all cs m)
unfolding perform_all
perform_all-IsCoherent [] m h = h
perform_all-IsCoherent (c ∷ cs) m h =
    perform_all-IsCoherent cs (perform c m) (perform-IsCoherent c m h)

coherent_calls :
    (m : Mux) (packet : List ℕ) (writes closes relay_closes : Bool)
    → IsCoherent m
    → (write_packet writes packet m ≢ panic) × ((unbind closes relay_closes m).1 ≢ panic)
unfolding write_packet unbind close
coherent_calls m packet writes closes relay_closes h = (ground (arith, h), ground (arith, h))

-- As long as the relay is reached whenever it is dialled, whatever the operating system answers
-- and in whatever order the mux is called, a write and an unbind do not crash a mux with a relay
-- client that began with a socket exactly if its bind was active.
pub no_crash_while_dials_work :
    (cs : List Call) (m : Mux) (packet : List ℕ) (writes closes relay_closes : Bool)
    → IsCoherent m
    → (write_packet writes packet (perform_all cs m) ≢ panic)
      × ((unbind closes relay_closes (perform_all cs m)).1 ≢ panic)
no_crash_while_dials_work cs m packet writes closes relay_closes h =
    coherent_calls (perform_all cs m) packet writes closes relay_closes
      (perform_all-IsCoherent cs m h)
