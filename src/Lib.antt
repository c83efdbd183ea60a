-- ===== src/Lib.antt =====
-- A verification library of netproject, a mesh of nodes with a control server and a relay.
--
-- The parts and how they interact. A node logs in at the control server with its key
-- (control/control_service/service.go, LoginNode) and gets an address; the server keeps its nodes
-- in one SQL table (control/database/database.go). The node polls for its peers (Update), which
-- waits on a channel that other nodes' first polls signal. Nodes reach each other through the
-- relay (control/server/routes.go, relayHandler; node/relay.go) and, once they have exchanged
-- endpoints and pings, directly (node/peer.go).
--
-- The files.
-- - Shared and its children: Boolean tests, lists over native numbers, `==` as an interface, Go
--   maps and Go results. Bytes: big-endian numbers. Netip: `net/netip`; the texts of addresses and
--   prefixes are an interface, `NetText`, with the laws of the documentation, which Netip/Sample
--   fills.
-- - Keys: keys/key.go; Keys/Base64 is `encoding/base64` as it is used; Keys/Box is keys/box.go, on
--   an interface `Nacl`. Keys/RoundTrip, Laws, Lengths, Decoded and Clamp are proofs.
-- - Control/Database: the table as its rows and the largest id given. A statement takes the
--   driver's answer (`Exec`, `Query`) as an argument. Proofs in Laws, Lifecycle and Readable.
-- - Control/Service: the service as a record of the table, the next address and the channels with
--   their numbers of signals. `login_node` is LoginNode, `register_node` registerNode, `update`
--   Update up to its wait, `update_signalled` and `update_timed_out` how the wait ends. Proofs in
--   Ipam, Register, Addresses, Restart, Login, Notify, Polling and Reachable.
-- - Relay/Server: relayHandler; `admit` is the part before the mutex, `enter` the registration,
--   `route` one message, `serve` the loop. Relay/Server/Sessions lets handlers interleave.
--   Relay/Client is node/relay.go, Relay/EndToEnd the two together.
-- - Node/Endpoint and Node/Peer: node/peer.go. The calls of the mux and the tunnel are effects in
--   order, time is a number of nanoseconds. Proofs in Node/Peer/Writing, Discovery, Pinging,
--   Path, Inbound, Keyed and Sound.
-- - Node/Mux: node/udpmux.go. `bind` is Bind by what the operating system and the relay answer,
--   `mux_read` one read of the socket, `read_round` and `relay_round` one round of the two read
--   loops. Proofs in Binding and Delivery.
-- - Node/Controller: node/controller.go. `bring_up` is Up, `bring_down` Down; a peer object is a
--   number. `tun_round` is one round of the tunnel's loop. Proofs in Registered, Peers and Restart.
-- - Node/Lifecycle: node/node.go. `login`, `up_node` and `down_node` are Login, Up and Down; a round
--   of the update routine is `update_routine_round`, its loop `update_routine`. Proofs in Running
--   and Starting.
-- - Control/Wire: types/models.go as JSON, on an interface `Json` with round-trip laws, which
--   Wire/Sample fills. Control/Http: the routes, the middleware and the handlers of
--   control/server/routes.go; `handle` is the handler that RegisterRoutes gives, on a request and
--   on what it meets (`Ambient`). A poll that waits goes on in `handle_signalled` or
--   `handle_timed_out`. Proofs in Routes and Requests.
-- - Control/Service/Directory: the abstract view of the service, a function from keys to nodes;
--   Directory/Refines relates the two. Control/Database/Connection: New, Health and Close.
-- - Control/Command and Node/Command: cmd/control/main.go with control/server/server.go, and
--   cmd/node/main.go, as runs from start to end.
-- - Node/Client: node/client.go; its requests go to `handle`. Answers, Updates, Told, Waking,
--   Routine and Joining put the client, the handlers, the service and the node together;
--   Relay/Joined adds the relay.
-- - Node/DataPath: the tunnel loop, the peers and the muxes of two nodes, one after the other.
-- - Node/Machine: Up of node/controller.go on a machine, with Node/Tunnel and Node/Interfaces in it;
--   Machine/Started says what it comes to.
-- - Node/Tunnel: node/tun.go and node/tun_nix.go. Node/Interfaces: getEndpointsForUnspecified of
--   node/udpmux.go. Relay/TestRelay: testrelay/relayserver.go.
-- The files called Tests or JoinedTests run the definitions on concrete inputs.
--
-- Bounds. A datagram and a packet from the tunnel are cut to the buffers' 1500 bytes. `first_free`
-- takes fuel, of which one round more than there are nodes is enough. `notify_all_except` takes
-- fuel only because the code calls itself without end. Numbers of 64 bits are natural numbers with
-- their bound as a hypothesis where it matters; addresses wrap as in `net/netip`. Durations stop at
-- the largest as `time.Since` does.
--
-- Not modelled. The bodies of the library's calls: database/sql, websockets, NaCl, JSON, STUN, the
-- tunnel device; what they answer is an argument, or a parameter with named laws. The database's
-- URL, flags and environment variables other than PORT and PREFIX. Logging and the pauses before
-- answers have no effect on what is modelled.
pub mod Shared
pub mod Bytes
pub mod Keys
pub mod Netip
pub mod Control
pub mod Relay
pub mod Node
