-- ===== src/Relay.antt =====
-- The relay: the server's handler in control/server/routes.go, the client in node/relay.go, and the
-- relay for tests in testrelay/relayserver.go. The websocket library is not modelled: what its
-- calls give is an argument.
pub mod Server
pub mod Client
pub mod EndToEnd
pub mod Joined
pub mod JoinedTests
pub mod TestRelay
pub mod Tests
