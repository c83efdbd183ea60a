-- ===== src/Node.antt =====
-- The node: node/.
pub mod Endpoint
pub mod Peer
pub mod Interfaces
pub mod Tunnel
pub mod Mux
pub mod Controller
pub mod DataPath
pub mod Machine
pub mod Lifecycle
pub mod Client
pub mod Command
pub mod Tests
