-- ===== src/Control.antt =====
-- The control server: control/.
pub mod Database
pub mod Service
pub mod Wire
pub mod Http
pub mod Command
