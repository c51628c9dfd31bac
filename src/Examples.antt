-- ===== src/Examples.antt =====
-- Concrete runs of the models, and the theorems at concrete inputs.
pub mod Rules
pub mod Sessions
pub mod Managers
pub mod Uploads
pub mod Handlers
pub mod Transfers
pub mod Sockets
pub mod Downloads
pub mod Logs
pub mod Files
pub mod Audits
pub mod Connections
pub mod Servers
