-- ===== src/RemoteAccess.antt =====
-- src/server/internal/remoteaccess: remote access sessions, their privileges, the session manager
-- and its configuration.
pub mod Audit
pub mod Session
pub mod Config
pub mod Manager
pub mod WebSocket
pub mod Http
