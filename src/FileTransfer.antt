-- ===== src/FileTransfer.antt =====
-- src/server/internal/filetransfer: file streams, the transfer handler and the transfer manager.
pub mod Chunks
pub mod Upload
pub mod Download
pub mod Handler
pub mod Manager
pub mod Settings
pub mod Security
pub mod WebSocket
pub mod Audit
