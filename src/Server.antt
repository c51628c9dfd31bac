-- ===== src/Server.antt =====
-- src/server/cmd/main.go: the server process, which puts the parts together: its configuration file,
-- its command line, the REST interface to the transfers, and the handlers that it runs.
pub mod Config
pub mod Loading
pub mod Rest
pub mod Process
pub mod Separate
pub mod Unserved
pub mod Approvals
