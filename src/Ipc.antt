-- ===== src/Ipc.antt =====
-- internal/ipc: the requests that the client sends to the daemon, their transport and their dispatch to
-- the controller, and how a client finds or spawns its daemon.
pub mod Dispatch
pub mod Wire
pub mod Server
pub mod Autospawn
pub mod Socket
