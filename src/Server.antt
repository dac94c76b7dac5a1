-- ===== src/Server.antt =====
-- honeytrap/server: which service gets a connection, and what is configured for that. Ports
-- and Dispatch are honeytrap.go, Stream is peek-connection.go and timeout_conn.go, and Bus is the
-- filters of honeytrap.go with honeytrap/pushers and its event bus.
pub mod Addr
pub mod Ports
pub mod Stream
pub mod Dispatch
pub mod Bus
mod Examples
