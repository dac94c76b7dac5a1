-- ===== src/Canary.antt =====
-- The raw listener honeytrap/listener/canary: connection states, the TCP machine, what it sends.
pub mod Types
pub mod StateTable
pub mod Send
pub mod Machine
pub mod Handlers
pub mod Knock
mod Examples
mod Scans
