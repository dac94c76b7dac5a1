-- ===== src/Services.antt =====
-- The services of honeytrap/services that are modelled.
pub mod Decoder
pub mod Filesystem
pub mod Memcached
pub mod Redis
pub mod Ipp
pub mod Smtp
pub mod Tftp
mod Examples
mod Clients
