-- ===== src/Packet.antt =====
-- The packet formats of honeytrap/listener/canary.
pub mod Checksum
pub mod Udp
pub mod Ethernet
pub mod Icmp
pub mod Arp
pub mod Ipv4
pub mod Tcp
pub mod Segment
mod Examples
