-- ===== src/Dns.antt =====
-- src/services/dns_forwarder.rs: the DNS forwarder of the LAN.
pub mod Cache
pub mod Pending
pub mod Forward
pub mod Answers
pub mod Delivery
pub mod Machine
pub mod Once
pub mod Turns
pub mod Entries
pub mod Running
pub mod Provenance
pub mod Bytes
pub mod Upstream
