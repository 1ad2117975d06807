-- ===== src/Server.antt =====
-- src/services/dhcp_server.rs: the DHCP server of the LAN.
pub mod LeaseTable
pub mod Exclusive
pub mod Index
pub mod Replies
pub mod Handlers
pub mod Safety
pub mod Serve
pub mod Leasing
pub mod Start
pub mod Restart
pub mod Observed
pub mod Unordered
pub mod Panic
