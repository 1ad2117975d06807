-- ===== src/Client.antt =====
-- src/services/dhcp_client.rs: the DHCP client of the WAN.
pub mod Errors
pub mod Backoff
pub mod Jitter
pub mod Mask
pub mod Renewal
pub mod Parse
pub mod Netlink
pub mod Lease
pub mod Messages
pub mod Phases
pub mod Session
pub mod Send
pub mod Received
