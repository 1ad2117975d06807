-- ===== src/Netfilter.antt =====
-- src/netfilter.rs: the firewall.
pub mod Names
pub mod Kernel
pub mod Compare
pub mod Rules
pub mod Verdict
pub mod Outside
