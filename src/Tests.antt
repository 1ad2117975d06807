-- ===== src/Tests.antt =====
-- The theorems at concrete inputs, and instances of what the program takes from its crates.
pub mod Instances
mod Server
mod Client
mod Dns
mod Kmod
mod Init
mod Machine
mod Session
mod Netfilter
mod Sntp
mod Wire
mod Upstream
