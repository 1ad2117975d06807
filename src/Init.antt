-- ===== src/Init.antt =====
-- The start of the program: src/config.rs, src/system.rs, src/reaper.rs, src/signal.rs and src/main.rs.
pub mod Config
pub mod Reaper
pub mod Boot
pub mod Tasks
pub mod LanAddress
pub mod System
pub mod Machine
pub mod Mock
pub mod Reaping
