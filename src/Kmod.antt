-- ===== src/Kmod.antt =====
-- src/kmod.rs: loading kernel modules, and the `modprobe` mode of the program.
pub mod Wildcard
pub mod Modprobe
pub mod Modules
pub mod Loaded
pub mod Listed
pub mod Entry
pub mod Helper
pub mod Files
