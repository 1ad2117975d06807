-- ===== src/Suite.antt =====
-- The unit tests of the repository as functions into `Bool`, each true of the model.
pub mod Base
pub mod Server
pub mod Allocation
pub mod Client
pub mod System
pub mod Dns
