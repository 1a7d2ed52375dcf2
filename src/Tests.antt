-- ===== src/Tests.antt =====
-- Runs of the theorems at concrete values.
pub mod Toy
pub mod Buffers
pub mod Handlers
pub mod Passwords
pub mod Sessions
pub mod Parts
pub mod Queues
pub mod Secret
pub mod Texts
pub mod Updates
pub mod Databases
pub mod Pools
pub mod Networks
pub mod Logs
