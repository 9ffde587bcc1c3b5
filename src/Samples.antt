-- ===== src/Samples.antt =====
-- Concrete instances of the interfaces, on which the examples run.
pub mod Headers
pub mod Storage
pub mod Channels
pub mod Memory
pub mod Counter
pub mod Process
pub mod Bundle
