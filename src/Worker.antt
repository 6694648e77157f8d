-- ===== src/Worker.antt =====
-- The worker's process on a host.
pub mod Tasks
pub mod Machine
pub mod Samples
pub mod Broker
pub mod Docker
pub mod Runners
pub mod Artifacts
pub mod Bundle
pub mod Heartbeat
pub mod Reports
pub mod App
