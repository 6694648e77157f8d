-- ===== src/Backend.antt =====
-- backend/: the web service, its database and its services.
pub mod Config
pub mod Models
pub mod Effects
pub mod Database
pub mod Ledger
pub mod Clock
pub mod Auth
pub mod Maintenance
pub mod Poll
pub mod Influx
pub mod Render
pub mod Scheduler
pub mod Routes
pub mod Samples
