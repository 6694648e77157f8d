-- ===== src/Shared.antt =====
-- shared/: what the backend and the workers have in common.
pub mod Value
pub mod Validation
pub mod Schemas
pub mod HostStats
mod Examples
