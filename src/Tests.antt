-- ===== src/Tests.antt =====
-- Runs of the theorems at concrete inputs.
pub mod Whole
pub mod Fixed
pub mod States
pub mod Sketches
pub mod Limits
pub mod Logs
pub mod Access
pub mod Alerts
pub mod Windows
pub mod Mesh
