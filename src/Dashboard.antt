-- ===== src/Dashboard.antt =====
-- The parts of the dashboard, web/dashboard/src/lib, that compute what its pages show.
pub mod Status
pub mod Lifecycle
pub mod Activity
pub mod Format
