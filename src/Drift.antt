-- ===== src/Drift.antt =====
-- internal/drift: the pure logic of profile-driven configuration.
pub mod Order
pub mod Match
pub mod Diff
pub mod Report
pub mod Render
