-- ===== src/Shellytest.antt =====
-- internal/shelly/shellytest: the fake device that the repository tests the operator against.
pub mod Merge
pub mod Config
pub mod Schedules
