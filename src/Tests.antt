-- ===== src/Tests.antt =====
-- The theorems at concrete inputs.
mod Calls
mod Fixtures
mod Config
mod Profiles
mod Jobs
mod Updates
mod Labels
mod Reconcile
mod Writes
mod Sweeps
mod Feeds
