-- ===== src/Fleet.antt =====
-- internal/fleet: what the controller and the dashboard share.
pub mod Sanitize
pub mod Registry
