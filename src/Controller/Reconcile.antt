-- ===== src/Controller/Reconcile.antt =====
-- internal/controller/shellydevice_controller.go: the reconcile of one device.
pub mod Stamp
pub mod Status
pub mod Apply
pub mod Findings
pub mod Enforce
pub mod Messages
pub mod Run
pub mod Safety
