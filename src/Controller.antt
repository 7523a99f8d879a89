-- ===== src/Controller.antt =====
-- internal/controller: the reconciler of ShellyDevice objects.
pub mod Firmware
pub mod Schedule
pub mod Window
pub mod Update
pub mod World
pub mod Reconcile
