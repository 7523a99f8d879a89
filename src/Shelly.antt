-- ===== src/Shelly.antt =====
-- internal/shelly: the RPC client's types, its errors, and the calls that the controller makes.
pub mod Errors
pub mod Rpc
pub mod Schedules
pub mod Methods
pub mod Client
