-- ===== src/Discovery.antt =====
-- internal/discovery: finding the devices on the network.
pub mod Cidr
pub mod Store
pub mod Upsert
pub mod Sweeper
