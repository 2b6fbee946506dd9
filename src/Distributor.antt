-- ===== src/Distributor.antt =====
-- contracts/distributor: a fund that whitelisted contracts may spend from.
pub mod Contract
pub mod Whitelist
pub mod Tests
pub mod Removal
