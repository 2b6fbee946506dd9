-- ===== src/Collector.antt =====
-- contracts/collector: protocol fees into rewards.
pub mod Contract
pub mod Split
pub mod Tests
