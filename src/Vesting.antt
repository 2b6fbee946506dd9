-- ===== src/Vesting.antt =====
-- contracts/vesting: linear release of token allocations.
pub mod Types
pub mod Claims
pub mod Contract
pub mod Release
pub mod Payments
pub mod Schedules
pub mod Tests
pub mod Queries
pub mod Claimable
