-- ===== src/Gov.antt =====
-- contracts/gov: the governance contract.
pub mod Types
pub mod Settings
pub mod Staking
pub mod Polls
pub mod Contract
pub mod Queries
pub mod Laws
mod Tests
mod Scenario
mod Outcomes
mod Runs
mod Example
mod Stakes
pub mod Effects
pub mod Invariant
