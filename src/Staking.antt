-- ===== src/Staking.antt =====
-- contracts/staking: rewards for staked LP tokens.
pub mod Types
pub mod Rewards
pub mod Contract
pub mod Queries
pub mod Effects
pub mod Bonds
pub mod Payout
pub mod Accrual
pub mod Books
pub mod Settlement
pub mod Solvency
pub mod Ledger
pub mod Custody
pub mod Tests
pub mod Recovery
